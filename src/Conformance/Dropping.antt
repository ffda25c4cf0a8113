-- ===== src/Conformance/Dropping.antt =====
-- That the roundtrip vector has teeth: `check_roundtrip` of crates/vaid-mint/src/bin/conformance.rs.
use vaid.Prelude.{
  ◌≡◌, refl, sym, ◌∙◌, Bool, true, false, ◌&&◌, not, some, List, [], ◌∷◌, Bytes, text, any, In, inl,
  inr, arith, &&-split, Bool-cases,
}
use vaid.Json.{Json, object}
use vaid.Platform.{Platform}
use vaid.Document.{Vaid, to_members, canonical_vaid_signing_bytes}
use vaid.Document.Reading.{read_vaid}
use vaid.Conformance.{passed, at_key, text_at, cases_at, as_bool, unhex}
use vaid.Conformance.Passing.{
  passes, >>=-Passes, require-eq-passed, or_block-eq-passed, or_panic-eq-passed, same_iff,
  check_each-at, non_empty-eq-passed,
}
use vaid.Conformance.Roundtrips.{
  json_eq, sig_of, expected_valid, check_roundtrip_case, dropping_verifies, check_roundtrip,
}

any-In :
    {A : Type 0} (f : A → Bool) (xs : List A) → any f xs ≡ true → (x : A) × In x xs × (f x ≡ true)
any-In f [] h = cc
any-In f (x ∷ xs) h = elim (Bool-cases (f x)) [
  | inl here ↦ (x, inl refl, here)
  | inr other ↦ let (y, there, holds) = any-In f xs (rw other at h) in (y, inr there, holds)
]

module _ (p : Platform) where
  -- A presented document that is written back as it was, and verifies exactly if the case says so.
  pub record IsPinned (key : Bytes) (case : Json) : Type 0 where
    pub parsed : Vaid
    pub read : read_vaid p (at_key case (text "document")) ≡ some parsed
    pub written_back : json_eq (object (to_members parsed)) (at_key case (text "document")) ≡ true
    pub verdict :
        p.ed25519_verify key
          (canonical_vaid_signing_bytes p parsed)
          (sig_of (at_key case (text "document")))
        ≡ expected_valid case

  check_roundtrip_case-IsPinned :
      (key : Bytes) (case : Json) → check_roundtrip_case p key case ≡ passed tt → IsPinned key case
  unfolding check_roundtrip_case
  check_roundtrip_case-IsPinned key case h = elim (>>=-Passes _ _ h) [
    | passes expected stated h1 ↦ elim (>>=-Passes _ _ h1) [
      | passes parsed read h2 ↦ elim (>>=-Passes _ _ h2) [
        | passes u written h3 ↦
            let said : as_bool (at_key case (text "expected_valid")) ≡ some expected =
              or_block-eq-passed _ _ stated in
            let whole : expected_valid case ≡ expected = rw (said, expected_valid) refl in
            record {
              parsed = parsed;
              read = or_block-eq-passed _ _ read;
              written_back = require-eq-passed _ _ written;
              verdict = same_iff _ expected (require-eq-passed _ _ h3) ∙ sym whole;
            }
      ]
    ]
  ]

  -- What a roundtrip vector that passes shows of an implementation that drops unknown members.
  pub record TellsDropping (v : Json) : Type 0 where
    pub key : Bytes
    pub given :
        unhex (text_at (at_key v (text "ed25519")) (text "kernel_public_key_hex")) ≡ some key
    pub pinned : (case : Json) → In case (cases_at v (text "cases")) → IsPinned key case
    pub kept : Json
    pub kept_in : In kept (cases_at v (text "cases"))
    pub kept_valid : expected_valid kept ≡ true
    pub kept_refused : dropping_verifies p key kept ≡ false
    pub added : Json
    pub added_in : In added (cases_at v (text "cases"))
    pub added_invalid : expected_valid added ≡ false
    pub added_accepted : dropping_verifies p key added ≡ true

  not-true : (b : Bool) → not b ≡ true → b ≡ false
  not-true b h = ground arith

  -- If the roundtrip vector passes, each of its documents is written back as it was presented and
  -- verifies, under the public key that the vector states, exactly as its case says, and an implementation that drops the members which it does
  -- not know would refuse one that is valid and accept one that is not.
  pub check_roundtrip-TellsDropping : (v : Json) → check_roundtrip p v ≡ passed tt → TellsDropping v
  unfolding check_roundtrip
  check_roundtrip-TellsDropping v h = elim (>>=-Passes _ _ h) [
    | passes cases there h1 ↦ elim (>>=-Passes _ _ h1) [
      | passes key read h2 ↦ elim (>>=-Passes _ _ h2) [
        | passes u each both ↦
            let same_cases = non_empty-eq-passed (cases_at v (text "cases")) there in
            let (negative, accept) = &&-split _ _ (require-eq-passed _ _ both) in
            let (a, a_in, a_holds) =
              any-In (λ case. expected_valid case && not (dropping_verifies p key case)) cases
                negative in
            let (b, b_in, b_holds) =
              any-In (λ case. not (expected_valid case) && dropping_verifies p key case) cases
                accept in
            let (a_valid, a_refused) = &&-split _ _ a_holds in
            let (b_invalid, b_accepted) = &&-split _ _ b_holds in
            record {
              key = key;
              given = or_panic-eq-passed _ read;
              pinned = λ case m. check_roundtrip_case-IsPinned key case (
                  check_each-at (λ case. check_roundtrip_case p key case) cases case each
                    (rw same_cases at m));
              kept = a;
              kept_in = rw same_cases a_in;
              kept_valid = a_valid;
              kept_refused = not-true _ a_refused;
              added = b;
              added_in = rw same_cases b_in;
              added_invalid = not-true _ b_invalid;
              added_accepted = b_accepted;
            }
      ]
    ]
  ]
