-- ===== src/Conformance/Refusals.antt =====
-- That the verdict vector has teeth: what an implementation must answer for `check_verdict` of
-- crates/vaid-mint/src/bin/conformance.rs to pass it.
use vaid.Prelude.{
  ◌≡◌, refl, sym, ap, ◌∙◌, Bool, true, false, ◌&&◌, List, [], ◌∷◌, ◌++◌, map, Bytes, Text,
  text_eq_iff, text_key, contains, all_at, In, In-append_left, inl, inr, Bool-cases, &&-split,
  ltb→lt,
}
use vaid.Json.{Json}
use vaid.Verify.{VaidVerdict, all_verdicts, verdict_code}
use vaid.Conformance.{passed, same}
use vaid.Conformance.Passing.{passed_value, passes, >>=-Passes, require-eq-passed, same_iff}
use vaid.Conformance.Scopes.{included, same_set}
use vaid.Conformance.Verdicts.{
  Implementation, VerdictCase, is_standing, answer_of, check_verdict_case, check_verdict_cases,
  some_case, check_verdict_with,
}
use vaid.Conformance.Teeth.{count-positive}

-- The implementation was asked about a case, and answered.
pub record Answered (impl : Implementation) (key : Bytes) (c : VerdictCase) : Type 0 where
  pub case : Json
  pub answer : Text × Bool
  pub given : answer_of impl key case ≡ passed answer
  pub reason : answer.0 ≡ c.reason
  pub valid : answer.1 ≡ c.valid
  pub standing : is_standing case ≡ c.standing

check_verdict_case-Answered :
    (impl : Implementation) (key : Bytes) (case : Json) (c : VerdictCase)
    → check_verdict_case impl key case ≡ passed c
    → Answered impl key c
unfolding check_verdict_case
check_verdict_case-Answered impl key case c h = elim (>>=-Passes _ _ h) [
  | passes r stated h1 ↦ elim (>>=-Passes _ _ h1) [
    | passes b flagged h2 ↦ elim (>>=-Passes _ _ h2) [
      | passes a given h3 ↦ elim (>>=-Passes _ _ h3) [
        | passes u same_reason h4 ↦ elim (>>=-Passes _ _ h4) [
          | passes w same_flag h5 ↦
              let built = passed_value h5 in
              record {
                case = case;
                answer = a;
                given = given;
                reason =
                    (text_eq_iff a.0 r).0 (require-eq-passed _ _ same_reason)
                    ∙ ap (λ (x : VerdictCase). x.reason) built;
                valid =
                    same_iff a.1 b (require-eq-passed _ _ same_flag)
                    ∙ ap (λ (x : VerdictCase). x.valid) built;
                standing = ap (λ (x : VerdictCase). x.standing) built;
              }
        ]
      ]
    ]
  ]
]

check_verdict_cases-Answered :
    (impl : Implementation) (key : Bytes) (given : List Json) (cases : List VerdictCase)
    → check_verdict_cases impl key given ≡ passed cases
    → (c : VerdictCase) → In c cases
    → Answered impl key c
unfolding check_verdict_cases
check_verdict_cases-Answered impl key [] cases h c m =
    absurd (let none_there : [] ≡ cases = passed_value h in rw (← none_there) at m)
check_verdict_cases-Answered impl key (j ∷ given) cases h c m = elim (>>=-Passes _ _ h) [
  | passes d now h1 ↦ elim (>>=-Passes _ _ h1) [
    | passes rest later h2 ↦
        let whole : d ∷ rest ≡ cases = passed_value h2 in
        elim (rw (← whole) at m) [
          | inl e ↦ rw e (check_verdict_case-Answered impl key j d now)
          | inr there ↦ check_verdict_cases-Answered impl key given rest later c there
        ]
  ]
]

-- The implementation answered `valid` on some case of the surface.
pub record Control (impl : Implementation) (standing valid : Bool) : Type 0 where
  pub key : Bytes
  pub case : Json
  pub answer : Text × Bool
  pub surface : is_standing case ≡ standing
  pub given : answer_of impl key case ≡ passed answer
  pub answers : answer.1 ≡ valid

-- The implementation gave the reason on some case.
pub record Gives (impl : Implementation) (reason : Text) : Type 0 where
  pub key : Bytes
  pub case : Json
  pub answer : Text × Bool
  pub given : answer_of impl key case ≡ passed answer
  pub gives : answer.0 ≡ reason

module _ (impl : Implementation) (key : Bytes) (cases : List VerdictCase)
    (answered : (c : VerdictCase) → In c cases → Answered impl key c) where
  some_case-Control :
      (standing valid : Bool) → some_case standing valid cases ≡ true → Control impl standing valid
  some_case-Control standing valid h =
      let (c, there, fits) =
        count-positive (λ (c : VerdictCase). same c.standing standing && same c.valid valid) cases
          (ltb→lt _ _ h) in
      let (same_surface, same_flag) = &&-split _ _ fits in
      let a = answered c there in
      record {
        key = key;
        case = a.case;
        answer = a.answer;
        surface = a.standing ∙ same_iff c.standing standing same_surface;
        given = a.given;
        answers = a.valid ∙ same_iff c.valid valid same_flag;
      }

  reason_in :
      (reason : Text) (cs : List VerdictCase)
      → contains reason (map (λ (c : VerdictCase). c.reason) cs) ≡ true
      → (c : VerdictCase) × In c cs × (c.reason ≡ reason)
  reason_in reason [] h = cc
  reason_in reason (c ∷ cs) h = elim (Bool-cases (text_key.beq c.reason reason)) [
    | inl here ↦ (c, inl refl, (text_eq_iff c.reason reason).0 here)
    | inr other ↦ let (d, there, e) = reason_in reason cs (rw other at h) in (d, inr there, e)
  ]

  reason-Gives :
      (reason : Text)
      → contains reason (map (λ (c : VerdictCase). c.reason) cases) ≡ true
      → Gives impl reason
  reason-Gives reason h =
      let (c, there, e) = reason_in reason cases h in
      let a = answered c there in
      record { key = key; case = a.case; answer = a.answer; given = a.given; gives = a.reason ∙ e }

pub contains-In : (t : Text) (ts : List Text) → contains t ts ≡ true → In t ts
contains-In t [] h = cc
contains-In t (u ∷ ts) h = elim (Bool-cases (text_key.beq u t)) [
  | inl here ↦ inl (sym ((text_eq_iff u t).0 here))
  | inr other ↦ inr (contains-In t ts (rw other at h))
]

In-map : {A B : Type 0} (f : A → B) (x : A) (xs : List A) → In x xs → In (f x) (map f xs)
In-map f x [] m = absurd m
In-map f x (y ∷ xs) m = elim m [ inl e ↦ inl (ap f e) | inr there ↦ inr (In-map f x xs there) ]

all_verdicts-In : (r : VaidVerdict) → In r all_verdicts
all_verdicts-In VaidVerdict.valid = inl refl
all_verdicts-In VaidVerdict.unparseable = inr (inl refl)
all_verdicts-In VaidVerdict.unsupported_sig_version = inr (inr (inl refl))
all_verdicts-In VaidVerdict.malformed_trust_domain = inr (inr (inr (inl refl)))
all_verdicts-In VaidVerdict.issuer_mismatch = inr (inr (inr (inr (inl refl))))
all_verdicts-In VaidVerdict.lineage_inconsistent = inr (inr (inr (inr (inr (inl refl)))))
all_verdicts-In VaidVerdict.inauthentic = inr (inr (inr (inr (inr (inr (inl refl))))))
all_verdicts-In VaidVerdict.expired = inr (inr (inr (inr (inr (inr (inr (inl refl)))))))
all_verdicts-In VaidVerdict.unknown_scope_kind =
    inr (inr (inr (inr (inr (inr (inr (inr (inl refl))))))))
all_verdicts-In VaidVerdict.has_been_revoked =
    inr (inr (inr (inr (inr (inr (inr (inr (inr (inl refl)))))))))
all_verdicts-In VaidVerdict.indeterminate =
    inr (inr (inr (inr (inr (inr (inr (inr (inr (inr (inl refl))))))))))

-- Every verdict of the library is declared, and every declared one has a case.
in_vocabulary :
    (declared attenuation exercised : List Text)
    → same_set declared (map (λ r. verdict_code r) all_verdicts) ≡ true
    → included (declared ++ attenuation) exercised ≡ true
    → (r : VaidVerdict) → contains (verdict_code r) exercised ≡ true
in_vocabulary declared attenuation exercised agreed covered r =
    let codes = map (λ r. verdict_code r) all_verdicts in
    let (some_declared, all_declared) =
      &&-split (included declared codes) (included codes declared) agreed in
    let code_in = In-map (λ r. verdict_code r) r all_verdicts (all_verdicts-In r) in
    let declared_in =
      all_at (λ x. contains x declared) (verdict_code r) codes all_declared code_in in
    all_at (λ x. contains x exercised) (verdict_code r) (declared ++ attenuation) covered
      (In-append_left (verdict_code r) declared attenuation
        (contains-In (verdict_code r) declared declared_in))

-- The four controls, one for each surface and answer.
controls :
    (P : Bool → Bool → Type 0)
    → P true true
    → P false true
    → P true false
    → P false false
    → (s b : Bool) → P s b
controls P h1 h2 h3 h4 true true = h1
controls P h1 h2 h3 h4 false true = h2
controls P h1 h2 h3 h4 true false = h3
controls P h1 h2 h3 h4 false false = h4

-- An implementation that the verdict vector passes accepts and refuses some case on each of the
-- two surfaces, and gives every verdict that the library knows as its reason on some case: neither a
-- constant answer nor one refusal for every fault can pass.
pub check_verdict_with-teeth :
    (impl : Implementation) (v : Json)
    → check_verdict_with impl v ≡ passed tt
    → ((standing valid : Bool) → Control impl standing valid)
      × ((r : VaidVerdict) → Gives impl (verdict_code r))
unfolding check_verdict_with
check_verdict_with-teeth impl v h = elim (>>=-Passes _ _ h) [
  | passes given there h1 ↦ elim (>>=-Passes _ _ h1) [
    | passes key read h2 ↦ elim (>>=-Passes _ _ h2) [
      | passes cases asked h3 ↦ elim (>>=-Passes _ _ h3) [
        | passes u positive h4 ↦ elim (>>=-Passes _ _ h4) [
          | passes w negative h5 ↦ elim (>>=-Passes _ _ h5) [
            | passes x two h6 ↦ elim (>>=-Passes _ _ h6) [
              | passes y agreed covered ↦
                  let answered = check_verdict_cases-Answered impl key given cases asked in
                  let (yes_s, yes_a) = &&-split _ _ (require-eq-passed _ _ positive) in
                  let (no_s, no_a) = &&-split _ _ (require-eq-passed _ _ negative) in
                  (
                    λ standing valid. some_case-Control impl key cases answered standing valid (
                        controls (λ s b. some_case s b cases ≡ true) yes_s yes_a no_s no_a standing
                          valid),
                    λ r. reason-Gives impl key cases answered (verdict_code r) (
                        in_vocabulary _ _ _ (require-eq-passed _ _ agreed)
                          (require-eq-passed _ _ covered) r),
                  )
            ]
          ]
        ]
      ]
    ]
  ]
]
