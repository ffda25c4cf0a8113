-- ===== src/Conformance/Roundtrips.antt =====
-- The check of presented bytes: `check_roundtrip` of crates/vaid-mint/src/bin/conformance.rs.
use vaid.Prelude.{
  ℕ, ◌+◌, ◌%◌, Bool, true, false, ◌&&◌, not, none, some, List, [], ◌∷◌, Bytes, text, text_eq,
  starts_with, any, ◌==◌, if◌then◌else◌,
}
use vaid.Json.{
  Json, null, boolean, uint, number, string, array, object, Items, nil, item, Members, end, member,
  get, put,
}
use vaid.Platform.{Platform}
use vaid.Document.{to_members, canonical_vaid_signing_bytes}
use vaid.Conformance.{
  Check, ◌>>=◌, ◌>>◌, require, or_block, or_panic, check_each, at_key, text_at, same, some_cases,
  as_array, as_bool, unhex, doc_from, no_expected, not_round_tripped, does_not_verify,
  no_longer_discriminates,
}

-- `==` of two values: an object's members are compared as a map's.
abbrev size : Members → ℕ
size end = 0
size (member k j rest) = size rest + 1

unfoldable mutual
  pub json_eq : Json → Json → Bool
  json_eq null null = true
  json_eq (boolean a) (boolean b) = same a b
  json_eq (uint m) (uint n) = m == n
  json_eq (number s) (number t) = text_eq s t
  json_eq (string s) (string t) = text_eq s t
  json_eq (array is) (array js) = items_eq is js
  json_eq (object m) (object n) = members_in m n && (size m == size n)
  json_eq _ _ = false

  pub items_eq : Items → Items → Bool
  items_eq nil nil = true
  items_eq (item i is) (item j js) = json_eq i j && items_eq is js
  items_eq _ _ = false

  pub members_in : Members → Members → Bool
  members_in end n = true
  members_in (member k j rest) n =
      (elim (get k n) [ none ↦ false | some i ↦ json_eq j i ]) && members_in rest n

-- `sig_of`: `as_u64().unwrap_or(0) as u8` of each item
abbrev as_u8 : Json → ℕ
as_u8 (uint n) = n % 256
as_u8 _ = 0

abbrev bytes_of : List Json → Bytes
bytes_of [] = []
bytes_of (j ∷ js) = as_u8 j ∷ bytes_of js

abbrev pub sig_of : Json → Bytes
sig_of doc = elim (as_array (at_key doc (text "kernel_signature"))) [
  | none ↦ []
  | some js ↦ bytes_of js
]

-- `retain(|k, _| !k.starts_with("x_"))`
abbrev retain_known : Members → Members
retain_known end = end
retain_known (member k j rest) =
    let others = retain_known rest in
    if starts_with k (text "x_") then others else member k j others

-- The document that an implementation would see which drops the members that it does not know.
unfoldable pub dropped : Json → Json
dropped (object m) = object (put (text "kernel_signature") null (retain_known m))
dropped j = j

abbrev pub expected_valid : Json → Bool
expected_valid case = elim (as_bool (at_key case (text "expected_valid"))) [
  | none ↦ false
  | some b ↦ b
]

module _ (p : Platform) where
  unfoldable pub check_roundtrip_case : Bytes → Json → Check
  check_roundtrip_case key case = do
    let doc = at_key case (text "document")
    expected ← or_block (as_bool (at_key case (text "expected_valid"))) no_expected
    parsed ← doc_from p doc
    require (json_eq (object (to_members parsed)) doc) not_round_tripped
    let got = p.ed25519_verify key (canonical_vaid_signing_bytes p parsed) (sig_of doc)
    require (same got expected) does_not_verify

  -- What a dropping implementation would answer.
  unfoldable pub dropping_verifies : Bytes → Json → Bool
  dropping_verifies key case =
      let doc = at_key case (text "document") in
      p.ed25519_verify key (p.sha256 (p.jcs (dropped doc))) (sig_of doc)

  unfoldable pub check_roundtrip : Json → Check
  check_roundtrip v = do
    cases ← some_cases v (text "cases")
    key ← or_panic (unhex (text_at (at_key v (text "ed25519")) (text "kernel_public_key_hex")))
    check_each (λ case. check_roundtrip_case key case) cases
    require
        (any (λ case. expected_valid case && not (dropping_verifies key case)) cases
          && any (λ case. not (expected_valid case) && dropping_verifies key case) cases)
        no_longer_discriminates
