-- ===== src/Conformance/Running.antt =====
-- The whole run: `VECTOR_CHECKS` and `run` of crates/vaid-mint/src/bin/conformance.rs. The vectors are
-- files of one directory, so that their names are distinct and decide the order of the report.
use vaid.Prelude.{
  ℕ, ◌+◌, ◌==◌, Bool, true, false, not, Option, none, some, List, [], ◌∷◌, Text, text, is_empty,
  length, ltb, if◌then◌else◌, text_key, lookup,
}
use vaid.Json.{Json, as_str}
use vaid.Platform.{Platform, Instant}
use vaid.Conformance.{
  Checked, Check, passed, ◌>>=◌, ◌>>◌, require, or_block, or_panic, at_key, cases_at, none_embedded,
  unchecked_vector, missing_vector, not_json,
}
use vaid.Conformance.Pinned.{check_mint, check_mint_pop, check_attestation}
use vaid.Conformance.Walks.{check_chain, check_chain_expiry}
use vaid.Conformance.Scopes.{check_scope, check_scope_kinds, included}
use vaid.Conformance.Roundtrips.{check_roundtrip}
use vaid.Conformance.Verdicts.{check_verdict}

-- What the report says of a vector.
pub data Digest : Type 0 where
  digest : Text → Digest
  counted : ℕ → Digest
  no_digest : Digest

abbrev case_count : Json → ℕ
case_count v =
    length (cases_at v (text "cases"))
    + length (cases_at v (text "containment_cases"))
    + length (cases_at v (text "attenuation_cases"))
    + length (cases_at v (text "shape_cases"))

abbrev pub digest_of : Json → Digest
digest_of v = elim (as_str (at_key v (text "digest_sha256_hex"))) [
  | some d ↦ digest d
  | none ↦ if ltb 0 (case_count v) then counted (case_count v) else no_digest
]

-- A table of checks, and the embedded vectors; `report` is what a line says of a vector.
abbrev pub Checks : Type 0
Checks = List (Text × (Json → Check))

abbrev pub Vectors : Type 0
Vectors = List (Text × Text)

abbrev pub names {ℓ} : {A : Type ℓ} → List (Text × A) → List Text
names [] = []
names ((name, a) ∷ rest) = name ∷ names rest

-- `checked.sort()`: the order of texts, and of the lines by their names
abbrev pub text_leb : Text → Text → Bool
text_leb [] u = true
text_leb (a ∷ t) [] = false
text_leb (a ∷ t) (c ∷ u) = let rest = text_leb t u in if a == c then rest else ltb a c

abbrev pub Report : Type 0
Report = List (Text × Digest)

unfoldable pub insert_line : Text × Digest → Report → Report
insert_line line [] = line ∷ []
insert_line line (first ∷ rest) =
    let inserted = insert_line line rest in
    if text_leb line.0 first.0 then line ∷ first ∷ rest else first ∷ inserted

unfoldable pub sort_lines : Report → Report
sort_lines [] = []
sort_lines (line ∷ lines) = insert_line line (sort_lines lines)

module _ (parse_json : Text → Option Json) (report : Json → Digest) (checks : Checks) where
  -- One round of the loop; a name without a check is the panic of `expect`.
  unfoldable pub check_vector : Text × Text → Checked (Text × Digest)
  check_vector (name, json) = do
    value ← or_block (parse_json json) not_json
    check ← or_panic (lookup name checks)
    check value
    passed (name, report value)

  unfoldable pub check_vectors : Vectors → Checked (List (Text × Digest))
  check_vectors [] = passed []
  check_vectors (vector ∷ rest) = do
    line ← check_vector vector
    lines ← check_vectors rest
    passed (line ∷ lines)

  unfoldable pub run_with : Vectors → Checked (List (Text × Digest))
  run_with embedded = do
    require (not (is_empty embedded)) none_embedded
    require (included (names embedded) (names checks)) unchecked_vector
    require (included (names checks) (names embedded)) missing_vector
    lines ← check_vectors embedded
    passed (sort_lines lines)

module _ (p : Platform) (parse_json : Text → Option Json) (read_datetime : Text → Option Instant)
    (now : Instant) where
  -- `VECTOR_CHECKS`
  abbrev pub vector_checks : Checks
  vector_checks =
      (text "mint_v1.json", λ v. check_mint p v)
      ∷ (text "mint_pop_v1.json", λ v. check_mint_pop p v)
      ∷ (text "chain_v1.json", λ v. check_chain p v)
      ∷ (text "chain_expiry_v1.json", λ v. check_chain_expiry p v)
      ∷ (text "attestation_v1.json", λ v. check_attestation p read_datetime v)
      ∷ (text "scope_v1.json", λ v. check_scope v)
      ∷ (text "roundtrip_v1.json", λ v. check_roundtrip p v)
      ∷ (text "verdict_v1.json", λ v. check_verdict p parse_json now v)
      ∷ (text "scope_kinds_v1.json", λ v. check_scope_kinds parse_json v)
      ∷ []

  unfoldable pub run : Vectors → Checked (List (Text × Digest))
  run embedded = run_with parse_json (λ v. digest_of v) vector_checks embedded
