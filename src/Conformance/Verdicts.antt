-- ===== src/Conformance/Verdicts.antt =====
-- The check of refusals: `check_verdict` of crates/vaid-mint/src/bin/conformance.rs. What it asks of the
-- library is an argument, so that other implementations can be put in the library's place.
use vaid.Prelude.{
  Bool, true, false, ◌&&◌, Option, none, some, List, [], ◌∷◌, ◌++◌, map, Bytes, Text, text, text_eq,
  ltb, leb, length, if◌then◌else◌, text_key, add,
}
use vaid.Json.{Json, as_str}
use vaid.Platform.{Platform, Instant}
use vaid.Document.{Vaid}
use vaid.Document.Reading.{read_vaid}
use vaid.Revocation.{RevocationStatus, not_revoked, revoked, unavailable}
use vaid.Verify.{all_verdicts, is_valid, verdict_code, verify_vaid_standing_from_json}
use vaid.Conformance.{
  Checked, Check, passed, blocked, ◌>>=◌, ◌>>◌, require, or_block, or_panic, at_key, text_at, same,
  count, cases_at, some_cases, as_bool, unhex, wrong_reason, no_expected, no_document,
  unknown_revocation, unknown_surface, one_sided, no_positive_control, same_reason,
  wrong_vocabulary, unexercised,
}
use vaid.Conformance.Scopes.{attenuation_answer, attenuation_code, same_set, included}

-- What an implementation answers: a reason, and whether it accepts.
pub record Implementation : Type 0 where
  pub standing : Bytes → Text → RevocationStatus → Text × Bool
  pub attenuation : Json → Checked (Text × Bool)

-- The three names of a revocation state
abbrev revocation_of : Json → Option RevocationStatus
revocation_of j = elim (as_str j) [
  | none ↦ none
  | some t ↦
      if text_eq t (text "not_revoked")
      then some not_revoked
      else if text_eq t (text "revoked")
      then some revoked
      else if text_eq t (text "unavailable")
      then some unavailable
      else none
]

abbrev pub is_standing : Json → Bool
is_standing case = text_eq (text_at case (text "surface")) (text "standing")

unfoldable pub answer_of : Implementation → Bytes → Json → Checked (Text × Bool)
answer_of impl key case =
    if is_standing case
    then (do
      document ← or_block (as_str (at_key case (text "document_json"))) no_document
      revocation ← or_block (revocation_of (at_key case (text "revocation"))) unknown_revocation
      passed (impl.standing key document revocation))
    else if text_eq (text_at case (text "surface")) (text "attenuation")
    then impl.attenuation case
    else blocked unknown_surface

-- A case that has passed, as the counters and the sets see it.
pub record VerdictCase : Type 0 where
  pub standing : Bool
  pub valid : Bool
  pub reason : Text

unfoldable pub check_verdict_case : Implementation → Bytes → Json → Checked VerdictCase
check_verdict_case impl key case = do
  expected_reason ← or_block (as_str (at_key case (text "expected_reason"))) wrong_reason
  expected_valid ← or_block (as_bool (at_key case (text "expected_valid"))) no_expected
  answer ← answer_of impl key case
  require (text_eq answer.0 expected_reason) wrong_reason
  require (same answer.1 expected_valid) wrong_reason
  passed (record { standing = is_standing case; valid = expected_valid; reason = expected_reason })

unfoldable pub check_verdict_cases : Implementation → Bytes → List Json → Checked (List VerdictCase)
check_verdict_cases impl key [] = passed []
check_verdict_cases impl key (case ∷ rest) = do
  c ← check_verdict_case impl key case
  cases ← check_verdict_cases impl key rest
  passed (c ∷ cases)

-- The sets that the loop builds
abbrev pub refusal_reasons : List VerdictCase → List Text
refusal_reasons [] = []
refusal_reasons (c ∷ cs) =
    let rest = refusal_reasons cs in if c.valid then rest else add c.reason rest

abbrev exercised : List VerdictCase → List Text
exercised cs = map (λ c. c.reason) cs

abbrev pub some_case : Bool → Bool → List VerdictCase → Bool
some_case standing valid cs = ltb 0 (count (λ c. same c.standing standing && same c.valid valid) cs)

abbrev texts_or_empty : List Json → List Text
texts_or_empty js = map (λ j. elim (as_str j) [ none ↦ [] | some t ↦ t ]) js

unfoldable pub check_verdict_with : Implementation → Json → Check
check_verdict_with impl v = do
  given ← some_cases v (text "cases")
  key ← or_panic (unhex (text_at (at_key v (text "ed25519")) (text "kernel_public_key_hex")))
  cases ← check_verdict_cases impl key given
  require (some_case true true cases && some_case false true cases) no_positive_control
  require (some_case true false cases && some_case false false cases) one_sided
  require (leb 2 (length (refusal_reasons cases))) same_reason
  let reasons = at_key v (text "reasons")
  let declared = texts_or_empty (cases_at reasons (text "standing"))
  require (same_set declared (map (λ r. verdict_code r) all_verdicts)) wrong_vocabulary
  require
      (included (declared ++ texts_or_empty (cases_at reasons (text "attenuation")))
        (exercised cases))
      unexercised

-- What the library answers to an attenuation case.
unfoldable pub library_attenuation : Json → Checked (Text × Bool)
library_attenuation case = do
  answer ← attenuation_answer case
  passed (attenuation_code answer.0, answer.1)

module _ (p : Platform) (parse_json : Text → Option Json) (now : Instant) where
  -- `serde_json::from_str::<Vaid>`, through the value that the text parses to
  abbrev parse_vaid : Text → Option Vaid
  parse_vaid t = elim (parse_json t) [ none ↦ none | some j ↦ read_vaid p j ]

  abbrev pub library : Implementation
  library = record {
    standing = λ key document revocation.
        let verdict = verify_vaid_standing_from_json p parse_vaid key document revocation now in
        (verdict_code verdict, is_valid verdict);
    attenuation = λ case. library_attenuation case;
  }

  unfoldable pub check_verdict : Json → Check
  check_verdict v = check_verdict_with library v
