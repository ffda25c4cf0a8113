-- ===== src/Conformance/Scopes.antt =====
-- The checks of scope matching: `check_scope` and `check_scope_kinds` of
-- crates/vaid-mint/src/bin/conformance.rs. The matcher of `check_scope` is an argument of its parts, so
-- that other matchers can be put in its place.
use vaid.Prelude.{
  Bool, true, false, ◌&&◌, not, Option, none, some, List, [], ◌∷◌, map, Text, text, text_eq,
  starts_with, is_empty, any, all, leb, ltb, if◌then◌else◌, text_key, contains,
}
use vaid.Json.{Json, as_str}
use vaid.Scope.{
  ScopeBoundaryEntry, entry_claimed_resource, boundary_is_evaluable, scope_contains,
  scope_separators, scope_kind_prefix,
}
use vaid.Attenuation.{
  AttenuationReason, attenuated, scope_escalation, unknown_scope_kind, scope_attenuation_reason,
  scope_attenuates_within,
}
use vaid.Conformance.{
  Checked, Check, passed, ◌>>=◌, ◌>>◌, require, or_block, check_each, at_key, text_at, same, count,
  cases_at, some_cases, as_array, as_bool, boundary_of, malformed_boundary, no_expected,
  containment_mismatch, one_sided, too_few_disagreements, wrong_separators, wrong_kinds,
  reasons_disagree, wrong_reason, no_boundary_json, not_json, too_few_controls,
}

abbrev pub Matcher : Type 0
Matcher = List ScopeBoundaryEntry → Text → Bool

pub record ScopeCase : Type 0 where
  pub boundary : List ScopeBoundaryEntry
  pub resource : Text
  pub expected : Bool

unfoldable pub scope_case : Json → Checked ScopeCase
scope_case case = do
  boundary ← or_block (boundary_of (at_key case (text "boundary"))) malformed_boundary
  expected ← or_block (as_bool (at_key case (text "expected"))) no_expected
  passed (record {
    boundary = boundary;
    resource = text_at case (text "resource");
    expected = expected;
  })

-- Bare prefix matching, the rule that the vector must tell from the matcher's.
abbrev pub bare_prefix : Matcher
bare_prefix boundary resource =
    any (λ e. elim (entry_claimed_resource e) [ none ↦ false | some p ↦ starts_with resource p ])
      boundary

abbrev pub disagrees : ScopeCase → Bool
disagrees c = not (is_empty c.boundary) && not (same (bare_prefix c.boundary c.resource) c.expected)

-- The loop over the cases, and what its counters count at its end.
unfoldable pub check_scope_cases : Matcher → List Json → Checked (List ScopeCase)
check_scope_cases matches [] = passed []
check_scope_cases matches (case ∷ rest) = do
  c ← scope_case case
  require (same (matches c.boundary c.resource) c.expected) containment_mismatch
  cases ← check_scope_cases matches rest
  passed (c ∷ cases)

abbrev pub texts_eq : List Text → List Text → Bool
texts_eq [] [] = true
texts_eq (x ∷ xs) (y ∷ ys) = text_eq x y && texts_eq xs ys
texts_eq _ _ = false

abbrev pub text_or_empty : Json → Text
text_or_empty j = elim (as_str j) [ none ↦ [] | some t ↦ t ]

unfoldable pub check_scope_with : Matcher → Json → Check
check_scope_with matches v = do
  given ← some_cases v (text "cases")
  cases ← check_scope_cases matches given
  require (ltb 0 (count (λ c. c.expected) cases) && ltb 0 (count (λ c. not c.expected) cases))
      one_sided
  require (leb 5 (count disagrees cases)) too_few_disagreements
  require
      (texts_eq (map (λ c. c ∷ []) scope_separators)
        (map text_or_empty (cases_at (at_key v (text "rule")) (text "separators"))))
      wrong_separators

unfoldable pub check_scope : Json → Check
check_scope v = check_scope_with scope_contains v

-- `attenuation_code`
abbrev pub attenuation_code : AttenuationReason → Text
attenuation_code attenuated = text "attenuated"
attenuation_code scope_escalation = text "scope_escalation"
attenuation_code unknown_scope_kind = text "unknown_scope_kind"

abbrev pub is_attenuated_reason : AttenuationReason → Bool
is_attenuated_reason attenuated = true
is_attenuated_reason _ = false

-- `RECOGNISED_SCOPE_KINDS`
abbrev recognised_scope_kinds : List Text
recognised_scope_kinds = scope_kind_prefix ∷ []

-- Equality of two `BTreeSet`s, by inclusion both ways
abbrev pub included : List Text → List Text → Bool
included xs ys = all (λ x. contains x ys) xs

abbrev pub same_set : List Text → List Text → Bool
same_set xs ys = included xs ys && included ys xs

-- `filter_map(|k| k.as_str())`
abbrev texts_of : List Json → List Text
texts_of [] = []
texts_of (j ∷ js) = let rest = texts_of js in elim (as_str j) [ none ↦ rest | some t ↦ t ∷ rest ]

-- The three surfaces of `check_scope_kinds`
abbrev containment_reason : List ScopeBoundaryEntry → Bool → Text
containment_reason boundary got =
    if not (boundary_is_evaluable boundary)
    then text "unknown_scope_kind"
    else if got
    then text "contained"
    else text "not_contained"

unfoldable pub check_containment_case : Json → Check
check_containment_case case = do
  c ← scope_case case
  let got = scope_contains c.boundary c.resource
  require (same got c.expected) containment_mismatch
  require (text_eq (containment_reason c.boundary got) (text_at case (text "expected_reason")))
      wrong_reason

-- The reason and the Boolean of an attenuation case, which must not disagree
unfoldable pub attenuation_answer : Json → Checked (AttenuationReason × Bool)
attenuation_answer case = do
  parent ← or_block (boundary_of (at_key case (text "parent_scope"))) malformed_boundary
  child ← or_block (boundary_of (at_key case (text "child_scope"))) malformed_boundary
  let reason = scope_attenuation_reason parent child
  let attenuates = scope_attenuates_within parent child
  require (same attenuates (is_attenuated_reason reason)) reasons_disagree
  passed (reason, attenuates)

abbrev or_false : Option Bool → Bool
or_false none = false
or_false (some b) = b

unfoldable pub check_attenuation_case : Json → Check
check_attenuation_case case = do
  answer ← attenuation_answer case
  require
      (same answer.1 (or_false (as_bool (at_key case (text "expected_valid"))))
        && text_eq (attenuation_code answer.0) (text_at case (text "expected_reason")))
      wrong_reason

abbrev is_parsed {ℓ} : {A : Type ℓ} → Option A → Bool
is_parsed none = false
is_parsed (some a) = true

module _ (parse_json : Text → Option Json) where
  -- Whether a case of the shape gate parsed
  unfoldable pub check_shape_case : Json → Checked Bool
  check_shape_case case = do
    given ← or_block (as_str (at_key case (text "boundary_json"))) no_boundary_json
    value ← or_block (parse_json given) not_json
    let parsed = is_parsed (boundary_of value)
    require
        (text_eq (if parsed then text "parsed" else text "unparseable")
          (text_at case (text "expected_reason")))
        wrong_reason
    passed parsed

  unfoldable pub check_shape_cases : List Json → Checked (List Bool)
  check_shape_cases [] = passed []
  check_shape_cases (case ∷ rest) = do
    parsed ← check_shape_case case
    others ← check_shape_cases rest
    passed (parsed ∷ others)

  unfoldable pub check_scope_kinds : Json → Check
  check_scope_kinds v = do
    declared ← or_block (as_array (at_key (at_key v (text "rule")) (text "kinds"))) wrong_kinds
    require (same_set (texts_of declared) recognised_scope_kinds) wrong_kinds
    containment ← some_cases v (text "containment_cases")
    check_each check_containment_case containment
    attenuation ← some_cases v (text "attenuation_cases")
    check_each check_attenuation_case attenuation
    shapes ← some_cases v (text "shape_cases")
    parsed ← check_shape_cases shapes
    require (leb 2 (count (λ b. b) parsed)) too_few_controls
