-- ===== src/Examples/Vectors.antt =====
-- Small conformance vectors that pass, over the concrete platform.
use vaid.Prelude.{
  ◌≡◌, ◌≢◌, refl, Bool, true, false, List, [], ◌∷◌, map, Text, text, text_eq, is_empty,
}
use vaid.Json.{Json, boolean, string, array, object, Members, end, member, items_of}
use vaid.Scope.{
  ScopeBoundaryEntry, prefix_contains, entry_contains, entry_claimed_resource, scan, scope_contains,
  validate_scope_entry, new_entry,
}
use vaid.Document.Reading.{read_raw, read_entry}
use vaid.Verify.{VaidVerdict, all_verdicts, verdict_code}
use vaid.Conformance.{
  passed, ◌>>=◌, require, or_block, or_panic, non_empty, unhex, boundary_of, text_at,
}
use vaid.Conformance.Scopes.{bare_prefix, scope_case, check_scope_cases, check_scope_with}
use vaid.Conformance.Teeth.{check_scope_with-teeth}
use vaid.Conformance.Verdicts.{
  Implementation, answer_of, check_verdict_case, check_verdict_cases, check_verdict_with,
}
use vaid.Conformance.Refusals.{Control, Gives, check_verdict_with-teeth}

abbrev pub fields : List (Text × Json) → Members
fields [] = end
fields ((k, j) ∷ rest) = member k j (fields rest)

abbrev pub listed : List Json → Json
listed js = array (items_of (λ j. j) js)

-- A boundary of one prefix.
abbrev under : Text → Json
under prefix = listed (
    object (fields ((text "kind", string (text "prefix")) ∷ (text "value", string prefix) ∷ []))
    ∷ [])

abbrev scope_example : Text → Text → Bool → Json
scope_example prefix resource expected = object (
    fields (
      (text "boundary", under prefix)
      ∷ (text "resource", string resource)
      ∷ (text "expected", boolean expected)
      ∷ []))

abbrev scope_vector : Json
scope_vector = object (
    fields (
      (
        text "cases",
        listed (
            scope_example (text "a") (text "a.b") true
            ∷ scope_example (text "a") (text "ab") false
            ∷ scope_example (text "a") (text "ac") false
            ∷ scope_example (text "a") (text "ad") false
            ∷ scope_example (text "b") (text "ba") false
            ∷ scope_example (text "b") (text "bc") false
            ∷ []),
      )
      ∷ (
        text "rule",
        object (
            fields ((text "separators", listed (string (text "/") ∷ string (text ".") ∷ [])) ∷ [])),
      )
      ∷ []))

scope_vector_passes : check_scope_with scope_contains scope_vector ≡ passed tt
unfolding check_scope_with check_scope_cases scope_case boundary_of scope_contains scan
    entry_contains entry_claimed_resource prefix_contains read_entry read_raw new_entry
    validate_scope_entry ◌>>=◌ require or_block non_empty
scope_vector_passes = refl

check_scope_with-teeth_example :
    ((boundary : List ScopeBoundaryEntry) × (resource : Text) × (scope_contains boundary resource
        ≡ true))
    × ((boundary : List ScopeBoundaryEntry) × (resource : Text) × (scope_contains boundary resource
          ≡ false))
    × ((boundary : List ScopeBoundaryEntry) × (resource : Text) × (is_empty boundary ≡ false)
        × (scope_contains boundary resource ≢ bare_prefix boundary resource))
check_scope_with-teeth_example =
    check_scope_with-teeth (λ b r. scope_contains b r) scope_vector scope_vector_passes

-- An implementation that reads its answer off the case.
abbrev echo : Implementation
echo = record {
  standing = λ key document revocation. (document, text_eq document (text "valid"));
  attenuation = λ case. passed (
    text_at case (text "child_scope"),
    text_eq (text_at case (text "child_scope")) (text "attenuated"),
  );
}

abbrev verdict_example : Text → Text → Text → Bool → Json
verdict_example surface member_name reason valid = object (
    fields (
      (text "surface", string surface)
      ∷ (member_name, string reason)
      ∷ (text "revocation", string (text "revoked"))
      ∷ (text "expected_reason", string reason)
      ∷ (text "expected_valid", boolean valid)
      ∷ []))

abbrev standing_example : VaidVerdict → Json
standing_example r =
    verdict_example (text "standing") (text "document_json") (verdict_code r)
      (text_eq (verdict_code r) (text "valid"))

abbrev attenuation_example : Text → Bool → Json
attenuation_example reason valid =
    verdict_example (text "attenuation") (text "child_scope") reason valid

abbrev verdict_vector : Json
verdict_vector = object (
    fields (
      (
        text "cases",
        listed (
            attenuation_example (text "attenuated") true
            ∷ attenuation_example (text "scope_escalation") false
            ∷ map (λ r. standing_example r) all_verdicts),
      )
      ∷ (
        text "reasons",
        object (
            fields (
              (text "standing", listed (map (λ r. string (verdict_code r)) all_verdicts))
              ∷ (text "attenuation", listed (string (text "attenuated") ∷ []))
              ∷ [])),
      )
      ∷ []))

verdict_vector_passes : check_verdict_with echo verdict_vector ≡ passed tt
unfolding check_verdict_with check_verdict_cases check_verdict_case answer_of verdict_code unhex
    ◌>>=◌ require or_block or_panic non_empty
verdict_vector_passes = refl

check_verdict_with-teeth_example :
    ((standing valid : Bool) → Control echo standing valid)
    × ((r : VaidVerdict) → Gives echo (verdict_code r))
check_verdict_with-teeth_example =
    check_verdict_with-teeth echo verdict_vector verdict_vector_passes
