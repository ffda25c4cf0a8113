-- ===== src/Examples/Scopes.antt =====
-- The tests of scopes, trust domains and capabilities on concrete texts.
use vaid.Prelude.{◌≡◌, refl, ◌↔◌, true, false, List, [], ◌∷◌, Text, text}
use vaid.TrustDomain.{split, label_ok, labels_ok, is_valid_trust_domain}
use vaid.TrustDomain.Grammar.{IsTrustDomain, is_valid_trust_domain_iff}
use vaid.Scope.{
  ScopeBoundaryEntry, prefix_entry, prefix_contains, entry_contains, entry_claimed_resource,
  entry_is_evaluable, boundary_is_evaluable, scan, scope_contains,
}
use vaid.Scope.Prefix.{Contains, prefix_contains_iff}
use vaid.Attenuation.{scope_attenuation_reason, scope_attenuates_within}
use vaid.Attenuation.Authority.{scope_attenuates_sound, scope_attenuates_within_iff}
use vaid.Attenuation.Order.{scope_attenuates_trans}

abbrev wide : List ScopeBoundaryEntry
wide = prefix_entry (text "data") ∷ []

abbrev middle : List ScopeBoundaryEntry
middle = prefix_entry (text "data.a") ∷ prefix_entry (text "data/b") ∷ []

abbrev narrow : List ScopeBoundaryEntry
narrow = prefix_entry (text "data.a.x") ∷ []

wide_over_middle : scope_attenuates_within wide middle ≡ true
unfolding scope_attenuates_within scope_attenuation_reason boundary_is_evaluable entry_is_evaluable
    entry_claimed_resource scope_contains scan entry_contains prefix_contains
wide_over_middle = refl

middle_over_narrow : scope_attenuates_within middle narrow ≡ true
unfolding scope_attenuates_within scope_attenuation_reason boundary_is_evaluable entry_is_evaluable
    entry_claimed_resource scope_contains scan entry_contains prefix_contains
middle_over_narrow = refl

narrow_over_middle : scope_attenuates_within narrow middle ≡ false
unfolding scope_attenuates_within scope_attenuation_reason boundary_is_evaluable entry_is_evaluable
    entry_claimed_resource scope_contains scan entry_contains prefix_contains
narrow_over_middle = refl

resource_granted : scope_contains middle (text "data/b/c") ≡ true
unfolding scope_contains scan entry_contains prefix_contains
resource_granted = refl

evaluable : boundary_is_evaluable middle ≡ true
unfolding boundary_is_evaluable entry_is_evaluable
evaluable = refl

evaluable_wide : boundary_is_evaluable wide ≡ true
unfolding boundary_is_evaluable entry_is_evaluable
evaluable_wide = refl

scope_attenuates_sound_example : scope_contains wide (text "data/b/c") ≡ true
scope_attenuates_sound_example =
    scope_attenuates_sound wide middle (text "data/b/c") wide_over_middle resource_granted

scope_attenuates_trans_example : scope_attenuates_within wide narrow ≡ true
scope_attenuates_trans_example =
    scope_attenuates_trans wide middle narrow wide_over_middle middle_over_narrow

scope_attenuates_within_iff_example :
    (scope_attenuates_within wide middle ≡ true)
    ↔ ((r : Text) → scope_contains middle r ≡ true → scope_contains wide r ≡ true)
scope_attenuates_within_iff_example =
    scope_attenuates_within_iff wide (prefix_entry (text "data.a"))
      (prefix_entry (text "data/b") ∷ []) evaluable_wide evaluable

prefix_contains_iff_example :
    (prefix_contains (text "data") (text "database") ≡ true)
    ↔ Contains (text "data") (text "database")
prefix_contains_iff_example = prefix_contains_iff (text "data") (text "database")

is_valid_trust_domain_iff_example :
    (is_valid_trust_domain (text "a-1.io") ≡ true) ↔ IsTrustDomain (text "a-1.io")
is_valid_trust_domain_iff_example = is_valid_trust_domain_iff (text "a-1.io")

domain_accepted : is_valid_trust_domain (text "a-1.io") ≡ true
unfolding is_valid_trust_domain labels_ok label_ok split
domain_accepted = refl
