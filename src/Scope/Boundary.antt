-- ===== src/Scope/Boundary.antt =====
-- `scope_contains` over a whole boundary: a union of entries, which one unreadable entry voids.
use vaid.Prelude.{
  ◌≡◌, inl, inr, Bool, true, false, ◌||◌, Option, none, some, List, [], ◌∷◌, arith, Text, text_eq,
  any, ◌≢◌, ◌&&◌, Bool-cases, Option-cases, is_empty,
}
use vaid.Json.{as_str}
use vaid.Scope.{
  ScopeBoundaryEntry, prefix_contains, entry_contains, entry_claimed_resource, entry_is_evaluable,
  boundary_is_evaluable, scan, scope_contains, scope_kind_prefix,
}

abbrev pub holds : Option Bool → Bool
holds (some true) = true
holds _ = false

-- An evaluable entry claims a text, and contains what that text contains as a prefix.
pub evaluable_claim :
    (entry : ScopeBoundaryEntry)
    → entry_is_evaluable entry ≡ true
    → (p : Text) × (entry_claimed_resource entry ≡ some p)
      × ((r : Text) → entry_contains entry r ≡ some (prefix_contains p r))
unfolding entry_is_evaluable entry_contains entry_claimed_resource
evaluable_claim entry h = elim (Bool-cases (text_eq entry.kind scope_kind_prefix)) [
  | inl known ↦ elim (Option-cases (as_str entry.value)) [
    | inl missing ↦ absurd (ground arith)
    | inr (p, found) ↦ (p, ground arith, λ r. ground arith)
  ]
  | inr unknown ↦ absurd (ground arith)
]

unevaluable :
    (entry : ScopeBoundaryEntry) (r : Text)
    → entry_is_evaluable entry ≡ false
    → entry_contains entry r ≡ none
unfolding entry_is_evaluable entry_contains
unevaluable entry r h = ground arith

evaluable :
    (entry : ScopeBoundaryEntry) (r : Text)
    → entry_is_evaluable entry ≡ true
    → entry_contains entry r ≢ none
evaluable entry r h =
    let (p, claimed, contains) = evaluable_claim entry h in ground (arith, contains r)

scan_evaluable :
    (boundary : List ScopeBoundaryEntry) (r : Text) (contained : Bool)
    → boundary_is_evaluable boundary ≡ true
    → scan boundary r contained ≡ some (contained || any (λ e. holds (entry_contains e r)) boundary)
unfolding boundary_is_evaluable scan
scan_evaluable [] r contained h = ground arith
scan_evaluable (e ∷ es) r contained h =
    ground (arith, evaluable e r, scan_evaluable es r true, scan_evaluable es r contained)

scan_refuses :
    (boundary : List ScopeBoundaryEntry) (r : Text) (contained : Bool)
    → boundary_is_evaluable boundary ≡ false
    → scan boundary r contained ≡ none
unfolding boundary_is_evaluable scan
scan_refuses [] r contained h = cc
scan_refuses (e ∷ es) r contained h =
    ground (arith, unevaluable e r, scan_refuses es r true, scan_refuses es r contained)

-- The matcher is a union of its entries, unless one of them cannot be read: then it refuses all.
pub scope_contains_lem :
    (boundary : List ScopeBoundaryEntry) (r : Text)
    → scope_contains boundary r ≡ (
        boundary_is_evaluable boundary
        && (is_empty boundary || any (λ e. holds (entry_contains e r)) boundary))
unfolding scope_contains
scope_contains_lem boundary r =
    ground (arith, scan_evaluable boundary r false, scan_refuses boundary r false)
