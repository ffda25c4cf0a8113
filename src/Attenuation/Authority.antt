-- ===== src/Attenuation/Authority.antt =====
-- What attenuation means for authority: the tests decide inclusion of what the boundaries grant.
use vaid.Prelude.{
  ◌≡◌, ◌↔◌, true, some, List, [], ◌∷◌, arith, Text, text_eq_iff, all, all_iff, any, All, In,
  is_empty, All-of_In, any_of_In, all_at,
}
use vaid.Scope.{
  ScopeBoundaryEntry, prefix_contains, entry_contains, entry_claimed_resource, entry_is_evaluable,
  boundary_is_evaluable, scope_contains,
}
use vaid.Scope.Prefix.{prefix_contains_refl, prefix_contains_trans}
use vaid.Scope.Boundary.{evaluable_claim, holds, scope_contains_lem}
use vaid.Document.{caps_contain}
use vaid.Attenuation.{claims_within, scope_attenuates_within, caps_attenuate_within}

-- What the attenuation test has tested, when it passes.
pub attenuates_tests :
    (parent child : List ScopeBoundaryEntry)
    → scope_attenuates_within parent child ≡ true
    → (boundary_is_evaluable parent ≡ true)
      × (boundary_is_evaluable child ≡ true)
      × (is_empty child ≡ true → is_empty parent ≡ true)
      × All (λ e. claims_within parent (entry_claimed_resource e) ≡ true) child
unfolding scope_attenuates_within
attenuates_tests parent [] h = ground arith
attenuates_tests parent (e ∷ es) h =
    (ground arith, ground arith, λ h. ground arith, (all_iff _ (e ∷ es)).0 (ground arith))

-- A prefix below what an entry contains is contained by that entry.
entry_below :
    (e : ScopeBoundaryEntry) (p r : Text)
    → entry_is_evaluable e ≡ true
    → prefix_contains p r ≡ true
    → holds (entry_contains e p) ≡ true
    → holds (entry_contains e r) ≡ true
entry_below e p r readable below h =
    let (q, claimed, contains) = evaluable_claim e readable in
    let above : prefix_contains q p ≡ true = ground (arith, contains p) in
    ground (arith, contains r, prefix_contains_trans q p r above below)

any_below :
    (boundary : List ScopeBoundaryEntry) (p r : Text)
    → boundary_is_evaluable boundary ≡ true
    → prefix_contains p r ≡ true
    → any (λ e. holds (entry_contains e p)) boundary ≡ true
    → any (λ e. holds (entry_contains e r)) boundary ≡ true
unfolding boundary_is_evaluable
any_below [] p r readable below h = h
any_below (e ∷ es) p r readable below h = ground (arith, entry_below e p r, any_below es p r)

-- A boundary that contains a text contains what lies below it.
pub scope_contains_below :
    (boundary : List ScopeBoundaryEntry) (p r : Text)
    → prefix_contains p r ≡ true
    → scope_contains boundary p ≡ true
    → scope_contains boundary r ≡ true
scope_contains_below boundary p r below h =
    ground
      (arith, scope_contains_lem boundary p, scope_contains_lem boundary r, any_below boundary p r)

claim_grants :
    (parent : List ScopeBoundaryEntry) (e : ScopeBoundaryEntry) (r : Text)
    → entry_is_evaluable e ≡ true
    → claims_within parent (entry_claimed_resource e) ≡ true
    → holds (entry_contains e r) ≡ true
    → scope_contains parent r ≡ true
claim_grants parent e r readable within h =
    let (p, claimed, contains) = evaluable_claim e readable in
    let below : prefix_contains p r ≡ true = ground (arith, contains r) in
    let above : scope_contains parent p ≡ true = rw claimed at within in
    scope_contains_below parent p r below above

granted :
    (parent child : List ScopeBoundaryEntry) (r : Text)
    → boundary_is_evaluable child ≡ true
    → All (λ e. claims_within parent (entry_claimed_resource e) ≡ true) child
    → any (λ e. holds (entry_contains e r)) child ≡ true
    → scope_contains parent r ≡ true
unfolding boundary_is_evaluable
granted parent [] r readable within h = cc
granted parent (e ∷ es) r readable (now, later) h =
    ground (arith, claim_grants parent e r, granted parent es r)

-- A boundary that passes the attenuation test grants no resource that the parent's does not.
pub scope_attenuates_sound :
    (parent child : List ScopeBoundaryEntry) (r : Text)
    → scope_attenuates_within parent child ≡ true
    → scope_contains child r ≡ true
    → scope_contains parent r ≡ true
scope_attenuates_sound parent child r h contained =
    let (parent_read, child_read, empty, within) = attenuates_tests parent child h in
    ground (
      arith,
      scope_contains_lem parent r,
      scope_contains_lem child r,
      granted parent child r child_read within,
    )

-- An evaluable entry contains the resource that it claims.
entry_contains_claim :
    (e : ScopeBoundaryEntry) (p : Text)
    → entry_is_evaluable e ≡ true
    → entry_claimed_resource e ≡ some p
    → holds (entry_contains e p) ≡ true
entry_contains_claim e p readable claimed =
    let (q, claimed', contains) = evaluable_claim e readable in
    ground (arith, contains p, prefix_contains_refl p)

pub entry_within :
    (parent child : List ScopeBoundaryEntry) (e : ScopeBoundaryEntry)
    → boundary_is_evaluable child ≡ true
    → ((r : Text) → scope_contains child r ≡ true → scope_contains parent r ≡ true)
    → In e child
    → claims_within parent (entry_claimed_resource e) ≡ true
unfolding boundary_is_evaluable
entry_within parent child e readable includes m =
    let e_readable = all_at _ e child readable m in
    let (p, claimed, contains) = evaluable_claim e e_readable in
    let own =
      any_of_In (λ f. holds (entry_contains f p)) e child m
        (entry_contains_claim e p e_readable claimed) in
    rw claimed (includes p (ground (arith, scope_contains_lem child p)))

pub attenuates_of_tests :
    (parent : List ScopeBoundaryEntry) (e : ScopeBoundaryEntry) (es : List ScopeBoundaryEntry)
    → boundary_is_evaluable parent ≡ true
    → boundary_is_evaluable (e ∷ es) ≡ true
    → all (λ c. claims_within parent (entry_claimed_resource c)) (e ∷ es) ≡ true
    → scope_attenuates_within parent (e ∷ es) ≡ true
unfolding scope_attenuates_within
attenuates_of_tests parent e es h k within = ground arith

-- For boundaries that this version can evaluate, and a child that is not the empty boundary, the
-- test is exact: it passes if and only if the child grants no resource beyond the parent's.
pub scope_attenuates_within_iff :
    (parent : List ScopeBoundaryEntry) (e : ScopeBoundaryEntry) (es : List ScopeBoundaryEntry)
    → boundary_is_evaluable parent ≡ true
    → boundary_is_evaluable (e ∷ es) ≡ true
    → (scope_attenuates_within parent (e ∷ es) ≡ true)
      ↔ ((r : Text) → scope_contains (e ∷ es) r ≡ true → scope_contains parent r ≡ true)
scope_attenuates_within_iff parent e es h k = (
  (λ passed r. scope_attenuates_sound parent (e ∷ es) r passed),
  (λ includes. attenuates_of_tests parent e es h k (
      (all_iff _ (e ∷ es)).1
        (All-of_In _ (e ∷ es) (λ c m. entry_within parent (e ∷ es) c k includes m)))),
)

pub caps_contain_iff : (caps : List Text) (c : Text) → (caps_contain caps c ≡ true) ↔ In c caps
unfolding caps_contain
caps_contain_iff [] c = ground arith
caps_contain_iff (x ∷ xs) c = ground (arith, text_eq_iff x c, caps_contain_iff xs c)

-- The capability test is inclusion of sets: every capability of the child is one of the parent's.
pub caps_attenuate_within_iff :
    (parent child : List Text)
    → (caps_attenuate_within parent child ≡ true) ↔ ((c : Text) → In c child → In c parent)
unfolding caps_attenuate_within
caps_attenuate_within_iff parent child = (
  (λ h c m. (caps_contain_iff parent c).0 (all_at _ c child h m)),
  (λ includes.
      (all_iff _ child).1
        (All-of_In _ child (λ c m. (caps_contain_iff parent c).1 (includes c m)))),
)
