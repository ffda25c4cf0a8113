-- ===== src/Attenuation/Order.antt =====
-- Attenuation along a chain: each predicate is transitive, so that what holds of every hop holds
-- from the root to the leaf.
use vaid.Prelude.{
  ◌≡◌, ◌≤◌, refl, inl, inr, Option-cases, ◌↔◌, true, Option, none, some, List, [], ◌∷◌, arith, Text,
  all_iff, All-mono, All-of_In,
}
use vaid.Platform.{Platform, Instant}
use vaid.Scope.{ScopeBoundaryEntry, entry_claimed_resource, boundary_is_evaluable}
use vaid.Document.{parse_rfc3339}
use vaid.Attenuation.{
  claims_within, scope_attenuates_within, caps_attenuate_within, expiry_attenuates_within,
}
use vaid.Attenuation.Authority.{
  attenuates_tests, attenuates_of_tests, scope_attenuates_sound, caps_attenuate_within_iff,
  entry_within,
}

claims_above :
    (a b : List ScopeBoundaryEntry) (o : Option Text)
    → scope_attenuates_within a b ≡ true
    → claims_within b o ≡ true
    → claims_within a o ≡ true
claims_above a b none h k = cc
claims_above a b (some r) h k = scope_attenuates_sound a b r h k

-- Scope attenuation composes, the empty boundary included.
pub scope_attenuates_trans :
    (a b c : List ScopeBoundaryEntry)
    → scope_attenuates_within a b ≡ true
    → scope_attenuates_within b c ≡ true
    → scope_attenuates_within a c ≡ true
unfolding scope_attenuates_within
scope_attenuates_trans a b [] h k =
    let (a_read, b_read, a_empty, _) = attenuates_tests a b h in
    let (_, c_read, b_empty, _) = attenuates_tests b [] k in
    let e = a_empty (b_empty refl) in ground arith
scope_attenuates_trans a b (e ∷ es) h k =
    let (a_read, b_read, _, _) = attenuates_tests a b h in
    let (_, c_read, _, within) = attenuates_tests b (e ∷ es) k in
    attenuates_of_tests a e es a_read c_read (
      (all_iff _ (e ∷ es)).1
        (All-mono _ _ (e ∷ es) (λ f. claims_above a b (entry_claimed_resource f) h) within))

-- Every boundary that can be evaluated attenuates itself.
pub scope_attenuates_refl :
    (a : List ScopeBoundaryEntry)
    → boundary_is_evaluable a ≡ true
    → scope_attenuates_within a a ≡ true
unfolding scope_attenuates_within
scope_attenuates_refl [] h = ground arith
scope_attenuates_refl (e ∷ es) h = attenuates_of_tests (e ∷ es) e es h h (
    (all_iff _ (e ∷ es)).1 (
      All-of_In _ (e ∷ es)
        (λ f m. entry_within (e ∷ es) (e ∷ es) f h (λ r contained. contained) m)))

pub caps_attenuate_trans :
    (a b c : List Text)
    → caps_attenuate_within a b ≡ true
    → caps_attenuate_within b c ≡ true
    → caps_attenuate_within a c ≡ true
caps_attenuate_trans a b c h k =
    (caps_attenuate_within_iff a c).1
      (λ x m. (caps_attenuate_within_iff a b).0 h x ((caps_attenuate_within_iff b c).0 k x m))

pub expiry_attenuates_trans :
    (p : Platform) (a b c : Text)
    → expiry_attenuates_within p a (some b) ≡ true
    → expiry_attenuates_within p b (some c) ≡ true
    → expiry_attenuates_within p a (some c) ≡ true
unfolding expiry_attenuates_within
expiry_attenuates_trans p a b c h k = ground arith

expiry_tests :
    (p : Platform) (a b : Text)
    → expiry_attenuates_within p a (some b) ≡ true
    → (s : Instant) × (t : Instant) × (parse_rfc3339 p a ≡ some s)
      × (parse_rfc3339 p b ≡ some t)
      × (t ≤ s)
unfolding expiry_attenuates_within
expiry_tests p a b h = elim (Option-cases (parse_rfc3339 p a)) [
  | inl missing ↦ absurd (ground arith)
  | inr (s, read) ↦ elim (Option-cases (parse_rfc3339 p b)) [
    | inl missing ↦ absurd (ground arith)
    | inr (t, read') ↦ (s, t, read, read', ground arith)
  ]
]

-- An expiry passes if and only if both texts are readable and the child's instant is not later.
pub expiry_attenuates_iff :
    (p : Platform) (a b : Text)
    → (expiry_attenuates_within p a (some b) ≡ true) ↔ (
        (s : Instant) × (t : Instant) × (parse_rfc3339 p a ≡ some s)
        × (parse_rfc3339 p b ≡ some t)
        × (t ≤ s))
unfolding expiry_attenuates_within
expiry_attenuates_iff p a b =
    (expiry_tests p a b, λ h. let (s, t, read, read', le) = h in ground arith)
