-- ===== src/Revocation/Descent.antt =====
-- The ancestry of a child beside that of its parent.
use mathlib.Core.Path.{subst}
use vaid.Prelude.{
  ℕ, zero, suc, ◌+◌, ◌≡◌, ◌≢◌, refl, sym, ap, ◌∙◌, inl, inr, ◌||◌, Option, none, some, List, [],
  ◌∷◌, ◌++◌, arith, length, leb, contains, Bool-cases,
}
use vaid.Platform.{VaidId}
use vaid.Document.{Vaid, vaid_id, parent_vaid}
use vaid.Revocation.{
  vaid_id_eq, max_lineage_depth, LineageResolver, complete, climb, lineage_fuel, assemble_lineage,
}
use vaid.Revocation.Ancestry.{
  resolution, Resolution-cases, some_complete, assembled, assemble_lineage_iff,
}

-- Two walks that differ in one earlier entry climb the same way.
climb-snoc :
    (f g : ℕ) (resolve : LineageResolver) (chain : List VaidId) (c : VaidId) (next : Option VaidId)
    → (ids ids' : List VaidId) → climb f resolve chain next ≡ some (complete ids)
    → climb g resolve (chain ++ c ∷ []) next ≡ some (complete ids')
    → ids' ≡ ids ++ c ∷ []
unfolding climb
climb-snoc zero g resolve chain c next ids ids' h k = cc
climb-snoc (suc f) zero resolve chain c next ids ids' h k = cc
climb-snoc (suc f) (suc g) resolve chain c none ids ids' h k =
    sym (some_complete k) ∙ ap (λ xs. xs ++ c ∷ []) (some_complete h)
climb-snoc (suc f) (suc g) resolve chain c (some pid) ids ids' h k =
    elim (Bool-cases (contains pid chain || leb max_lineage_depth (length chain))) [
      | inl full ↦ absurd (ground arith)
      | inr room ↦
          elim (Bool-cases
            (contains pid (chain ++ c ∷ []) || leb max_lineage_depth (length (chain ++ c ∷ [])))) [
              | inl full' ↦ absurd (ground arith)
              | inr room' ↦ elim (Resolution-cases (resolve pid)) [
                | inl top ↦
                    climb-snoc f g resolve (pid ∷ chain) c none ids ids' (rw (room, top) at h)
                      (rw (room', top) at k)
                | inr (inl (up, above)) ↦
                    climb-snoc f g resolve (pid ∷ chain) c (some up) ids ids'
                      (rw (room, above) at h) (rw (room', above) at k)
                | inr (inr lost) ↦ absurd (ground arith)
              ]
            ]
    ]

length-snoc : (ids : List VaidId) (c : VaidId) → length (ids ++ c ∷ []) ≡ length ids + 1
length-snoc [] c = refl
length-snoc (x ∷ ids) c = ground (arith, length-snoc ids c)

first_step :
    (g : ℕ) (resolve : LineageResolver) (c u : VaidId) (above : Option VaidId) (ids : List VaidId)
    → resolve u ≡ resolution above
    → climb (suc g) resolve (c ∷ []) (some u) ≡ some (complete ids)
    → climb g resolve (u ∷ c ∷ []) above ≡ some (complete ids)
unfolding climb
first_step g resolve c u none ids known h =
    elim (Bool-cases
      (contains u (c ∷ []) || leb max_lineage_depth (length {A = VaidId} (c ∷ [])))) [
        | inl full ↦ absurd (ground arith)
        | inr room ↦ rw (room, known) at h
      ]
first_step g resolve c u (some up) ids known h =
    elim (Bool-cases
      (contains u (c ∷ []) || leb max_lineage_depth (length {A = VaidId} (c ∷ [])))) [
        | inl full ↦ absurd (ground arith)
        | inr room ↦ rw (room, known) at h
      ]

-- Where the resolver knows the parent's own parent as its document states it, the ancestry of a
-- child that names the parent is the parent's, with the child at the end.
pub assemble_lineage-child :
    (resolve : LineageResolver) (upper child : Vaid) (ids ids' : List VaidId)
    → parent_vaid child ≡ some (vaid_id upper)
    → resolve (vaid_id upper) ≡ resolution (parent_vaid upper)
    → assemble_lineage upper resolve ≡ complete ids
    → assemble_lineage child resolve ≡ complete ids'
    → ids' ≡ ids ++ vaid_id child ∷ []
unfolding assemble_lineage
assemble_lineage-child resolve upper child ids ids' names known h k =
    climb-snoc lineage_fuel 1023 resolve (vaid_id upper ∷ []) (vaid_id child) (parent_vaid upper)
      ids ids' (assembled _ ids h)
      (first_step 1023 resolve (vaid_id child) (vaid_id upper) (parent_vaid upper) ids' known (
        subst (λ o. climb lineage_fuel resolve (vaid_id child ∷ []) o ≡ some (complete ids')) names
          (assembled _ ids' k)))

-- A child whose parent's ancestry has 1024 entries, the most that a walk returns, has no ancestry
-- that a walk returns, where the resolver knows the parent's own parent.
pub assemble_lineage-too_deep :
    (resolve : LineageResolver) (upper child : Vaid) (ids ids' : List VaidId)
    → parent_vaid child ≡ some (vaid_id upper)
    → resolve (vaid_id upper) ≡ resolution (parent_vaid upper)
    → assemble_lineage upper resolve ≡ complete ids
    → length ids ≡ 1024
    → assemble_lineage child resolve ≢ complete ids'
assemble_lineage-too_deep resolve upper child ids ids' names known h full k =
    let longer = assemble_lineage-child resolve upper child ids ids' names known h k in
    let bounded = ((assemble_lineage_iff child resolve ids').0 k).bounded in
    absurd (ground (arith, ap (λ xs. length xs) longer, length-snoc ids (vaid_id child)))
