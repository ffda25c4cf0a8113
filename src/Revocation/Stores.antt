-- ===== src/Revocation/Stores.antt =====
-- The revocation list and the lineage store, as what their clients read.
use vaid.Prelude.{
  ◌≡◌, refl, ◌↔◌, inl, inr, true, false, ◌||◌, Option, none, some, List, [], ◌∷◌, arith, any, In,
  contains, add, ◌==◌, ==_iff, if◌then◌else◌, lookup-insert, Bool-cases,
}
use vaid.Platform.{VaidId}
use vaid.Revocation.{
  vaid_id_eq, not_revoked, revoked, resolution_of_entry, RevocationList, get_or_empty, revoke,
  check_lineage, LineageMap, resolve_parent, record_lineage,
}

pub contains_iff : (id : VaidId) (ids : List VaidId) → (contains id ids ≡ true) ↔ In id ids
contains_iff id [] = ground arith
contains_iff id (x ∷ ids) = ground (arith, ==_iff x id, contains_iff id ids)

pub contains-add :
    (id j : VaidId) (ids : List VaidId) → contains j (add id ids) ≡ ((id == j) || contains j ids)
contains-add id j ids = elim (Bool-cases (contains id ids)) [
  | inl there ↦ rw there (ground (arith, same_contains id j ids))
  | inr new ↦ rw new
]
  where
    same_contains :
        (a b : VaidId) (xs : List VaidId) → contains a xs ≡ true → a ≡ b → contains b xs ≡ true
    same_contains a b xs h e = rw (← e) h

any-add :
    (id : VaidId) (ids lineage : List VaidId)
    → any (λ x. contains x (add id ids)) lineage
      ≡ (contains id lineage || any (λ x. contains x ids) lineage)
any-add id ids [] = refl
any-add id ids (x ∷ lineage) =
    ground (arith, contains-add id x ids, any-add id ids lineage, ==_iff x id, ==_iff id x)

-- After `revoke id`, a lineage is reported revoked exactly if it holds `id` or held a revoked hop
-- before, and it is reported at all: the store has become available.
pub check_lineage-revoke :
    (id : VaidId) (list : RevocationList) (lineage : List VaidId)
    → check_lineage (revoke id list) lineage
      ≡ (if contains id lineage then revoked else check_lineage (some (get_or_empty list)) lineage)
unfolding check_lineage revoke
check_lineage-revoke id list lineage = ground (arith, any-add id (get_or_empty list) lineage)

not_any :
    (ids lineage : List VaidId)
    → any (λ x. contains x ids) lineage ≡ false
    → (id : VaidId) → In id lineage
    → ¬ In id ids
not_any ids [] h id m k = absurd m
not_any ids (x ∷ lineage) h id m k = elim m [
  | inl e ↦
      let there = (contains_iff id ids).1 k in
      let there' : contains x ids ≡ true = rw (← e) there in ground arith
  | inr later ↦ not_any ids lineage (ground arith) id later k
]

-- A store vouches for a lineage only if it is available and no hop of it is in the revoked set.
pub not_revoked_sound :
    (list : RevocationList) (lineage : List VaidId)
    → check_lineage list lineage ≡ not_revoked
    → (ids : List VaidId) × (list ≡ some ids) × ((id : VaidId) → In id lineage → ¬ In id ids)
unfolding check_lineage
not_revoked_sound none lineage h = cc
not_revoked_sound (some ids) lineage h = (ids, refl, not_any ids lineage (ground arith))

-- What was recorded last for an identifier is what the store resolves; others are untouched.
pub resolve_parent-record_lineage :
    (id j : VaidId) (parent_id : Option VaidId) (entries : LineageMap)
    → resolve_parent (record_lineage id parent_id entries) j
      ≡ (if id == j then resolution_of_entry (some parent_id) else resolve_parent entries j)
unfolding resolve_parent record_lineage
resolve_parent-record_lineage id j parent_id entries =
    ground (arith, lookup-insert id j parent_id entries)
