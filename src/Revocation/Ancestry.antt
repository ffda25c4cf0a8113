-- ===== src/Revocation/Ancestry.antt =====
-- `assemble_lineage` against an independent description of an ancestry.
use mathlib.Core.Path.{subst}
use vaid.Prelude.{
  ℕ, zero, suc, ◌+◌, ◌≡◌, ◌≢◌, ◌≤◌, ◌<◌, refl, sym, ◌∙◌, ap, ◌↔◌, ◌⊎◌, inl, inr, false, ◌||◌,
  Option, none, some, List, [], ◌∷◌, arith, length, leb, contains, Bool-cases,
}
use vaid.Platform.{VaidId}
use vaid.Document.{Vaid, vaid_id, parent_vaid}
use vaid.Revocation.{
  vaid_id_eq, max_lineage_depth, ParentResolution, root, parent, unknown, LineageResolver,
  LineageAssembly, complete, climb, or_incomplete, lineage_fuel, assemble_lineage,
}

-- No identifier stands twice.
abbrev pub NoRepeat : List VaidId → Type 0
NoRepeat [] = Unit
NoRepeat (x ∷ xs) = (contains x xs ≡ false) × NoRepeat xs

abbrev pub resolution : Option VaidId → ParentResolution
resolution none = root
resolution (some id) = parent id

-- Root first: the leaf's parent is the one that its document signs, any other entry's is the one
-- that the resolver knows, and `above` is the parent of the first.
abbrev pub Linked : Vaid → LineageResolver → List VaidId → Option VaidId → Type 0
Linked leaf resolve [] above = ⊥
Linked leaf resolve (x ∷ []) above = (x ≡ vaid_id leaf) × (parent_vaid leaf ≡ above)
Linked leaf resolve (x ∷ y ∷ rest) above =
    (resolve x ≡ resolution above) × Linked leaf resolve (y ∷ rest) (some x)

-- A path from a root to the leaf, with no repetition and at most 1024 entries.
pub record IsAncestry (leaf : Vaid) (resolve : LineageResolver) (ids : List VaidId) : Type 0 where
  pub linked : Linked leaf resolve ids none
  pub no_repeat : NoRepeat ids
  pub bounded : length ids ≤ 1024

Linked-cons :
    (leaf : Vaid) (resolve : LineageResolver) (chain : List VaidId) (x : VaidId)
    (above : Option VaidId)
    → Linked leaf resolve chain (some x)
    → resolve x ≡ resolution above
    → Linked leaf resolve (x ∷ chain) above
Linked-cons leaf resolve [] x above h e = absurd h
Linked-cons leaf resolve (y ∷ rest) x above h e = (e, h)

pub Resolution-cases :
    (r : ParentResolution) → (r ≡ root) ⊎ ((g : VaidId) × (r ≡ parent g)) ⊎ (r ≡ unknown)
Resolution-cases root = inl refl
Resolution-cases (parent g) = inr (inl (g, refl))
Resolution-cases unknown = inr (inr refl)

-- The test of the loop: the entry is new, and there is room for it.
has_room :
    (pid : VaidId) (chain : List VaidId)
    → (contains pid chain || leb max_lineage_depth (length chain)) ≡ false
    → (contains pid chain ≡ false) × (length chain < 1024)
has_room pid chain h = ground arith

pub some_complete : {a b : List VaidId} → some (complete a) ≡ some (complete b) → a ≡ b
some_complete h = cc

module _ (leaf : Vaid) (resolve : LineageResolver) (ids : List VaidId) where
  climb-IsAncestry :
      (fuel : ℕ) (chain : List VaidId) (next : Option VaidId)
      → Linked leaf resolve chain next
      → NoRepeat chain
      → length chain ≤ 1024
      → climb fuel resolve chain next ≡ some (complete ids)
      → IsAncestry leaf resolve ids
  unfolding climb
  climb-IsAncestry zero chain next l n b h = cc
  climb-IsAncestry (suc fuel) chain none l n b h =
      rw (← some_complete h) (record { linked = l; no_repeat = n; bounded = b })
  climb-IsAncestry (suc fuel) chain (some pid) l n b h =
      elim (Bool-cases (contains pid chain || leb max_lineage_depth (length chain))) [
        | inl full ↦ absurd (ground arith)
        | inr open_end ↦
            let (fresh, room) = has_room pid chain open_end in
            elim (Resolution-cases (resolve pid)) [
              | inl top ↦
                  climb-IsAncestry fuel (pid ∷ chain) none
                    (Linked-cons leaf resolve chain pid none l top) (fresh, n) room
                    (rw (open_end, top) at h)
              | inr (inl (g, above)) ↦
                  climb-IsAncestry fuel (pid ∷ chain) (some g)
                    (Linked-cons leaf resolve chain pid (some g) l above) (fresh, n) room
                    (rw (open_end, above) at h)
              | inr (inr lost) ↦ absurd (ground arith)
            ]
      ]

-- The loop ends within its fuel.
climb_total :
    (fuel : ℕ) (resolve : LineageResolver) (chain : List VaidId) (next : Option VaidId)
    → length chain ≤ 1024
    → 1024 < fuel + length chain
    → climb fuel resolve chain next ≢ none
unfolding climb
climb_total zero resolve chain next b enough = absurd (omega arith)
climb_total (suc fuel) resolve chain none b enough = cc
climb_total (suc fuel) resolve chain (some pid) b enough =
    elim (Bool-cases (contains pid chain || leb max_lineage_depth (length chain))) [
      | inl full ↦ rw full (cc)
      | inr open_end ↦
          let (fresh, room) = has_room pid chain open_end in
          rw open_end (elim (Resolution-cases (resolve pid)) [
            | inl top ↦ rw top (climb_total fuel resolve (pid ∷ chain) none room (omega arith))
            | inr (inl (g, above)) ↦
                rw above (climb_total fuel resolve (pid ∷ chain) (some g) room (omega arith))
            | inr (inr lost) ↦ rw lost (cc)
          ])
    ]

-- Whatever the documents and the resolver hold, cycles included, the loop ends within its fuel:
-- the walk is cut by the depth bound of the code and never by the fuel of the model.
pub assemble_lineage_total :
    (leaf : Vaid) (resolve : LineageResolver)
    → climb lineage_fuel resolve (vaid_id leaf ∷ []) (parent_vaid leaf) ≢ none
assemble_lineage_total leaf resolve =
    climb_total lineage_fuel resolve (vaid_id leaf ∷ []) (parent_vaid leaf) (omega arith)
      (omega arith)

pub assembled :
    (o : Option LineageAssembly) (ids : List VaidId)
    → or_incomplete o ≡ complete ids
    → o ≡ some (complete ids)
assembled none ids h = cc
assembled (some a) ids h = ap some h

-- A complete assembly is an ancestry.
assemble_lineage-IsAncestry :
    (leaf : Vaid) (resolve : LineageResolver) (ids : List VaidId)
    → assemble_lineage leaf resolve ≡ complete ids
    → IsAncestry leaf resolve ids
unfolding assemble_lineage
assemble_lineage-IsAncestry leaf resolve ids h =
    climb-IsAncestry leaf resolve ids lineage_fuel (vaid_id leaf ∷ []) (parent_vaid leaf)
      (refl, refl) (refl, tt) (omega arith) (assembled _ ids h)

-- The entries above, nearest first.
data Rises (resolve : LineageResolver) : Option VaidId → List VaidId → Type 0 where
  top : Rises resolve none []
  up :
      (id : VaidId) (above : Option VaidId) (ids : List VaidId)
      → resolve id ≡ resolution above
      → Rises resolve above ids
      → Rises resolve (some id) (id ∷ ids)

abbrev rev_onto : List VaidId → List VaidId → List VaidId
rev_onto [] ys = ys
rev_onto (x ∷ xs) ys = rev_onto xs (x ∷ ys)

NoRepeat-rev_onto : (xs ys : List VaidId) → NoRepeat (rev_onto xs ys) → NoRepeat ys
NoRepeat-rev_onto [] ys h = h
NoRepeat-rev_onto (x ∷ xs) ys h = (NoRepeat-rev_onto xs (x ∷ ys) h).1

length-rev_onto : (xs ys : List VaidId) → length (rev_onto xs ys) ≡ length xs + length ys
length-rev_onto [] ys = omega arith
length-rev_onto (x ∷ xs) ys = omega (arith, length-rev_onto xs (x ∷ ys))

goes_up :
    (id : VaidId) (rest chain : List VaidId)
    → NoRepeat (rev_onto rest (id ∷ chain))
    → length (id ∷ rest) + length chain ≤ 1024
    → (contains id chain || leb max_lineage_depth (length chain)) ≡ false
goes_up id rest chain n b =
    let fresh : contains id chain ≡ false = (NoRepeat-rev_onto rest (id ∷ chain) n).0 in
    rw fresh (ground arith)

climb-Rises :
    (fuel : ℕ) (resolve : LineageResolver) (chain : List VaidId) (next : Option VaidId)
    (ids : List VaidId)
    → Rises resolve next ids
    → NoRepeat (rev_onto ids chain)
    → length ids + length chain ≤ 1024
    → length ids < fuel
    → climb fuel resolve chain next ≡ some (complete (rev_onto ids chain))
unfolding climb
climb-Rises zero resolve chain next ids r n b enough = absurd (omega arith)
climb-Rises (suc fuel) resolve chain next ids top n b enough = refl
climb-Rises (suc fuel) resolve chain next ids (up id none rest e r) n b enough =
    let open_end = goes_up id rest chain n b in
    rw (open_end, e)
      (climb-Rises fuel resolve (id ∷ chain) none rest r n (omega arith) (omega arith))
climb-Rises (suc fuel) resolve chain next ids (up id (some g) rest e r) n b enough =
    let open_end = goes_up id rest chain n b in
    rw (open_end, e)
      (climb-Rises fuel resolve (id ∷ chain) (some g) rest r n (omega arith) (omega arith))

Rises-of_Linked :
    (leaf : Vaid) (resolve : LineageResolver) (ids above : List VaidId) (next : Option VaidId)
    → Linked leaf resolve ids next
    → Rises resolve next above
    → (all_above : List VaidId) × (rev_onto above ids ≡ rev_onto all_above (vaid_id leaf ∷ []))
      × Rises resolve (parent_vaid leaf) all_above
Rises-of_Linked leaf resolve [] above next l r = absurd l
Rises-of_Linked leaf resolve (x ∷ []) above next l r =
    (above, ap (λ y. rev_onto above (y ∷ [])) l.0, rw l.1 r)
Rises-of_Linked leaf resolve (x ∷ y ∷ rest) above next l r =
    Rises-of_Linked leaf resolve (y ∷ rest) (x ∷ above) (some x) l.1 (up x next above l.0 r)

IsAncestry-assemble_lineage :
    (leaf : Vaid) (resolve : LineageResolver) (ids : List VaidId)
    → IsAncestry leaf resolve ids
    → assemble_lineage leaf resolve ≡ complete ids
unfolding assemble_lineage
IsAncestry-assemble_lineage leaf resolve ids h =
    let (above, same, r) = Rises-of_Linked leaf resolve ids [] none h.linked top in
    let long = length-rev_onto above (vaid_id leaf ∷ []) in
    let counted : length ids ≡ length above + 1 = ap length same ∙ long in
    let bounded = h.bounded in
    rw
      (climb-Rises lineage_fuel resolve (vaid_id leaf ∷ []) (parent_vaid leaf) above r
        (subst NoRepeat same h.no_repeat) (omega arith) (omega arith))
      (ap complete (sym same))

-- The walk returns a chain exactly if that chain is an ancestry of the leaf: it ends at the leaf,
-- the leaf's stated parent stands before it, every entry above the leaf resolves to the entry before
-- it, or to a root where it stands first, nothing repeats, and it has at most 1024 entries. A leaf
-- that states no parent stands alone, and the resolver is asked nothing.
pub assemble_lineage_iff :
    (leaf : Vaid) (resolve : LineageResolver) (ids : List VaidId)
    → (assemble_lineage leaf resolve ≡ complete ids) ↔ IsAncestry leaf resolve ids
assemble_lineage_iff leaf resolve ids =
    (assemble_lineage-IsAncestry leaf resolve ids, IsAncestry-assemble_lineage leaf resolve ids)
