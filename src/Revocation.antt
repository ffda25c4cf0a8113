-- ===== src/Revocation.antt =====
-- Revocation and lineage: crates/vaid-mint/src/revocation.rs.
pub mod Ancestry
pub mod Stores
pub mod Descent
use vaid.Prelude.{
  ℕ, zero, suc, ◌+◌, ◌≡◌, ◌↔◌, Bool, true, false, ◌||◌, Option, none, some, List, [], ◌∷◌, any,
  length, reverse, leb, ◌==◌, ==_iff, if◌then◌else◌, Eq, lookup, insert, contains, add,
}
use vaid.Platform.{VaidId}
use vaid.Document.{Vaid, vaid_id, parent_vaid}

instance abbrev pub vaid_id_eq : Eq VaidId
vaid_id_eq = record { beq = ◌==◌; beq_iff = ==_iff }

-- `MAX_LINEAGE_DEPTH`
abbrev pub max_lineage_depth : ℕ
max_lineage_depth = 1024

pub data RevocationStatus : Type 0 where
  not_revoked revoked unavailable : RevocationStatus

pub data ParentResolution : Type 0 where
  root : ParentResolution
  parent : VaidId → ParentResolution
  unknown : ParentResolution

-- A `LineageResolver`, as its `resolve_parent`.
abbrev pub LineageResolver : Type 0
LineageResolver = VaidId → ParentResolution

pub data LineageAssembly : Type 0 where
  complete : List VaidId → LineageAssembly
  incomplete : LineageAssembly

-- The `while let` loop of `assemble_lineage`, on fuel; `none` means that the fuel ran out. The
-- vector is kept with its latest entry at the head, which is the order after `chain.reverse()`.
unfoldable pub climb : ℕ → LineageResolver → List VaidId → Option VaidId → Option LineageAssembly
climb zero resolve chain next = none
climb (suc fuel) resolve chain none = some (complete chain)
climb (suc fuel) resolve chain (some pid) =
    if contains pid chain || leb max_lineage_depth (length chain)
    then some incomplete
    else elim (resolve pid) [
      | root ↦ climb fuel resolve (pid ∷ chain) none
      | parent grandparent ↦ climb fuel resolve (pid ∷ chain) (some grandparent)
      | unknown ↦ some incomplete
    ]

-- One round for each entry that the depth bound allows.
abbrev pub lineage_fuel : ℕ
lineage_fuel = max_lineage_depth

abbrev pub or_incomplete : Option LineageAssembly → LineageAssembly
or_incomplete none = incomplete
or_incomplete (some assembly) = assembly

unfoldable pub assemble_lineage : Vaid → LineageResolver → LineageAssembly
assemble_lineage leaf resolve =
    or_incomplete (climb lineage_fuel resolve (vaid_id leaf ∷ []) (parent_vaid leaf))

-- `InMemoryRevocationList`: the `Option<HashSet>` under its lock; `none` is an unavailable store.
abbrev pub RevocationList : Type 0
RevocationList = Option (List VaidId)

-- `new`, `unavailable` and `default`
abbrev pub new_list : RevocationList
new_list = none

abbrev pub assume_nothing_revoked : RevocationList
assume_nothing_revoked = some []

abbrev pub get_or_empty : RevocationList → List VaidId
get_or_empty none = []
get_or_empty (some ids) = ids

unfoldable pub revoke : VaidId → RevocationList → RevocationList
revoke id list = some (add id (get_or_empty list))

pub mark_unavailable : RevocationList → RevocationList
mark_unavailable list = none

unfoldable pub is_available : RevocationList → Bool
is_available none = false
is_available (some ids) = true

unfoldable pub check_lineage : RevocationList → List VaidId → RevocationStatus
check_lineage none lineage = unavailable
check_lineage (some ids) lineage =
    if any (λ id. contains id ids) lineage then revoked else not_revoked

-- `InMemoryLineageStore`: its map, and the inherent and trait methods.
abbrev pub LineageMap : Type 0
LineageMap = List (VaidId × Option VaidId)

abbrev pub resolution_of_entry : Option (Option VaidId) → ParentResolution
resolution_of_entry (some (some p)) = parent p
resolution_of_entry (some none) = root
resolution_of_entry none = unknown

unfoldable pub resolve_parent : LineageMap → LineageResolver
resolve_parent entries id = resolution_of_entry (lookup id entries)

unfoldable pub record_lineage : VaidId → Option VaidId → LineageMap → LineageMap
record_lineage id parent_id entries = insert id parent_id entries

abbrev pub clear_lineage_map : LineageMap → LineageMap
clear_lineage_map entries = []
