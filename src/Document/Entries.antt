-- ===== src/Document/Entries.antt =====
-- Scope entries: how `Deserialize for ScopeBoundaryEntry` of crates/vaid-mint/src/document.rs reads
-- one, and what was read.
use mathlib.Core.Option
use vaid.Prelude.{◌≡◌, refl, ap, some, List, [], ◌∷◌, Text, text, Result, ok, err}
use vaid.Json.{
  Json, null, boolean, uint, number, object, string, array, Items, nil, item, end, member, items_of,
}
use vaid.Json.Reading.{>>=-eq-some, read_items}
use vaid.Scope.{ScopeBoundaryEntry, ScopeEntryError, validate_scope_entry, validated, new_entry}
use vaid.Document.{entry_value}
use vaid.Document.Reading.{entry_of, read_raw, read_entry}

-- A scope entry that is an object with its two members, as `Value` orders them.
abbrev pub IsEntryObject : Json → Type 0
IsEntryObject j =
    (k : Json) × (v : Json) × (j ≡ object (member (text "kind") k (member (text "value") v end)))

abbrev pub AreEntryObjects : Items → Type 0
AreEntryObjects nil = Unit
AreEntryObjects (item j rest) = IsEntryObject j × AreEntryObjects rest

abbrev pub entry_with : Text → Json → ScopeBoundaryEntry
entry_with kind value = record { kind = kind; value = value }

-- An entry is the one that was validated.
pub entry_of-new_entry :
    (kind : Text) (value : Json) (e : ScopeBoundaryEntry)
    → entry_of (new_entry kind value) ≡ some e
    → (entry_with kind value ≡ e) × (validate_scope_entry kind value ≡ ok tt)
unfolding new_entry
entry_of-new_entry kind value e h = valid _ refl h
  where
    valid :
        (r : Result ScopeEntryError (Unit {0}))
        → validate_scope_entry kind value ≡ r
        → entry_of (validated r (entry_with kind value)) ≡ some e
        → (entry_with kind value ≡ e) × (validate_scope_entry kind value ≡ ok tt)
    valid (ok u) v k = (Option.some-injective _ e k, v)
    valid (err x) v k = cc

pub read_entry-object :
    (k v : Json) (e : ScopeBoundaryEntry)
    → read_entry (object (member (text "kind") k (member (text "value") v end))) ≡ some e
    → object (member (text "kind") k (member (text "value") v end)) ≡ entry_value e
unfolding read_entry read_raw
read_entry-object (string s) v e h = ap entry_value (entry_of-new_entry s v e h).0
read_entry-object null v e h = cc
read_entry-object (boolean b) v e h = cc
read_entry-object (uint n) v e h = cc
read_entry-object (number s) v e h = cc
read_entry-object (array is) v e h = cc
read_entry-object (object ms) v e h = cc

pub entries-objects :
    (items : Items) (es : List ScopeBoundaryEntry)
    → AreEntryObjects items
    → read_items read_entry items ≡ some es
    → items ≡ items_of (λ e. entry_value e) es
entries-objects nil es o h = rw (← Option.some-injective [] es h) refl
entries-objects (item j rest) es ((k, v, shape), os) h =
    let (e, first, later) = >>=-eq-some (read_entry j) _ h in
    let (tail, rest_read, whole) = >>=-eq-some (read_items read_entry rest) _ later in
    rw (← Option.some-injective (e ∷ tail) es whole) (
      cc (
        shape,
        read_entry-object k v e (rw (← shape) first),
        entries-objects rest tail os rest_read,
      ))
