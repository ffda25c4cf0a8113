-- ===== src/Document/Positional.antt =====
-- Scope entries that are written as arrays: `Deserialize for ScopeBoundaryEntry` of
-- crates/vaid-mint/src/document.rs.
use vaid.Prelude.{◌≡◌, refl, List, [], ◌∷◌, Text, text, text_eq, true, Bool-cases, inl, inr}
use vaid.Json.{
  Json, null, boolean, uint, number, object, string, array, nil, item, Members, end, member, put,
  items_of,
}
use vaid.Json.Objects.{get-put}
use vaid.Json.Reading.{read_items}
use vaid.Platform.{Platform}
use vaid.Document.Reading.{read_raw, read_raw_seq, read_entry, is_known, unknown_of, read_members}

-- A kind and a value, as the object that the specification asks for, and as an array of the two.
abbrev pub as_object : Json × Json → Json
as_object (kind, value) = object (member (text "kind") kind (member (text "value") value end))

abbrev pub by_position : Json × Json → Json
by_position (kind, value) = array (item kind (item value nil))

read_entry-by_position :
    (kind value : Json)
    → read_entry (by_position (kind, value)) ≡ read_entry (as_object (kind, value))
unfolding read_entry read_raw read_raw_seq
read_entry-by_position (string s) value = refl
read_entry-by_position null value = refl
read_entry-by_position (boolean b) value = refl
read_entry-by_position (uint n) value = refl
read_entry-by_position (number s) value = refl
read_entry-by_position (array is) value = refl
read_entry-by_position (object ms) value = refl

read_items-by_position :
    (es : List (Json × Json))
    → read_items read_entry (items_of by_position es)
      ≡ read_items read_entry (items_of as_object es)
read_items-by_position [] = refl
read_items-by_position ((kind, value) ∷ es) =
    rw (read_entry-by_position kind value, read_items-by_position es) refl

unknown_of-put_known :
    (k : Text) (x y : Json) (m : Members)
    → is_known k ≡ true
    → unknown_of (put k x m) ≡ unknown_of (put k y m)
unknown_of-put_known k x y end h = rw h refl
unknown_of-put_known k x y (member j w rest) h = elim (Bool-cases (text_eq j k)) [
  | inl same ↦ rw (same, h) refl
  | inr other ↦ rw (other, unknown_of-put_known k x y rest h) refl
]

module _ (p : Platform) where
  -- A boundary whose entries are arrays of a kind and a value is read as the boundary of objects
  -- with that kind and that value: the document is the same, and so are the bytes that its
  -- signature covers.
  pub read_members-by_position :
      (m : Members) (es : List (Json × Json))
      → read_members p (put (text "scope_boundary") (array (items_of by_position es)) m)
        ≡ read_members p (put (text "scope_boundary") (array (items_of as_object es)) m)
  unfolding read_members is_known
  read_members-by_position m es =
      rw
        (unknown_of-put_known (text "scope_boundary") (array (items_of by_position es))
          (array (items_of as_object es)) m refl)
        (simp (get-put) (rw (read_items-by_position es) refl))
