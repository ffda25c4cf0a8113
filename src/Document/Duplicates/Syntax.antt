-- ===== src/Document/Duplicates/Syntax.antt =====
-- The texts that the scanner reads: JSON without whitespace, whose strings hold no quote and no
-- backslash, and what it is for one of them to repeat a member name.
use vaid.Prelude.{
  ℕ, Bool, false, ◌||◌, ◌≡◌, List, [], ◌∷◌, ◌++◌, Text, text_key, contains, ◌==◌, All,
}

mutual
  pub data Tree : Type 0 where
    -- a number, `true`, `false` or `null`
    scalar : Text → Tree
    quoted : Text → Tree
    listed : Trees → Tree
    record_of : Fields → Tree

  pub data Trees : Type 0 where
    no_tree : Trees
    tree : Tree → Trees → Trees

  pub data Fields : Type 0 where
    no_field : Fields
    field : Text → Tree → Fields → Fields

-- A comma stands between two elements.
unfoldable mutual
  pub write_tree : Tree → Text → Text
  write_tree (scalar s) tail = s ++ tail
  write_tree (quoted s) tail = b'"' ∷ s ++ b'"' ∷ tail
  write_tree (listed ts) tail = b'[' ∷ write_trees ts (b']' ∷ tail)
  write_tree (record_of fs) tail = b'{' ∷ write_fields fs (b'}' ∷ tail)

  pub write_trees : Trees → Text → Text
  write_trees no_tree tail = tail
  write_trees (tree t no_tree) tail = write_tree t tail
  write_trees (tree t (tree u ts)) tail = write_tree t (b',' ∷ write_trees (tree u ts) tail)

  pub write_fields : Fields → Text → Text
  write_fields no_field tail = tail
  write_fields (field k t no_field) tail = b'"' ∷ k ++ b'"' ∷ b':' ∷ write_tree t tail
  write_fields (field k t (field j u fs)) tail =
      b'"' ∷ k ++ b'"' ∷ b':' ∷ write_tree t (b',' ∷ write_fields (field j u fs) tail)

-- Some record in it names a member twice.
unfoldable mutual
  pub repeats : Tree → Bool
  repeats (scalar s) = false
  repeats (quoted s) = false
  repeats (listed ts) = repeats_any ts
  repeats (record_of fs) = repeats_in [] fs

  pub repeats_any : Trees → Bool
  repeats_any no_tree = false
  repeats_any (tree t ts) = repeats t || repeats_any ts

  pub repeats_in : List Text → Fields → Bool
  repeats_in seen no_field = false
  repeats_in seen (field k t fs) = contains k seen || (repeats t || repeats_in (k ∷ seen) fs)

-- Strings without quotes and backslashes, and scalars without brackets and quotes.
abbrev pub IsPlainByte : ℕ → Type 0
IsPlainByte c = ((c == b'"') ≡ false) × ((c == b'\\') ≡ false)

abbrev pub IsScalarByte : ℕ → Type 0
IsScalarByte c =
    ((c == b'{') ≡ false)
    × ((c == b'[') ≡ false)
    × (((c == b'}') || (c == b']')) ≡ false)
    × ((c == b'"') ≡ false)

unfoldable mutual
  pub IsPlain : Tree → Type 0
  IsPlain (scalar s) = All IsScalarByte s
  IsPlain (quoted s) = All IsPlainByte s
  IsPlain (listed ts) = ArePlain ts
  IsPlain (record_of fs) = HasPlainNames fs

  pub ArePlain : Trees → Type 0
  ArePlain no_tree = Unit
  ArePlain (tree t ts) = IsPlain t × ArePlain ts

  pub HasPlainNames : Fields → Type 0
  HasPlainNames no_field = Unit
  HasPlainNames (field k t fs) = All IsPlainByte k × IsPlain t × HasPlainNames fs
