-- ===== src/Document/Duplicates/Scanning.antt =====
-- The scanner on a text of the syntax answers whether a record in it repeats a name.
use vaid.Prelude.{
  ℕ, zero, suc, ◌≡◌, ◌≤◌, ◌<◌, refl, sym, ap, ◌∙◌, Bool, true, false, ◌||◌, Option, none, some,
  List, [], ◌∷◌, ◌++◌, Text, length, text_key, contains, All, arith, Bool-cases, inl, inr,
}
use vaid.Document.Duplicates.{
  scan_json_string, names_member, Stack, scan_members, or_false, has_duplicate_member_names,
}
use vaid.Document.Duplicates.Syntax.{
  Tree, scalar, quoted, listed, record_of, Trees, no_tree, tree, Fields, no_field, field,
  write_tree, write_trees, write_fields, repeats, repeats_any, repeats_in, IsPlainByte,
  IsScalarByte, IsPlain, ArePlain, HasPlainNames,
}

-- With any fuel beyond its length the scan of `b` answers `r`.
abbrev Reads : Text → Stack → Bool → Type 0
Reads b stack r = (fuel : ℕ) → length b < fuel → scan_members fuel b stack ≡ some r

length-after : (s tail : Text) → length tail ≤ length (s ++ tail)
length-after [] tail = omega arith
length-after (c ∷ s) tail = ground (arith, length-after s tail)

read_end : (stack : Stack) → Reads [] stack false
unfolding scan_members
read_end stack zero enough = absurd (omega arith)
read_end stack (suc fuel) enough = refl

read_open_record :
    (rest : Text) (stack : Stack) (r : Bool)
    → Reads rest (some [] ∷ stack) r
    → Reads (b'{' ∷ rest) stack r
unfolding scan_members
read_open_record rest stack r h zero enough = absurd (omega arith)
read_open_record rest stack r h (suc fuel) enough = h fuel (omega arith)

read_open_list :
    (rest : Text) (stack : Stack) (r : Bool)
    → Reads rest (none ∷ stack) r
    → Reads (b'[' ∷ rest) stack r
unfolding scan_members
read_open_list rest stack r h zero enough = absurd (omega arith)
read_open_list rest stack r h (suc fuel) enough = h fuel (omega arith)

read_close_record :
    (rest : Text) (top : Option (List Text)) (stack : Stack) (r : Bool)
    → Reads rest stack r
    → Reads (b'}' ∷ rest) (top ∷ stack) r
unfolding scan_members
read_close_record rest top stack r h zero enough = absurd (omega arith)
read_close_record rest top stack r h (suc fuel) enough = h fuel (omega arith)

read_close_list :
    (rest : Text) (top : Option (List Text)) (stack : Stack) (r : Bool)
    → Reads rest stack r
    → Reads (b']' ∷ rest) (top ∷ stack) r
unfolding scan_members
read_close_list rest top stack r h zero enough = absurd (omega arith)
read_close_list rest top stack r h (suc fuel) enough = h fuel (omega arith)

read_byte :
    (c : ℕ) (rest : Text) (stack : Stack) (r : Bool)
    → IsScalarByte c
    → Reads rest stack r
    → Reads (c ∷ rest) stack r
unfolding scan_members
read_byte c rest stack r plain h zero enough = absurd (omega arith)
read_byte c rest stack r (a, b, d, e) h (suc fuel) enough =
    rw (a, b, d, e, scan_members) (h fuel (omega arith))

read_scalar :
    (s tail : Text) (stack : Stack) (r : Bool)
    → All IsScalarByte s
    → Reads tail stack r
    → Reads (s ++ tail) stack r
read_scalar [] tail stack r plain h = h
read_scalar (c ∷ s) tail stack r (now, later) h =
    read_byte c (s ++ tail) stack r now (read_scalar s tail stack r later h)

scan_plain :
    (s tail : Text) → All IsPlainByte s → scan_json_string (s ++ b'"' ∷ tail) ≡ some (s, tail)
unfolding scan_json_string
scan_plain [] [] plain = refl
scan_plain [] (d ∷ tail) plain = refl
scan_plain (c ∷ []) tail ((q, e), later) =
    rw (q, e, scan_plain [] tail later, scan_json_string) refl
scan_plain (c ∷ d ∷ s) tail ((q, e), later) =
    rw (q, e, scan_plain (d ∷ s) tail later, scan_json_string) refl

read_quoted :
    (s tail : Text) (stack : Stack) (r : Bool)
    → All IsPlainByte s
    → names_member tail ≡ false
    → Reads tail stack r
    → Reads (b'"' ∷ s ++ b'"' ∷ tail) stack r
unfolding scan_members
read_quoted s tail stack r plain value h zero enough = absurd (omega arith)
read_quoted s tail stack r plain value h (suc fuel) enough =
    rw (scan_plain s tail plain, value, scan_members)
      (h fuel (ground (arith, length-after s (b'"' ∷ tail))))

read_repeated_name :
    (k tail : Text) (seen : List Text) (stack : Stack)
    → All IsPlainByte k
    → contains k seen ≡ true
    → Reads (b'"' ∷ k ++ b'"' ∷ b':' ∷ tail) (some seen ∷ stack) true
unfolding scan_members names_member
read_repeated_name k tail seen stack plain there zero enough = absurd (omega arith)
read_repeated_name k tail seen stack plain there (suc fuel) enough =
    rw (scan_plain k (b':' ∷ tail) plain, there, scan_members) refl

read_new_name :
    (k tail : Text) (seen : List Text) (stack : Stack) (r : Bool)
    → All IsPlainByte k
    → contains k seen ≡ false
    → Reads (b':' ∷ tail) (some (k ∷ seen) ∷ stack) r
    → Reads (b'"' ∷ k ++ b'"' ∷ b':' ∷ tail) (some seen ∷ stack) r
unfolding scan_members names_member
read_new_name k tail seen stack r plain new h zero enough = absurd (omega arith)
read_new_name k tail seen stack r plain new h (suc fuel) enough =
    rw (scan_plain k (b':' ∷ tail) plain, new, scan_members)
      (h fuel (ground (arith, length-after k (b'"' ∷ b':' ∷ tail))))

read_name :
    (k tail : Text) (seen : List Text) (stack : Stack) (r : Bool)
    → All IsPlainByte k
    → Reads tail (some (k ∷ seen) ∷ stack) r
    → Reads (b'"' ∷ k ++ b'"' ∷ b':' ∷ tail) (some seen ∷ stack) (contains k seen || r)
read_name k tail seen stack r plain h = elim (Bool-cases (contains k seen)) [
  | inl there ↦ rw there (read_repeated_name k tail seen stack plain there)
  | inr new ↦ rw new (
      read_new_name k tail seen stack r plain new
        (read_byte b':' tail (some (k ∷ seen) ∷ stack) r (refl, refl, refl, refl) h))
]

same_answer : (b : Text) (stack : Stack) (r r' : Bool) → r ≡ r' → Reads b stack r → Reads b stack r'
same_answer b stack r r' e h fuel enough = h fuel enough ∙ ap (λ x. some x) e

||-assoc : (a b c : Bool) → (a || (b || c)) ≡ ((a || b) || c)
||-assoc true b c = refl
||-assoc false b c = refl

||-false : (a : Bool) → a ≡ (a || false)
||-false true = refl
||-false false = refl

mutual
  unfolding write_tree repeats IsPlain names_member

  read_tree :
      (t : Tree) (tail : Text) (stack : Stack) (r : Bool)
      → IsPlain t
      → names_member tail ≡ false
      → Reads tail stack r
      → Reads (write_tree t tail) stack (repeats t || r)
  read_tree (scalar s) tail stack r plain value h = read_scalar s tail stack r plain h
  read_tree (quoted s) tail stack r plain value h = read_quoted s tail stack r plain value h
  read_tree (listed ts) tail stack r plain value h = read_open_list _ stack _ (
      read_trees ts (b']' ∷ tail) (none ∷ stack) r plain refl (read_close_list tail none stack r h))
  read_tree (record_of fs) tail stack r plain value h = read_open_record _ stack _ (
      read_fields fs (b'}' ∷ tail) [] stack r plain refl
        (λ seen. read_close_record tail (some seen) stack r h))

  read_trees :
      (ts : Trees) (tail : Text) (stack : Stack) (r : Bool)
      → ArePlain ts
      → names_member tail ≡ false
      → Reads tail stack r
      → Reads (write_trees ts tail) stack (repeats_any ts || r)
  read_trees no_tree tail stack r plain value h = h
  read_trees (tree t no_tree) tail stack r plain value h =
      same_answer _ stack _ _ (ap (λ x. x || r) (||-false (repeats t)))
        (read_tree t tail stack r plain.0 value h)
  read_trees (tree t (tree u ts)) tail stack r plain value h =
      same_answer _ stack _ _ (||-assoc (repeats t) (repeats_any (tree u ts)) r) (
        read_tree t _ stack _ plain.0 refl (
          read_byte b',' _ stack _ (refl, refl, refl, refl)
            (read_trees (tree u ts) tail stack r plain.1 value h)))

  read_fields :
      (fs : Fields) (tail : Text) (seen : List Text) (stack : Stack) (r : Bool)
      → HasPlainNames fs
      → names_member tail ≡ false
      → ((names : List Text) → Reads tail (some names ∷ stack) r)
      → Reads (write_fields fs tail) (some seen ∷ stack) (repeats_in seen fs || r)
  read_fields no_field tail seen stack r plain value h = h seen
  read_fields (field k t no_field) tail seen stack r plain value h =
      same_answer _ (some seen ∷ stack) _ _
        (ap (λ x. contains k seen || (x || r)) (||-false (repeats t))
          ∙ ||-assoc (contains k seen) (repeats t || false) r)
        (read_name k _ seen stack _ plain.0
          (read_tree t tail (some (k ∷ seen) ∷ stack) r plain.1 value (h (k ∷ seen))))
  read_fields (field k t (field j u fs)) tail seen stack r plain value h =
      same_answer _ (some seen ∷ stack) _ _
        (ap (λ x. contains k seen || x)
            (||-assoc (repeats t) (repeats_in (k ∷ seen) (field j u fs)) r)
          ∙ ||-assoc (contains k seen) (repeats t || repeats_in (k ∷ seen) (field j u fs)) r)
        (read_name k _ seen stack _ plain.0 (
          read_tree t _ (some (k ∷ seen) ∷ stack) _ plain.1 refl (
            read_byte b',' _ (some (k ∷ seen) ∷ stack) _ (refl, refl, refl, refl)
              (read_fields (field j u fs) tail (k ∷ seen) stack r plain.2 value h))))

-- On a JSON text without whitespace, whose strings hold no quote and no backslash and whose scalars
-- hold no bracket and no quote, the scanner answers whether some object in it, at any depth, names
-- a member twice.
pub has_duplicate_member_names-write_tree :
    (t : Tree) → IsPlain t → has_duplicate_member_names (write_tree t []) ≡ repeats t
unfolding has_duplicate_member_names names_member
has_duplicate_member_names-write_tree t plain =
    let answer = read_tree t [] [] false plain refl (read_end []) in
    ap or_false (answer (suc (length (write_tree t []))) (omega arith)) ∙ sym (||-false (repeats t))
