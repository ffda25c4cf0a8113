-- ===== src/Document/Duplicates.antt =====
-- The scanner for repeated member names: `has_duplicate_member_names` and `scan_json_string` of
-- crates/vaid-mint/src/document.rs. A text is its bytes, and an index is the rest of them.
pub mod Syntax
pub mod Scanning
use mathlib.Core.Option
use vaid.Prelude.{
  ℕ, zero, suc, Bool, true, false, ◌||◌, Option, none, some, List, [], ◌∷◌, Text, length, ◌==◌,
  text_key, contains,
}

abbrev is_ascii_whitespace : ℕ → Bool
is_ascii_whitespace c = (c == 32) || (c == 9) || (c == 10) || (c == 12) || (c == 13)

-- The bytes after an opening quote, to the text and the bytes after the closing quote.
unfoldable pub scan_json_string : Text → Option (Text × Text)
scan_json_string [] = none
scan_json_string (c ∷ []) = elim (c == b'"') [ true ↦ some ([], []) | false ↦ none ]
scan_json_string (c ∷ d ∷ rest) = elim (c == b'"') [
  | true ↦ some ([], d ∷ rest)
  | false ↦ elim (c == b'\\') [
    | true ↦ Option.map (λ r. (c ∷ d ∷ r.0, r.1)) (scan_json_string rest)
    | false ↦ Option.map (λ r. (c ∷ r.0, r.1)) (scan_json_string (d ∷ rest))
  ]
]

-- Is the next byte that is not whitespace a colon?
unfoldable pub names_member : Text → Bool
names_member [] = false
names_member (c ∷ rest) = elim (is_ascii_whitespace c) [
  | true ↦ names_member rest
  | false ↦ c == b':'
]

-- One set of names per open object, and `none` per open array.
abbrev pub Stack : Type 0
Stack = List (Option (List Text))

abbrev pub drop_top : Stack → Stack
drop_top [] = []
drop_top (top ∷ stack) = stack

-- `none` means that the fuel ran out.
unfoldable pub scan_members : ℕ → Text → Stack → Option Bool
scan_members zero b stack = none
scan_members (suc fuel) [] stack = some false
scan_members (suc fuel) (c ∷ rest) stack = elim (c == b'{') [
  | true ↦ scan_members fuel rest (some [] ∷ stack)
  | false ↦ elim (c == b'[') [
    | true ↦ scan_members fuel rest (none ∷ stack)
    | false ↦ elim ((c == b'}') || (c == b']')) [
      | true ↦ scan_members fuel rest (drop_top stack)
      | false ↦ elim (c == b'"') [
        | false ↦ scan_members fuel rest stack
        | true ↦ elim (scan_json_string rest) [
          | none ↦ some false
          | some (name, next) ↦ elim (names_member next) [
            | false ↦ scan_members fuel next stack
            | true ↦ elim stack [
              | [] ↦ scan_members fuel next []
              | (none ∷ below) ↦ scan_members fuel next (none ∷ below)
              | (some seen ∷ below) ↦ elim (contains name seen) [
                | true ↦ some true
                | false ↦ scan_members fuel next (some (name ∷ seen) ∷ below)
              ]
            ]
          ]
        ]
      ]
    ]
  ]
]

abbrev pub or_false : Option Bool → Bool
or_false none = false
or_false (some b) = b

-- One round for each byte, and one for the end.
unfoldable pub has_duplicate_member_names : Text → Bool
has_duplicate_member_names json = or_false (scan_members (suc (length json)) json [])
