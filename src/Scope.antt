-- ===== src/Scope.antt =====
-- Scope boundaries: `ScopeBoundaryEntry` and the matcher of crates/vaid-mint/src/document.rs.
pub mod Prefix
pub mod Boundary
use mathlib.Core.Option
use vaid.Prelude.{
  Bool, true, false, ◌&&◌, ◌||◌, not, Option, none, some, List, [], ◌∷◌, ◌++◌, ℕ, Text, text,
  text_eq, starts_with, ends_with, is_empty, all, any, if◌then◌else◌, Result, ok, err,
}
use vaid.Json.{Json, string, as_str, is_string}

-- `SCOPE_SEPARATORS`
abbrev pub scope_separators : List ℕ
scope_separators = b'/' ∷ b'.' ∷ []

-- `SCOPE_KIND_PREFIX`
abbrev pub scope_kind_prefix : Text
scope_kind_prefix = text "prefix"

pub record ScopeBoundaryEntry : Type 0 where
  pub kind : Text
  pub value : Json

-- `ScopeBoundaryEntry::prefix`
abbrev pub prefix_entry : Text → ScopeBoundaryEntry
prefix_entry p = record { kind = scope_kind_prefix; value = string p }

-- The two messages of `validate_scope_entry`.
pub data ScopeEntryError : Type 0 where
  empty_kind prefix_without_string : ScopeEntryError

unfoldable pub validate_scope_entry : Text → Json → Result ScopeEntryError (Unit {0})
validate_scope_entry kind value =
    if is_empty kind
    then err empty_kind
    else if text_eq kind scope_kind_prefix && not (is_string value)
    then err prefix_without_string
    else ok tt

abbrev pub validated :
    Result ScopeEntryError (Unit {0})
    → ScopeBoundaryEntry
    → Result ScopeEntryError ScopeBoundaryEntry
validated (ok _) entry = ok entry
validated (err e) entry = err e

-- `ScopeBoundaryEntry::new`
unfoldable pub new_entry : Text → Json → Result ScopeEntryError ScopeBoundaryEntry
unfolding validate_scope_entry
new_entry kind value =
    validated (validate_scope_entry kind value) (record { kind = kind; value = value })

unfoldable pub prefix_contains : Text → Text → Bool
prefix_contains prefix resource =
    if is_empty prefix
    then true
    else if text_eq resource prefix
    then true
    else if any (λ sep. ends_with prefix sep) scope_separators
    then starts_with resource prefix
    else any (λ sep. starts_with resource (prefix ++ sep ∷ [])) scope_separators

-- `none` is a kind that this version cannot evaluate.
unfoldable pub entry_contains : ScopeBoundaryEntry → Text → Option Bool
entry_contains entry resource =
    if text_eq entry.kind scope_kind_prefix
    then Option.map (λ p. prefix_contains p resource) (as_str entry.value)
    else none

unfoldable pub entry_claimed_resource : ScopeBoundaryEntry → Option Text
entry_claimed_resource entry =
    if text_eq entry.kind scope_kind_prefix then as_str entry.value else none

abbrev is_some {ℓ} : {A : Type ℓ} → Option A → Bool
is_some none = false
is_some (some a) = true

unfoldable pub entry_is_evaluable : ScopeBoundaryEntry → Bool
unfolding entry_contains
entry_is_evaluable entry = is_some (entry_contains entry [])

unfoldable pub boundary_is_evaluable : List ScopeBoundaryEntry → Bool
boundary_is_evaluable boundary = all (λ entry. entry_is_evaluable entry) boundary

-- The loop of `scope_contains` over `contained`; `none` is its early `return false`.
unfoldable pub scan : List ScopeBoundaryEntry → Text → Bool → Option Bool
scan [] resource contained = some contained
scan (entry ∷ rest) resource contained = elim (entry_contains entry resource) [
  | none ↦ none
  | some true ↦ scan rest resource true
  | some false ↦ scan rest resource contained
]

abbrev refused_or : Option Bool → Bool → Bool
refused_or none empty = false
refused_or (some contained) empty = empty || contained

unfoldable pub scope_contains : List ScopeBoundaryEntry → Text → Bool
scope_contains boundary resource = refused_or (scan boundary resource false) (is_empty boundary)
