-- ===== src/Json.antt =====
-- `serde_json::Value`, as far as the crates read or build it: a document is handed to the JSON
-- canonicalizer as such a value.
pub mod Objects
pub mod Reading
use vaid.Prelude.{
  ℕ, Bool, true, false, Option, none, some, List, [], ◌∷◌, Text, text_eq, if◌then◌else◌,
}

mutual
  pub data Json : Type 0 where
    null : Json
    boolean : Bool → Json
    -- a number of Rust's unsigned types
    uint : ℕ → Json
    -- any other number, by its token
    number : Text → Json
    string : Text → Json
    array : Items → Json
    object : Members → Json

  pub data Items : Type 0 where
    nil : Items
    item : Json → Items → Items

  pub data Members : Type 0 where
    end : Members
    member : Text → Json → Members → Members

-- `Value::as_str` and `Value::is_string`
abbrev pub as_str : Json → Option Text
as_str (string s) = some s
as_str _ = none

abbrev pub is_string : Json → Bool
is_string (string s) = true
is_string _ = false

-- `Map::insert`: the value of a member that is there is replaced.
abbrev pub put : Text → Json → Members → Members
put k v end = member k v end
put k v (member j w rest) = if text_eq j k then member k v rest else member j w (put k v rest)

-- `Map::get`
abbrev pub get : Text → Members → Option Json
get k end = none
get k (member j w rest) = if text_eq j k then some w else get k rest

-- `Serialize for Vec<T>`
abbrev pub items_of : {A : Type 0} → (A → Json) → List A → Items
items_of write [] = nil
items_of write (a ∷ as') = item (write a) (items_of write as')

abbrev pub byte_items : List ℕ → Items
byte_items bs = items_of (λ b. uint b) bs

abbrev pub text_items : List Text → Items
text_items ts = items_of (λ t. string t) ts
