-- ===== src/Json/Reading.antt =====
-- How serde reads a Rust value from a JSON value: unsigned bytes, strings and vectors of them.
use mathlib.Core.Option
use vaid.Prelude.{
  ℕ, ◌≡◌, refl, ap, true, Option, none, some, List, [], ◌∷◌, Text, leb, All, arith, if◌then◌else◌,
  Bool-cases, inl, inr,
}
use vaid.Json.{
  Json, null, boolean, uint, number, string, array, object, Items, nil, item, Members, end, member,
  get, as_str, items_of,
}

infixl 5 ◌>>=◌
abbrev pub ◌>>=◌ {ℓ κ} : {A : Type ℓ} {B : Type κ} → Option A → (A → Option B) → Option B
none >>= f = none
some a >>= f = f a

-- A chain that gives a value has one from its first step.
pub >>=-eq-some {ℓ κ} :
    {A : Type ℓ} {B : Type κ} (o : Option A) (f : A → Option B) {b : B}
    → (o >>= f) ≡ some b
    → (a : A) × (o ≡ some a) × (f a ≡ some b)
>>=-eq-some none f h = cc
>>=-eq-some (some a) f h = (a, refl, h)

-- Four steps of a chain at once.
module _ {A B C D E : Type 0} where
  pub data Four (o : Option A) (p : Option B) (q : Option C) (r : Option D)
      (f : A → B → C → D → Option E) (x : E) : Type 0 where
    four :
        (a : A) (b : B) (c : C) (d : D)
        → o ≡ some a
        → p ≡ some b
        → q ≡ some c
        → r ≡ some d
        → f a b c d ≡ some x
        → Four o p q r f x

  pub >>=-Four :
      (o : Option A) (p : Option B) (q : Option C) (r : Option D) (f : A → B → C → D → Option E)
      → {x : E} → (o >>= λ a. p >>= λ b. q >>= λ c. r >>= λ d. f a b c d) ≡ some x
      → Four o p q r f x
  >>=-Four none p q r f h = cc
  >>=-Four (some a) none q r f h = cc
  >>=-Four (some a) (some b) none r f h = cc
  >>=-Four (some a) (some b) (some c) none f h = cc
  >>=-Four (some a) (some b) (some c) (some d) f h = four a b c d refl refl refl refl h

-- `Deserialize for u8`
abbrev pub read_u8 : Json → Option ℕ
read_u8 (uint n) = if leb n 255 then some n else none
read_u8 _ = none

-- `Deserialize for Vec<T>`: an array, each item read in turn
module _ {A : Type 0} (read : Json → Option A) where
  abbrev pub read_items : Items → Option (List A)
  read_items nil = some []
  read_items (item j rest) = do a ← read j; as' ← read_items rest; some (a ∷ as')

  abbrev pub read_vec : Json → Option (List A)
  read_vec (array items) = read_items items
  read_vec _ = none

-- A member that must be there, and is read.
abbrev pub read_member : {A : Type 0} → (Json → Option A) → Text → Members → Option A
read_member read k m = get k m >>= read

-- A derived `Deserialize` reads an array as the fields in their order, no fewer and no more.
abbrev pub named_fields : List Text → Items → Option Members
named_fields [] nil = some end
named_fields [] (item j rest) = none
named_fields (k ∷ ks) nil = none
named_fields (k ∷ ks) (item j rest) = named_fields ks rest >>= λ m. some (member k j m)

-- What was read is what the same type writes.
pub as_str-string : (j : Json) (t : Text) → as_str j ≡ some t → j ≡ string t
as_str-string (string s) t h = ap string (Option.some-injective s t h)
as_str-string null t h = cc
as_str-string (boolean b) t h = cc
as_str-string (uint n) t h = cc
as_str-string (number s) t h = cc
as_str-string (array is) t h = cc
as_str-string (object ms) t h = cc

pub read_u8-uint : (j : Json) (n : ℕ) → read_u8 j ≡ some n → (j ≡ uint n) × (leb n 255 ≡ true)
read_u8-uint (uint m) n h = elim (Bool-cases (leb m 255)) [
  | inl small ↦ let same : m ≡ n = ground arith in (ap uint same, rw (← same) small)
  | inr large ↦ absurd (ground arith)
]
read_u8-uint (string s) n h = cc
read_u8-uint null n h = cc
read_u8-uint (boolean b) n h = cc
read_u8-uint (number s) n h = cc
read_u8-uint (array is) n h = cc
read_u8-uint (object ms) n h = cc

-- A vector reads back if its items do; and what was read is what is written, if that is so of items.
module _ {A : Type 0} (read : Json → Option A) (write : A → Json) where
  pub read_items-items_of :
      (as' : List A)
      → All (λ a. read (write a) ≡ some a) as'
      → read_items read (items_of write as') ≡ some as'
  read_items-items_of [] h = refl
  read_items-items_of (a ∷ as') (h, hs) = rw (h, read_items-items_of as' hs) refl

  pub items_of-read_items :
      ((j : Json) (a : A) → read j ≡ some a → j ≡ write a)
      → (items : Items) (as' : List A) → read_items read items ≡ some as'
      → items ≡ items_of write as'
  items_of-read_items back nil as' h = rw (← Option.some-injective [] as' h) refl
  items_of-read_items back (item j rest) as' h =
      let (a, first, later) = >>=-eq-some (read j) _ h in
      let (tail, rest_read, whole) = >>=-eq-some (read_items read rest) _ later in
      rw (← Option.some-injective (a ∷ tail) as' whole)
        (cc (back j a first, items_of-read_items back rest tail rest_read))

  pub array-read_vec :
      ((j : Json) (a : A) → read j ≡ some a → j ≡ write a)
      → (j : Json) (as' : List A) → read_vec read j ≡ some as'
      → j ≡ array (items_of write as')
  array-read_vec back (array items) as' h = ap array (items_of-read_items back items as' h)
  array-read_vec back (string s) xs h = cc
  array-read_vec back null xs h = cc
  array-read_vec back (boolean b) xs h = cc
  array-read_vec back (number s) xs h = cc
  array-read_vec back (uint n) xs h = cc
  array-read_vec back (object ms) xs h = cc

-- Of every item that was read, what holds of all that is read.
module _ {A : Type 0} (read : Json → Option A) (P : A → Type 0) where
  pub All-read_items :
      ((j : Json) (a : A) → read j ≡ some a → P a)
      → (items : Items) (as' : List A) → read_items read items ≡ some as'
      → All P as'
  All-read_items each nil as' h = rw (← Option.some-injective [] as' h) tt
  All-read_items each (item j rest) as' h =
      let (a, first, later) = >>=-eq-some (read j) _ h in
      let (tail, rest_read, whole) = >>=-eq-some (read_items read rest) _ later in
      rw (← Option.some-injective (a ∷ tail) as' whole)
        ((each j a first, All-read_items each rest tail rest_read))

  pub All-read_vec :
      ((j : Json) (a : A) → read j ≡ some a → P a)
      → (j : Json) (as' : List A) → read_vec read j ≡ some as'
      → All P as'
  All-read_vec each (array items) as' h = All-read_items each items as' h
  All-read_vec each (string s) xs h = cc
  All-read_vec each null xs h = cc
  All-read_vec each (boolean b) xs h = cc
  All-read_vec each (number s) xs h = cc
  All-read_vec each (uint n) xs h = cc
  All-read_vec each (object ms) xs h = cc
