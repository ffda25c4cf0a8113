-- ===== src/Conformance.antt =====
-- The conformance checker, crates/vaid-mint/src/bin/conformance.rs: what its checks share. The vectors
-- that build.rs embeds, and serde_json's parser, are arguments; printing the report is left out.
pub mod Pinned
pub mod Walks
pub mod Scopes
pub mod Roundtrips
pub mod Verdicts
pub mod Running
pub mod Passing
pub mod Teeth
pub mod Refusals
pub mod Coverage
pub mod Hex
pub mod Frozen
pub mod Dropping
use mathlib.Core.Option
use vaid.Prelude.{
  ℕ, ◌+◌, ◌-◌, ◌*◌, ◌%◌, Bool, true, false, ◌&&◌, ◌||◌, not, Option, none, some, List, [], ◌∷◌,
  ◌++◌, Bytes, Text, text, text_eq, leb, ltb, ◌==◌, if◌then◌else◌,
}
use vaid.Json.{
  Json, null, boolean, uint, array, object, Items, nil, item, Members, end, member, get, as_str,
}
use vaid.Json.Reading.{read_items}
use vaid.Platform.{Platform, KeyPair, Instant}
use vaid.Scope.{ScopeBoundaryEntry}
use vaid.Document.{Vaid, parse_rfc3339}
use vaid.Document.Reading.{read_entry, read_vaid}

-- A `ConformanceError`: a constructor for each message, without what the message prints. The last
-- line has those of vaid-pop's checker alone.
pub data ConformanceError : Type 0 where
  diverged not_a_vaid not_an_attestation bad_seed : ConformanceError
  identity_mismatch does_not_verify parent_not_null : ConformanceError
  no_chain_array empty_chain no_instant wrong_verdict : ConformanceError
  containment_mismatch no_positive_control : ConformanceError
  no_cases malformed_boundary no_expected wrong_reason one_sided : ConformanceError
  too_few_disagreements wrong_separators : ConformanceError
  not_round_tripped no_longer_discriminates : ConformanceError
  unknown_surface unknown_revocation no_document reasons_disagree : ConformanceError
  same_reason wrong_vocabulary unexercised : ConformanceError
  wrong_kinds no_boundary_json not_json too_few_controls : ConformanceError
  none_embedded unchecked_vector missing_vector : ConformanceError
  not_a_payload not_a_record wrong_length no_seed no_tiers wrong_tiers : ConformanceError

-- How a check ends; a panic is one of `unhex`'s slices or of the chain verifier.
pub data Checked (A : Type 0) : Type 0 where
  passed : A → Checked A
  blocked : ConformanceError → Checked A
  panicked : Checked A

infixl 5 ◌>>=◌ ◌>>◌
unfoldable pub ◌>>=◌ : {A B : Type 0} → Checked A → (A → Checked B) → Checked B
passed a >>= f = f a
blocked e >>= f = blocked e
panicked >>= f = panicked

abbrev pub ◌>>◌ : {A B : Type 0} → Checked A → Checked B → Checked B
m >> k = m >>= λ _. k

-- `Check`, and an `if` that returns an error
abbrev pub Check : Type 0
Check = Checked (Unit {0})

unfoldable pub require : Bool → ConformanceError → Check
require true e = passed tt
require false e = blocked e

unfoldable pub or_block : {A : Type 0} → Option A → ConformanceError → Checked A
or_block none e = blocked e
or_block (some a) e = passed a

unfoldable pub or_panic : {A : Type 0} → Option A → Checked A
or_panic none = panicked
or_panic (some a) = passed a

-- A `for` loop over cases whose body may return an error.
abbrev pub check_each : (Json → Check) → List Json → Check
check_each check [] = passed tt
check_each check (case ∷ rest) = check case >> check_each check rest

-- `v[k]`: null where the member is absent or the value is no object.
abbrev pub at_key : Json → Text → Json
at_key (object m) k = elim (get k m) [ none ↦ null | some j ↦ j ]
at_key _ k = null

-- `as_array`, `as_bool`, and `unwrap_or_default` of a text or of an array
abbrev pub items_list : Items → List Json
items_list nil = []
items_list (item j rest) = j ∷ items_list rest

abbrev pub as_array : Json → Option (List Json)
as_array (array items) = some (items_list items)
as_array _ = none

abbrev pub as_bool : Json → Option Bool
as_bool (boolean b) = some b
as_bool _ = none

abbrev pub or_empty {ℓ} : {A : Type ℓ} → Option (List A) → List A
or_empty none = []
or_empty (some xs) = xs

-- `!=` of two Booleans, and the count of a `for` loop's counter
abbrev pub same : Bool → Bool → Bool
same a b = if a then b else not b

abbrev pub count {ℓ} : {A : Type ℓ} → (A → Bool) → List A → ℕ
count p [] = 0
count p (x ∷ xs) = let rest = count p xs in if p x then rest + 1 else rest

abbrev pub text_at : Json → Text → Text
text_at v k = or_empty (as_str (at_key v k))

abbrev pub cases_at : Json → Text → List Json
cases_at v k = or_empty (as_array (at_key v k))

-- `Some(c) if !c.is_empty()`, or an error
unfoldable pub non_empty : List Json → Checked (List Json)
non_empty [] = blocked no_cases
non_empty (case ∷ rest) = passed (case ∷ rest)

abbrev pub some_cases : Json → Text → Checked (List Json)
some_cases v k = non_empty (cases_at v k)

-- `unhex`: the digits of each pair, where there are two; a slice that is cut short, or that ends
-- inside a character, panics.
abbrev pub hex_value : ℕ → Option ℕ
hex_value c =
    if leb b'0' c && leb c b'9'
    then some (c - b'0')
    else if leb b'a' c && leb c b'f'
    then some (c - b'a' + 10)
    else if leb b'A' c && leb c b'F'
    then some (c - b'A' + 10)
    else none

-- `u8::from_str_radix(_, 16)` of two bytes, which takes a leading plus sign.
abbrev pub from_str_radix : ℕ → ℕ → Option ℕ
from_str_radix a c =
    if a == b'+'
    then hex_value c
    else elim (hex_value a) [ none ↦ none | some h ↦ Option.map (λ l. h * 16 + l) (hex_value c) ]

abbrev pub continues : Bytes → Bool
continues [] = false
continues (c ∷ rest) = leb 128 c && ltb c 192

unfoldable pub unhex : Text → Option Bytes
unhex [] = some []
unhex (a ∷ []) = none
unhex (a ∷ c ∷ rest) =
    let bytes = unhex rest in
    if continues rest
    then none
    else Option.map (λ bs. elim (from_str_radix a c) [ none ↦ bs | some b ↦ b ∷ bs ]) bytes

abbrev pub assert_hex : Text → Text → Check
assert_hex got want = require (text_eq got want) diverged

-- `instant_of`, and `boundary_of` through the entries' own `Deserialize`
unfoldable pub boundary_of : Json → Option (List ScopeBoundaryEntry)
boundary_of (array items) = read_items read_entry items
boundary_of _ = none

module _ (p : Platform) where
  abbrev pub instant_of : Json → Option Instant
  instant_of j = elim (as_str j) [ none ↦ none | some t ↦ parse_rfc3339 p t ]

  abbrev pub doc_from : Json → Checked Vaid
  doc_from j = or_block (read_vaid p j) not_a_vaid

  -- The seed at a path, as a key pair.
  abbrev pub seed_pair : Text → Checked KeyPair
  seed_pair hex = do seed ← or_panic (unhex hex); or_block (p.key_of_seed seed) bad_seed
