-- ===== src/TrustDomain.antt =====
-- Issuer identity: crates/vaid-mint/src/issuer_identity.rs.
pub mod Split
pub mod Grammar
use vaid.Prelude.{
  ℕ, ◌<◌, Bool, true, false, ◌&&◌, ◌||◌, not, Option, none, some, List, [], ◌∷◌, ◌++◌, Bytes, Text,
  text, text_eq, ends_with, all, any, last, length, is_empty, ltb, leb, ◌==◌, if◌then◌else◌,
}
use vaid.Json.{string, object, end, member}
use vaid.Platform.{Platform}

-- `THUMBPRINT_URI_PREFIX`
abbrev pub thumbprint_uri_prefix : Text
thumbprint_uri_prefix = text "urn:ietf:params:oauth:jwk-thumbprint:sha-256:"

-- `TRUST_DOMAIN_MAX_LEN` and `TRUST_DOMAIN_MAX_LABEL_LEN`
abbrev pub trust_domain_max_len : ℕ
trust_domain_max_len = 253

abbrev pub trust_domain_max_label_len : ℕ
trust_domain_max_label_len = 63

-- RFC 7638 over the key as an Ed25519 JWK.
unfoldable pub kernel_key_thumbprint : Platform → Bytes → Text
kernel_key_thumbprint p public_key =
    let x = p.base64_url public_key in
    let jwk = object (
      member (text "crv") (string (text "Ed25519"))
        (member (text "kty") (string (text "OKP")) (member (text "x") (string x) end))) in
    thumbprint_uri_prefix ++ p.base64_url (p.sha256 (p.jcs jwk))

-- `s.split('.')`: the pieces between the separators, an empty text has one.
cons_head : ℕ → List Text → List Text
cons_head c [] = (c ∷ []) ∷ []
cons_head c (l ∷ ls) = (c ∷ l) ∷ ls

unfoldable pub split : Text → List Text
unfolding cons_head
split [] = [] ∷ []
split (c ∷ s) = let rest = split s in if c == b'.' then [] ∷ rest else cons_head c rest

abbrev pub is_ascii_lowercase : ℕ → Bool
is_ascii_lowercase b = leb b'a' b && leb b b'z'

abbrev pub is_ascii_digit : ℕ → Bool
is_ascii_digit b = leb b'0' b && leb b b'9'

abbrev pub starts_with_char : Text → ℕ → Bool
starts_with_char [] c = false
starts_with_char (d ∷ s) c = d == c

-- One round of the loop over the labels.
unfoldable pub label_ok : Text → Bool
label_ok label =
    not (is_empty label || ltb trust_domain_max_label_len (length label))
    && not (starts_with_char label b'-' || ends_with label b'-')
    && all (λ b. is_ascii_lowercase b || is_ascii_digit b || (b == b'-')) label

abbrev pub last_not_numeric : Option Text → Bool
last_not_numeric none = true
last_not_numeric (some label) = not (all is_ascii_digit label)

-- The tests on the labels: their number, each of them, the last one.
unfoldable pub labels_ok : List Text → Bool
labels_ok labels =
    if ltb (length labels) 2
    then false
    else if all label_ok labels
    then last_not_numeric (last labels)
    else false

unfoldable pub is_valid_trust_domain : Text → Bool
is_valid_trust_domain s =
    if is_empty s || ltb trust_domain_max_len (length s) then false else labels_ok (split s)

abbrev reserved_tlds : List Text
reserved_tlds =
    text "example"
    ∷ text "invalid"
    ∷ text "localhost"
    ∷ text "test"
    ∷ text "local"
    ∷ text "internal"
    ∷ []

-- `rsplit('.').next()` is the last piece.
pub is_special_use_trust_domain : Text → Bool
is_special_use_trust_domain s = elim (last (split s)) [
  | none ↦ false
  | some tld ↦ any (λ reserved. text_eq reserved tld) reserved_tlds
]
