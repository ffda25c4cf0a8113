-- ===== src/Examples.antt =====
-- A concrete platform and concrete data, on which the children of this module run the model and
-- apply the theorems. Its signature scheme is the simplest one that has the documented laws.
pub mod Scopes
pub mod Documents
pub mod Chains
pub mod Stores
pub mod Requests
pub mod Issuing
pub mod Minting
pub mod Depth
pub mod Wire
pub mod Reading
pub mod Runs
pub mod Vectors
pub mod Frozen
pub mod Pinned
use vaid.Prelude.{
  ℕ, ◌/◌, ◌*◌, ◌+◌, ◌≡◌, refl, true, Option, none, some, List, [], ◌∷◌, ◌++◌, Bytes, Text, text,
  text_eq, text_eq_refl,
}
use vaid.Json.{
  Json, null, boolean, uint, number, string, array, object, Items, nil, item, Members, end, member,
}
use vaid.Platform.{Platform, PlatformLaws, Instant, second}

unfoldable mutual
  pub write : Json → Bytes
  write null = text "null"
  write (boolean b) = text "b"
  write (uint n) = n ∷ []
  write (number t) = t
  write (string t) = t
  write (array items) = write_items items
  write (object members) = write_members members

  pub write_items : Items → Bytes
  write_items nil = []
  write_items (item j rest) = write j ++ write_items rest

  pub write_members : Members → Bytes
  write_members end = []
  write_members (member k j rest) = k ++ write j ++ write_members rest

abbrev read_one : Text → Option ℕ
read_one (u ∷ []) = some u
read_one _ = none

abbrev read_second : Text → Option Instant
read_second (s ∷ []) = some (s * second)
read_second _ = none

-- A signature is the key before the message; a key pair is its public key.
abbrev pub toy : Platform
toy = record {
  sha256 = λ m. m;
  base64_url = λ m. m;
  base64 = λ m. m;
  jcs = write;
  ed25519_verify = λ key message signature. text_eq signature (key ++ message);
  ed25519_sign = λ key message. key ++ message;
  ed25519_public_key = λ key. key;
  key_of_pkcs8 = λ bytes. some bytes;
  key_of_seed = λ bytes. some bytes;
  uuid_to_string = λ u. u ∷ [];
  uuid_parse_str = read_one;
  parse_from_rfc3339 = read_second;
  format_seconds = λ t. (t / second) ∷ [];
  datetime_to_json = λ t. t ∷ [];
}

pub toy_laws : PlatformLaws toy
toy_laws = record {
  sign_verifies = λ key message. text_eq_refl (key ++ message);
  parse_format = λ t h. refl;
}
