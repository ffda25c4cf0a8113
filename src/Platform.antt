-- ===== src/Platform.antt =====
-- What the crates call and do not implement: ring (Ed25519), sha2, base64, serde_jcs, uuid and
-- chrono. A record of functions that the model takes as an argument, and their documented laws.
use vaid.Prelude.{ℕ, ◌/◌, ◌*◌, ◌≤◌, ◌<◌, ◌≡◌, Bool, true, Option, some, Bytes, Text}
use vaid.Json.{Json}

-- The 128 bits of a `uuid::Uuid`, as a number. `VaidId` and `AgentId` are newtypes of it.
abbrev pub Uuid : Type 0
Uuid = ℕ

abbrev pub VaidId : Type 0
VaidId = Uuid

abbrev pub AgentId : Type 0
AgentId = Uuid

-- A `DateTime<Utc>`: nanoseconds since chrono's earliest one, -262143-01-01T00:00:00Z.
-- Leap seconds are not modelled.
abbrev pub Instant : Type 0
Instant = ℕ

abbrev pub second : ℕ
second = 1_000_000_000

abbrev pub hour : ℕ
hour = 3600 * second

-- One nanosecond past chrono's latest instant, +262142-12-31T23:59:59.999999999Z.
abbrev pub instants : ℕ
instants = 16_544_868_105_600 * second

-- `trunc_subsecs(0)` and `with_nanosecond(0)`.
abbrev pub trunc_second : Instant → Instant
trunc_second t = t / second * second

-- The years 0000 to 9999, which a strict RFC 3339 parser reads.
abbrev pub IsFourDigitYear : Instant → Type 0
IsFourDigitYear t = (8_272_434_009_600 * second ≤ t) × (t < 8_588_003_529_600 * second)

-- A private key is the bytes that it was read from.
abbrev pub KeyPair : Type 0
KeyPair = Bytes

pub record Platform : Type 0 where
  -- `Sha256::digest`
  pub sha256 : Bytes → Bytes
  -- `URL_SAFE_NO_PAD.encode` and `STANDARD.encode`
  pub base64_url : Bytes → Text
  pub base64 : Bytes → Text
  -- `serde_jcs::to_vec`
  pub jcs : Json → Bytes
  -- `UnparsedPublicKey::new(&ED25519, key).verify(message, signature).is_ok()`
  pub ed25519_verify : Bytes → Bytes → Bytes → Bool
  pub ed25519_sign : KeyPair → Bytes → Bytes
  pub ed25519_public_key : KeyPair → Bytes
  -- `Ed25519KeyPair::from_pkcs8` and `from_seed_unchecked`
  pub key_of_pkcs8 : Bytes → Option KeyPair
  pub key_of_seed : Bytes → Option KeyPair
  -- `Uuid`'s `Display` and `Uuid::parse_str`
  pub uuid_to_string : Uuid → Text
  pub uuid_parse_str : Text → Option Uuid
  -- `DateTime::parse_from_rfc3339` in UTC, and `format("%Y-%m-%dT%H:%M:%SZ")`
  pub parse_from_rfc3339 : Text → Option Instant
  pub format_seconds : Instant → Text
  -- the derived JSON form of a `DateTime<Utc>`
  pub datetime_to_json : Instant → Text

-- Ed25519 verifies what it signed; chrono reads back the whole-second form that it wrote.
pub record PlatformLaws (p : Platform) : Type 0 where
  pub sign_verifies :
      (key : KeyPair) (message : Bytes)
      → p.ed25519_verify (p.ed25519_public_key key) message (p.ed25519_sign key message) ≡ true
  pub parse_format :
      (t : Instant)
      → IsFourDigitYear t
      → p.parse_from_rfc3339 (p.format_seconds t) ≡ some (trunc_second t)
