-- ===== src/Pop.antt =====
-- Signed payloads: crates/vaid-pop/src/vaid_pop.rs. A payload stands here as the JSON object that
-- its `Serialize` makes.
use vaid.Prelude.{◌≡◌, Bool, true, Bytes}
use vaid.Json.{Json}
use vaid.Platform.{Platform, PlatformLaws, KeyPair}

module _ (p : Platform) where
  unfoldable pub canonical_request_signing_bytes : Json → Bytes
  canonical_request_signing_bytes payload = p.sha256 (p.jcs payload)

  unfoldable pub sign_payload : Json → KeyPair → Bytes
  sign_payload payload key = p.ed25519_sign key (canonical_request_signing_bytes payload)

  unfoldable pub verify_signed_payload : Json → Bytes → Bytes → Bool
  verify_signed_payload payload key signature =
      p.ed25519_verify key (canonical_request_signing_bytes payload) signature

  -- A payload that a key pair signed verifies against that pair's public key.
  pub verify_signed_payload-sign_payload :
      PlatformLaws p
      → (payload : Json) (key : KeyPair)
      → verify_signed_payload payload (p.ed25519_public_key key) (sign_payload payload key) ≡ true
  unfolding sign_payload verify_signed_payload
  verify_signed_payload-sign_payload laws payload key = laws.sign_verifies key _
