-- ===== src/PopConformance/Signing.antt =====
-- What the operator's vector pins, when its checks pass: crates/vaid-pop/src/bin/conformance.rs. The
-- checker compares signatures and never verifies one.
use vaid.Prelude.{◌≡◌, true, Option, some, Bytes, Text, text, text_eq_iff}
use vaid.Json.{Json}
use vaid.Platform.{Platform, PlatformLaws, KeyPair, Instant}
use vaid.Document.{to_hex}
use vaid.Pop.{
  canonical_request_signing_bytes, sign_payload, verify_signed_payload,
  verify_signed_payload-sign_payload,
}
use vaid.RequestAuth.{RequestAuthPayload, request_value}
use vaid.RequestAuth.Reading.{read_request}
use vaid.Conformance.{passed, at_key, text_at, ◌>>◌}
use vaid.Conformance.Passing.{passes, >>=-Passes, require-eq-passed, or_block-eq-passed}
use vaid.PopConformance.{check_operator_digest, check_operator_signature}

module _ (p : Platform) (read_datetime : Text → Option Instant) where
  -- A frozen request, signed: its digest, public key and signature are written in the vector.
  pub record IsFrozenRequest (v : Json) : Type 0 where
    pub payload : RequestAuthPayload
    pub reads : read_request p read_datetime (at_key v (text "input")) ≡ some payload
    pub digest :
        to_hex (canonical_request_signing_bytes p (request_value p payload))
        ≡ text_at v (text "digest_sha256_hex")
    pub key : Bytes
    pub key_hex : to_hex key ≡ text_at (at_key v (text "ed25519")) (text "public_key_hex")
    pub signature : Bytes
    pub signature_hex :
        to_hex signature ≡ text_at (at_key v (text "ed25519")) (text "signature_hex")
    pub verifies : verify_signed_payload p (request_value p payload) key signature ≡ true

  -- The checks of a signature, the payload given.
  abbrev IsSigned : Json → RequestAuthPayload → Type 0
  IsSigned v payload =
      (kp : KeyPair) × (to_hex (p.ed25519_public_key kp)
        ≡ text_at (at_key v (text "ed25519")) (text "public_key_hex"))
      × (read_request p read_datetime (at_key v (text "input")) ≡ some payload)
      × (to_hex (sign_payload p (request_value p payload) kp)
          ≡ text_at (at_key v (text "ed25519")) (text "signature_hex"))

  check_operator_digest-reads :
      (v : Json)
      → check_operator_digest p read_datetime v ≡ passed tt
      → (payload : RequestAuthPayload) × (read_request p read_datetime (at_key v (text "input"))
          ≡ some payload)
        × (to_hex (canonical_request_signing_bytes p (request_value p payload))
            ≡ text_at v (text "digest_sha256_hex"))
  unfolding check_operator_digest
  check_operator_digest-reads v h = elim (>>=-Passes _ _ h) [
    | passes payload reads h1 ↦ elim (>>=-Passes _ _ h1) [
      | passes u size h2 ↦
          (payload, or_block-eq-passed _ _ reads, (text_eq_iff _ _).0 (require-eq-passed _ _ h2))
    ]
  ]

  check_operator_signature-IsSigned :
      (v : Json)
      → check_operator_signature p read_datetime v ≡ passed tt
      → (payload : RequestAuthPayload) × IsSigned v payload
  unfolding check_operator_signature sign_payload
  check_operator_signature-IsSigned v h = elim (>>=-Passes _ _ h) [
    | passes kp made h1 ↦ elim (>>=-Passes _ _ h1) [
      | passes u key h2 ↦ elim (>>=-Passes _ _ h2) [
        | passes payload reads h3 ↦ (
          payload,
          (
            kp,
            (text_eq_iff _ _).0 (require-eq-passed _ _ key),
            or_block-eq-passed _ _ reads,
            (text_eq_iff _ _).0 (require-eq-passed _ _ h3),
          ),
        )
      ]
    ]
  ]

  -- If both checks of the operator's vector pass, then, Ed25519 verifying what it signed, the
  -- frozen signature, that the checker itself does not verify, verifies against the frozen public
  -- key, over the frozen digest of the request in the vector.
  pub check_operator-IsFrozenRequest :
      PlatformLaws p
      → (v : Json)
      → (check_operator_digest p read_datetime v >> check_operator_signature p read_datetime v)
        ≡ passed tt
      → IsFrozenRequest v
  check_operator-IsFrozenRequest laws v h = elim (>>=-Passes _ _ h) [
    | passes u digest h1 ↦
        let (payload, reads, frozen) = check_operator_digest-reads v digest in
        let (again, (kp, key, reads_again, signature)) = check_operator_signature-IsSigned v h1 in
        let same : again ≡ payload = cc in
        record {
          payload = again;
          reads = reads_again;
          digest = rw same frozen;
          key = p.ed25519_public_key kp;
          key_hex = key;
          signature = sign_payload p (request_value p again) kp;
          signature_hex = signature;
          verifies = verify_signed_payload-sign_payload p laws (request_value p again) kp;
        }
  ]
