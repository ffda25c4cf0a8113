-- ===== src/Conformance/Pinned.antt =====
-- The checks that pin bytes: `check_mint`, `check_mint_pop` and `check_attestation` of
-- crates/vaid-mint/src/bin/conformance.rs.
use vaid.Prelude.{Bool, true, false, Option, some, Text, text, text_eq}
use vaid.Json.{Json, null, object, get}
use vaid.Platform.{Platform, Instant}
use vaid.TrustDomain.{kernel_key_thumbprint}
use vaid.Document.{
  vaid_id, agent_id, parent_vaid, to_hex, compute_lineage_hash, canonical_vaid_signing_bytes,
  with_kernel_signature,
}
use vaid.Verify.{verify_vaid_authenticity}
use vaid.Attestation.{
  with_signature, canonical_attestation_signing_bytes, verify_attestation_authenticity,
}
use vaid.Attestation.Reading.{read_attestation}
use vaid.Conformance.{
  Check, ◌>>=◌, ◌>>◌, require, or_block, or_panic, at_key, text_at, unhex, assert_hex, doc_from,
  seed_pair, identity_mismatch, does_not_verify, parent_not_null, not_an_attestation,
}

-- `get(k) == Some(&Value::Null)`
abbrev is_present_null : Json → Text → Bool
is_present_null (object m) k = elim (get k m) [ some null ↦ true | _ ↦ false ]
is_present_null _ k = false

module _ (p : Platform) where
  unfoldable pub check_mint : Json → Check
  check_mint v = do
    unsigned ← doc_from p (at_key v (text "input"))
    let digest = canonical_vaid_signing_bytes p unsigned
    assert_hex (to_hex digest) (text_at v (text "digest_sha256_hex"))
    let keys = at_key v (text "ed25519")
    kp ← seed_pair p (text_at keys (text "kernel_private_key_seed_hex"))
    assert_hex (to_hex (p.ed25519_public_key kp)) (text_at keys (text "kernel_public_key_hex"))
    assert_hex (to_hex (p.ed25519_sign kp digest)) (text_at keys (text "signature_hex"))
    assert_hex (compute_lineage_hash p (parent_vaid unsigned) (agent_id unsigned))
        unsigned.lineage_hash
    require (text_eq (p.uuid_to_string (vaid_id unsigned)) (p.uuid_to_string (agent_id unsigned)))
        identity_mismatch
    signature ← or_panic (unhex (text_at keys (text "signature_hex")))
    require
        (verify_vaid_authenticity p (p.ed25519_public_key kp)
          (with_kernel_signature unsigned signature))
        does_not_verify

  unfoldable pub check_mint_pop : Json → Check
  check_mint_pop v = do
    let keys = at_key v (text "ed25519")
    kp ← seed_pair p (text_at keys (text "private_key_seed_hex"))
    assert_hex (to_hex (p.ed25519_public_key kp)) (text_at keys (text "public_key_hex"))
    digest ← or_panic (unhex (text_at v (text "digest_sha256_hex")))
    assert_hex (to_hex (p.ed25519_sign kp digest)) (text_at keys (text "signature_hex"))
    require (is_present_null (at_key v (text "input")) (text "parentVaid")) parent_not_null

  unfoldable pub check_attestation : (Text → Option Instant) → Json → Check
  unfolding read_attestation
  check_attestation read_datetime v = do
    unsigned ←
        or_block (read_attestation p read_datetime (at_key v (text "attestation")))
          not_an_attestation
    let digest = canonical_attestation_signing_bytes p unsigned
    assert_hex (to_hex digest) (text_at v (text "digest_sha256_hex"))
    kp ← seed_pair p (text_at (at_key v (text "ed25519")) (text "kernel_private_key_seed_hex"))
    assert_hex (to_hex (p.ed25519_sign kp digest)) (text_at v (text "signature_hex"))
    assert_hex (kernel_key_thumbprint p (p.ed25519_public_key kp)) unsigned.kernel_key_thumbprint
    signature ← or_panic (unhex (text_at v (text "signature_hex")))
    require
        (verify_attestation_authenticity p (p.ed25519_public_key kp)
          (with_signature unsigned signature))
        does_not_verify
