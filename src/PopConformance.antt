-- ===== src/PopConformance.antt =====
-- The conformance checker of vaid-pop, crates/vaid-pop/src/bin/conformance.rs: its checks, its table
-- and its run. It shares its shape, and here its errors and its loop, with the checker of the mint.
pub mod Signing
use mathlib.Core.Option
use vaid.Prelude.{
  ℕ, ◌&&◌, Bool, true, false, Option, none, some, List, [], ◌∷◌, map, Bytes, Text, text, text_eq,
  length, ◌==◌, if◌then◌else◌,
}
use vaid.Json.{Json, as_str}
use vaid.Platform.{Platform, KeyPair, Instant}
use vaid.Document.{to_hex}
use vaid.Pop.{canonical_request_signing_bytes}
use vaid.RequestAuth.{RequestAuthPayload, request_value}
use vaid.RequestAuth.Reading.{read_request}
use vaid.Completion.{
  AssuranceTier, self_reported, counter_signed, third_party_attested, tier_text, completion_value,
  read_completion,
}
use vaid.Conformance.{
  Checked, Check, ◌>>=◌, ◌>>◌, require, or_block, or_panic, at_key, text_at, as_array, assert_hex,
  from_str_radix, continues, bad_seed, not_a_payload, not_a_record, wrong_length, no_tiers,
  wrong_tiers, no_seed,
}
use vaid.Conformance.Scopes.{texts_eq, text_or_empty}
use vaid.Conformance.Running.{Digest, digest, no_digest, Checks, Vectors, run_with}

-- `unhex`, whose `expect` panics on what is no digit
unfoldable pub unhex_strict : Text → Option Bytes
unhex_strict [] = some []
unhex_strict (a ∷ []) = none
unhex_strict (a ∷ c ∷ rest) =
    let bytes = unhex_strict rest in
    if continues rest
    then none
    else elim (from_str_radix a c) [ none ↦ none | some b ↦ Option.map (λ bs. b ∷ bs) bytes ]

-- The tiers as they are serialized, in order
abbrev pub tier_texts : List Text
tier_texts =
    tier_text self_reported ∷ tier_text counter_signed ∷ tier_text third_party_attested ∷ []

unfoldable pub check_assurance_tiers : Json → Check
check_assurance_tiers v = do
  frozen ← or_block (as_array (at_key v (text "assurance_tier_strings"))) no_tiers
  require (texts_eq tier_texts (map text_or_empty frozen)) wrong_tiers

-- What the report says of a vector
abbrev digest_or_none : Json → Digest
digest_or_none v = elim (as_str (at_key v (text "digest_sha256_hex"))) [
  | some d ↦ digest d
  | none ↦ no_digest
]

module _ (p : Platform) (read_datetime : Text → Option Instant) where
  unfoldable pub seed_keypair : Json → Checked KeyPair
  seed_keypair v = do
    hex ←
        or_block (as_str (at_key (at_key v (text "ed25519")) (text "private_key_seed_hex"))) no_seed
    seed ← or_panic (unhex_strict hex)
    or_block (p.key_of_seed seed) bad_seed

  unfoldable pub check_operator_digest : Json → Check
  check_operator_digest v = do
    payload ← or_block (read_request p read_datetime (at_key v (text "input"))) not_a_payload
    let digest = canonical_request_signing_bytes p (request_value p payload)
    require (length digest == 32) wrong_length
    assert_hex (to_hex digest) (text_at v (text "digest_sha256_hex"))

  unfoldable pub check_operator_signature : Json → Check
  check_operator_signature v = do
    kp ← seed_keypair v
    let keys = at_key v (text "ed25519")
    assert_hex (to_hex (p.ed25519_public_key kp)) (text_at keys (text "public_key_hex"))
    payload ← or_block (read_request p read_datetime (at_key v (text "input"))) not_a_payload
    let digest = canonical_request_signing_bytes p (request_value p payload)
    assert_hex (to_hex (p.ed25519_sign kp digest)) (text_at keys (text "signature_hex"))

  unfoldable pub check_completion : Json → Check
  check_completion v = do
    rec ← or_block (read_completion p read_datetime (at_key v (text "input"))) not_a_record
    let digest = canonical_request_signing_bytes p (completion_value p rec)
    assert_hex (to_hex digest) (text_at v (text "digest_sha256_hex"))
    kp ← seed_keypair v
    assert_hex (to_hex (p.ed25519_sign kp digest))
        (text_at (at_key v (text "ed25519")) (text "signature_hex"))

  -- `VECTOR_CHECKS`: the checks of a vector run in turn.
  abbrev pub pop_vector_checks : Checks
  pop_vector_checks =
      (text "operator_pop_v1.json", λ v. check_operator_digest v >> check_operator_signature v)
      ∷ (text "completion_v1.json", λ v. check_completion v >> check_assurance_tiers v)
      ∷ []

  unfoldable pub pop_run : (Text → Option Json) → Vectors → Checked (List (Text × Digest))
  pop_run parse_json embedded =
      run_with parse_json (λ v. digest_or_none v) pop_vector_checks embedded
