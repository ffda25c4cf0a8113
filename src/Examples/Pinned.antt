-- ===== src/Examples/Pinned.antt =====
-- A frozen request and a frozen completion record, whose checks pass.
use vaid.Prelude.{
  ℕ, ◌==◌, ◌-◌, if◌then◌else◌, ◌≡◌, refl, Option, none, some, [], ◌∷◌, ◌++◌, map, Bytes, Text, text,
}
use vaid.Json.{Json, string, object}
use vaid.Platform.{Platform, PlatformLaws, Instant}
use vaid.Document.{to_hex}
use vaid.Pop.{canonical_request_signing_bytes}
use vaid.RequestAuth.{RequestAuthPayload, request_value}
use vaid.RequestAuth.Reading.{read_request}
use vaid.Conformance.{passed, ◌>>=◌, ◌>>◌, require, or_block, or_panic}
use vaid.Completion.{
  CompletionRecord, self_reported, tier_text, tier_of_text, completion_value, read_completion,
  read_completion_members,
}
use vaid.PopConformance.{
  unhex_strict, seed_keypair, check_operator_digest, check_operator_signature, check_completion,
  check_assurance_tiers, tier_texts,
}
use vaid.Conformance.Running.{no_digest, sort_lines, insert_line}
use vaid.PopConformance.Signing.{IsFrozenRequest, check_operator-IsFrozenRequest}
use vaid.Examples.{toy, toy_laws, write}
use vaid.Examples.Documents.{key}
use vaid.Examples.Vectors.{fields, listed}

abbrev first : ℕ → Bytes → Bytes
first n [] = []
first n (b ∷ m) = let rest = first (n - 1) m in if n == 0 then [] else b ∷ rest

-- The concrete platform with digests of 32 bytes
abbrev digesting : Platform
digesting = record toy { sha256 = λ m. first 32 m }

digesting_laws : PlatformLaws digesting
digesting_laws = record {
  sign_verifies = toy_laws.sign_verifies;
  parse_format = toy_laws.parse_format;
}

abbrev read_instant : Text → Option Instant
read_instant (t ∷ []) = some t
read_instant _ = none

abbrev request : RequestAuthPayload
request = record {
  vaid_id = 2;
  method = text "GET";
  path = text "/x";
  body_sha256 = text "00";
  tenant_id = text "acme";
  timestamp = 5;
  client_nonce = text "n";
}

abbrev digest_bytes : Bytes
digest_bytes = canonical_request_signing_bytes digesting (request_value digesting request)

abbrev operator_vector : Json
operator_vector = object (
    fields (
      (text "input", request_value digesting request)
      ∷ (text "digest_sha256_hex", string (to_hex digest_bytes))
      ∷ (
        text "ed25519",
        object (
            fields (
              (text "private_key_seed_hex", string (to_hex key))
              ∷ (text "public_key_hex", string (to_hex key))
              ∷ (text "signature_hex", string (to_hex (key ++ digest_bytes)))
              ∷ [])),
      )
      ∷ []))

operator_vector_passes :
    (check_operator_digest digesting read_instant operator_vector
      >> check_operator_signature digesting read_instant operator_vector)
    ≡ passed tt
unfolding check_operator_digest check_operator_signature seed_keypair unhex_strict read_request
    request_value canonical_request_signing_bytes to_hex ◌>>=◌ require or_block or_panic write
operator_vector_passes = refl

check_operator-IsFrozenRequest_example : IsFrozenRequest digesting read_instant operator_vector
check_operator-IsFrozenRequest_example =
    check_operator-IsFrozenRequest digesting read_instant digesting_laws operator_vector
      operator_vector_passes

abbrev completion : CompletionRecord
completion = record {
  vaid_id = 2;
  request_digest_sha256 = text "00";
  tenant_id = text "acme";
  status = text "succeeded";
  result_sha256 = text "01";
  completed_at = 5;
  signer_vaid_id = 2;
  assurance_tier = self_reported;
  record_nonce = text "n";
}

abbrev completion_bytes : Bytes
completion_bytes = canonical_request_signing_bytes digesting (completion_value digesting completion)

abbrev completion_vector : Json
completion_vector = object (
    fields (
      (text "input", completion_value digesting completion)
      ∷ (text "digest_sha256_hex", string (to_hex completion_bytes))
      ∷ (text "assurance_tier_strings", listed (map (λ t. string t) tier_texts))
      ∷ (
        text "ed25519",
        object (
            fields (
              (text "private_key_seed_hex", string (to_hex key))
              ∷ (text "signature_hex", string (to_hex (key ++ completion_bytes)))
              ∷ [])),
      )
      ∷ []))

completion_vector_passes :
    (check_completion digesting read_instant completion_vector
      >> check_assurance_tiers completion_vector)
    ≡ passed tt
unfolding check_completion check_assurance_tiers seed_keypair unhex_strict read_completion
    read_completion_members completion_value tier_text tier_of_text canonical_request_signing_bytes
    to_hex ◌>>=◌ require or_block or_panic write
completion_vector_passes = refl

-- The report's lines, in the order of their names
sorted_report :
    sort_lines ((text "b", no_digest) ∷ (text "a.c", no_digest) ∷ (text "a", no_digest) ∷ [])
    ≡ (text "a", no_digest) ∷ (text "a.c", no_digest) ∷ (text "b", no_digest) ∷ []
unfolding sort_lines insert_line
sorted_report = refl
