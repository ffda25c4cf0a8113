-- ===== src/Examples/Frozen.antt =====
-- A frozen chain, frozen documents with a member that this version does not know, and a run.
use vaid.Prelude.{
  ◌≡◌, refl, ◌↔◌, Bool, true, false, Option, none, some, [], ◌∷◌, ◌++◌, Bytes, Text, text,
}
use vaid.Json.{Json, boolean, string, object}
use vaid.Platform.{Instant}
use vaid.TrustDomain.{kernel_key_thumbprint, split, label_ok, labels_ok, is_valid_trust_domain}
use vaid.Scope.{validate_scope_entry, new_entry}
use vaid.Document.{
  Vaid, to_hex, known_members, to_members, presented_of_text, with_lineage, compute_lineage_hash,
  canonical_vaid_signing_bytes, with_kernel_signature, is_expired_at,
}
use vaid.Document.Reading.{
  read_raw, read_entry, is_known, deserialize_present, read_members, read_vaid,
}
use vaid.Revocation.{assemble_lineage, climb}
use vaid.Verify.{
  is_valid, verify_lineage_hash, verify_vaid_authenticity_graded, verify_vaid_authenticity,
}
use vaid.Chain.{
  new_bundle, bundle_resolver, single_kernel_key, chain_documents, check_hops, authenticate,
  check_documents, check_assembly, verify_chain_at,
}
use vaid.Issuer.{sign_document}
use vaid.Conformance.{passed, ◌>>=◌, require, or_block, or_panic, non_empty, unhex}
use vaid.Conformance.Walks.{check_entry, check_entries, check_walk, check_chain}
use vaid.Conformance.Frozen.{IsFrozenChain, check_chain-IsFrozenChain}
use vaid.Conformance.Roundtrips.{
  json_eq, dropped, check_roundtrip_case, dropping_verifies, check_roundtrip,
}
use vaid.Conformance.Dropping.{TellsDropping, check_roundtrip-TellsDropping}
use vaid.Conformance.Running.{digest_of, vector_checks, run}
use vaid.Conformance.Coverage.{Covers, run_iff}
use vaid.Examples.{toy, write}
use vaid.Examples.Documents.{key, root_doc}
use vaid.Examples.Vectors.{fields, listed}

-- The root, with times and a hash whose signature is made of byte values.
abbrev plain : Vaid
plain = record root_doc {
  issued_at_presented = text "t";
  expires_at_presented = text "t";
  kernel_signature = [];
}

abbrev signature_of : Vaid → Bytes
signature_of v = key ++ canonical_vaid_signing_bytes toy v

abbrev document_json : Vaid → Bytes → Json
document_json v signature = object (to_members (with_kernel_signature v signature))

abbrev entry : Json
entry = object (
    fields (
      (text "document", object (to_members plain))
      ∷ (text "digest_sha256_hex", string (to_hex (canonical_vaid_signing_bytes toy plain)))
      ∷ (text "signature_hex", string (to_hex (signature_of plain)))
      ∷ []))

abbrev expected_walk : Json
expected_walk = object (
    fields (
      (text "verification_instant", string (5 ∷ []))
      ∷ (text "verification", string (text "attenuated"))
      ∷ []))

abbrev contract : Json
contract =
    object (fields ((text "chain", listed (entry ∷ [])) ∷ (text "expected", expected_walk) ∷ []))

abbrev key_json : Json
key_json = object (
    fields (
      (text "kernel_private_key_seed_hex", string (to_hex key))
      ∷ (text "kernel_public_key_hex", string (to_hex key))
      ∷ []))

abbrev chain_vector : Json
chain_vector = object (
    fields (
      (text "ed25519", key_json)
      ∷ (text "chain", listed (entry ∷ []))
      ∷ (text "expected", expected_walk)
      ∷ (text "digest_sha256_hex", string (to_hex (write contract)))
      ∷ []))

chain_vector_passes : check_chain toy chain_vector ≡ passed tt
unfolding check_chain check_walk check_entries check_entry read_vaid read_members read_entry
    read_raw new_entry validate_scope_entry presented_of_text deserialize_present is_known
    to_members known_members sign_document with_lineage compute_lineage_hash
    canonical_vaid_signing_bytes to_hex write unhex ◌>>=◌ require or_block or_panic non_empty
    new_bundle bundle_resolver single_kernel_key verify_chain_at authenticate
    verify_vaid_authenticity verify_vaid_authenticity_graded verify_lineage_hash is_valid
    is_valid_trust_domain labels_ok label_ok split kernel_key_thumbprint assemble_lineage climb
    check_assembly chain_documents check_documents check_hops is_expired_at
chain_vector_passes = refl

check_chain-IsFrozenChain_example : IsFrozenChain toy chain_vector
check_chain-IsFrozenChain_example =
    check_chain-IsFrozenChain toy chain_vector chain_vector_passes refl

-- A document with a member that is not known: signed with it, and given it after signing.
abbrev extended : Vaid
extended = record plain { unknown_fields = (text "x_note", string (text "x")) ∷ [] }

abbrev roundtrip_case : Bytes → Bool → Json
roundtrip_case signature valid = object (
    fields (
      (text "document", document_json extended signature)
      ∷ (text "expected_valid", boolean valid)
      ∷ []))

abbrev roundtrip_vector : Json
roundtrip_vector = object (
    fields (
      (
        text "cases",
        listed (
            roundtrip_case (signature_of extended) true
            ∷ roundtrip_case (signature_of plain) false
            ∷ []),
      )
      ∷ (text "ed25519", key_json)
      ∷ []))

roundtrip_vector_passes : check_roundtrip toy roundtrip_vector ≡ passed tt
unfolding check_roundtrip check_roundtrip_case dropping_verifies dropped json_eq read_vaid
    read_members read_entry read_raw new_entry validate_scope_entry presented_of_text
    deserialize_present is_known to_members known_members sign_document with_lineage
    compute_lineage_hash canonical_vaid_signing_bytes to_hex write unhex ◌>>=◌ require or_block
    or_panic non_empty kernel_key_thumbprint
roundtrip_vector_passes = refl

check_roundtrip-TellsDropping_example : TellsDropping toy roundtrip_vector
check_roundtrip-TellsDropping_example =
    check_roundtrip-TellsDropping toy roundtrip_vector roundtrip_vector_passes

-- A parser that knows the chain vector only.
abbrev parse_chain : Text → Option Json
parse_chain [] = none
parse_chain _ = some chain_vector

abbrev no_datetime : Text → Option Instant
no_datetime t = none

run_iff_example :
    (run toy parse_chain no_datetime 0 ((text "chain_v1.json", text "{}") ∷ []) ≡ passed [])
    ↔ Covers parse_chain
        (λ v. digest_of v)
        (vector_checks toy parse_chain no_datetime 0)
        ((text "chain_v1.json", text "{}") ∷ [])
        []
run_iff_example = run_iff toy parse_chain no_datetime 0 ((text "chain_v1.json", text "{}") ∷ []) []
