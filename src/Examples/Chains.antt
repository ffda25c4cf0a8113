-- ===== src/Examples/Chains.antt =====
-- The verifier on a root and its child.
use vaid.Prelude.{
  ◌≡◌, ◌≢◌, refl, ◌↔◌, false, none, some, List, [], ◌∷◌, text, ok, All, last, if◌then◌else◌, ◌==◌,
}
use vaid.TrustDomain.{split, label_ok, labels_ok, is_valid_trust_domain, kernel_key_thumbprint}
use vaid.Scope.{
  prefix_contains, entry_contains, entry_claimed_resource, entry_is_evaluable,
  boundary_is_evaluable, scan, scope_contains,
}
use vaid.Document.{
  Vaid, vaid_id, parent_vaid, caps_contain, to_hex, with_lineage, compute_lineage_hash,
  known_members, canonical_vaid_signing_bytes, with_kernel_signature, is_expired_at,
}
use vaid.Attenuation.{
  scope_attenuation_reason, scope_attenuates_within, caps_attenuate_within,
  expiry_attenuates_within, tenant_attenuates,
}
use vaid.Revocation.{
  LineageResolver, ParentResolution, lineage_fuel, vaid_id_eq, not_revoked, revoked, complete,
  assemble_lineage, climb,
}
use vaid.Document.Signing.{canonical_vaid_signing_bytes-with_kernel_signature}
use vaid.Revocation.Ancestry.{IsAncestry, assemble_lineage_iff, assemble_lineage_total}
use vaid.Verify.Graded.{IsAuthentic, verify_vaid_authenticity_graded_iff}
use vaid.Verify.Standing.{
  HasStanding, IsCaller, verify_vaid_standing_iff, verify_vaid_standing_bound_iff,
}
use vaid.Chain.Hops.{IsAttenuatedHop, check_hop_iff}
use vaid.Chain.Soundness.{IsTrusted, IsVerifiedChain, verify_chain_at_iff}
use vaid.Chain.EndToEnd.{IsWithin, verify_chain_at-IsWithin}
use vaid.Verify.{
  verify_vaid_standing, verify_vaid_standing_bound, ExpectedCaller, has_been_revoked, valid,
  is_valid, verify_lineage_hash, verify_vaid_authenticity_graded, verify_vaid_authenticity,
}
use vaid.Attestation.{empty_attestations}
use vaid.Chain.{
  PresentedBundle, new_bundle, bundle_resolver, attenuated, KernelKeyResolver, single_kernel_key,
  chain_documents, check_attestation, same_key, check_hop, check_hops, authenticate,
  check_documents, check_assembly, verify_chain_at, pass, init,
}
use vaid.Issuer.{sign_document}
use vaid.Examples.{toy, write}
use vaid.Examples.Documents.{key, today, root_doc, child_doc}

root_authentic : verify_vaid_authenticity_graded toy key root_doc ≡ valid
unfolding sign_document with_lineage verify_vaid_authenticity_graded is_valid_trust_domain labels_ok
    label_ok split kernel_key_thumbprint verify_lineage_hash compute_lineage_hash to_hex
    canonical_vaid_signing_bytes known_members write
root_authentic = refl

abbrev bundle : PresentedBundle
bundle = new_bundle (root_doc ∷ [])

abbrev keys : KernelKeyResolver
keys = single_kernel_key toy key

chain_verified :
    verify_chain_at toy keys child_doc bundle empty_attestations today ≡ some attenuated
unfolding sign_document with_lineage verify_vaid_authenticity_graded is_valid_trust_domain labels_ok
    label_ok split kernel_key_thumbprint verify_lineage_hash compute_lineage_hash to_hex
    canonical_vaid_signing_bytes known_members write is_valid verify_vaid_authenticity
    verify_chain_at authenticate check_assembly check_documents check_hops check_hop same_key
    check_attestation chain_documents assemble_lineage climb bundle_resolver new_bundle
    single_kernel_key is_expired_at tenant_attenuates scope_attenuates_within
    scope_attenuation_reason boundary_is_evaluable entry_is_evaluable entry_claimed_resource
    scope_contains scan entry_contains prefix_contains caps_attenuate_within caps_contain
    expiry_attenuates_within
chain_verified = refl

assembled : assemble_lineage child_doc (bundle_resolver bundle) ≡ complete (1 ∷ 2 ∷ [])
unfolding sign_document with_lineage assemble_lineage climb bundle_resolver new_bundle
assembled = refl

documents : chain_documents child_doc bundle (1 ∷ 2 ∷ []) ≡ some (root_doc ∷ child_doc ∷ [])
unfolding sign_document with_lineage chain_documents new_bundle
documents = refl

verify_chain_at-IsWithin_example :
    (last (root_doc ∷ child_doc ∷ []) ≡ some child_doc)
    × All
        (λ a. IsTrusted toy keys a × (is_expired_at toy a today ≡ false) × IsWithin toy a child_doc)
        (init (root_doc ∷ child_doc ∷ []))
verify_chain_at-IsWithin_example =
    verify_chain_at-IsWithin toy keys empty_attestations today child_doc bundle (1 ∷ 2 ∷ [])
      (root_doc ∷ child_doc ∷ []) chain_verified assembled documents

verify_chain_at_iff_example :
    (verify_chain_at toy keys child_doc bundle empty_attestations today ≡ some attenuated)
    ↔ ((docs : List Vaid) × IsVerifiedChain toy keys empty_attestations today child_doc bundle docs)
verify_chain_at_iff_example = verify_chain_at_iff toy keys empty_attestations today child_doc bundle

check_hop_iff_example :
    (check_hop toy keys empty_attestations root_doc child_doc today ≡ pass)
    ↔ IsAttenuatedHop toy keys empty_attestations today root_doc child_doc
check_hop_iff_example = check_hop_iff toy keys empty_attestations root_doc child_doc today

assemble_lineage_iff_example :
    (assemble_lineage child_doc (bundle_resolver bundle) ≡ complete (1 ∷ 2 ∷ []))
    ↔ IsAncestry child_doc (bundle_resolver bundle) (1 ∷ 2 ∷ [])
assemble_lineage_iff_example = assemble_lineage_iff child_doc (bundle_resolver bundle) (1 ∷ 2 ∷ [])

-- A resolver that goes round in a circle.
abbrev circle : LineageResolver
circle id = if id == 1 then ParentResolution.parent 7 else ParentResolution.parent 1

assemble_lineage_total_example :
    climb lineage_fuel circle (vaid_id child_doc ∷ []) (parent_vaid child_doc) ≢ none
assemble_lineage_total_example = assemble_lineage_total child_doc circle

verify_vaid_authenticity_graded_iff_example :
    (verify_vaid_authenticity_graded toy key root_doc ≡ valid) ↔ IsAuthentic toy key root_doc
verify_vaid_authenticity_graded_iff_example = verify_vaid_authenticity_graded_iff toy key root_doc

verify_vaid_standing_iff_example :
    (verify_vaid_standing toy key child_doc not_revoked today ≡ valid)
    ↔ HasStanding toy key child_doc not_revoked today
verify_vaid_standing_iff_example = verify_vaid_standing_iff toy key child_doc not_revoked today

abbrev expected : ExpectedCaller
expected = record { agent_id = none; agent_class = none; tenant_id = some (text "acme") }

verify_vaid_standing_bound_iff_example :
    (verify_vaid_standing_bound toy key child_doc revoked expected today ≡ ok has_been_revoked) ↔ (
      (has_been_revoked ≡ verify_vaid_standing toy key child_doc revoked today)
      × (has_been_revoked ≡ valid → IsCaller toy expected child_doc))
verify_vaid_standing_bound_iff_example =
    verify_vaid_standing_bound_iff toy key child_doc revoked expected today has_been_revoked

canonical_vaid_signing_bytes-with_kernel_signature_example :
    canonical_vaid_signing_bytes toy (with_kernel_signature root_doc (text "forged"))
    ≡ canonical_vaid_signing_bytes toy root_doc
canonical_vaid_signing_bytes-with_kernel_signature_example =
    canonical_vaid_signing_bytes-with_kernel_signature toy root_doc (text "forged")
