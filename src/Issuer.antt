-- ===== src/Issuer.antt =====
-- The reference issuer: crates/vaid-mint/src/issuer.rs.
pub mod State
pub mod Issuing
pub mod Verifying
pub mod Expiry
pub mod Starting
pub mod Attesting
pub mod Running
pub mod Histories
pub mod Revoked
pub mod Returning
use vaid.Prelude.{
  ℕ, suc, ◌+◌, ◌-◌, ◌*◌, Bool, true, false, ◌&&◌, not, Option, none, some, List, [], ◌∷◌, Bytes,
  Text, leb, ltb, ◌==◌, if◌then◌else◌, Result, ok, err,
}
use vaid.Platform.{Platform, KeyPair, Uuid, VaidId, AgentId, Instant, hour, instants, trunc_second}
use vaid.TrustDomain.{is_valid_trust_domain, kernel_key_thumbprint}
use vaid.Scope.{ScopeBoundaryEntry}
use vaid.Document.{
  Vaid, vaid_sig_version_v4, vaid_id, parse_rfc3339, with_lineage, with_kernel_signature,
  compute_lineage_hash, canonical_vaid_signing_bytes, is_expired_at,
}
use vaid.Revocation.{
  RevocationStatus, not_revoked, revoked, unavailable, LineageResolver, LineageAssembly, complete,
  incomplete, assemble_lineage, RevocationList, new_list, assume_nothing_revoked, revoke,
  check_lineage, LineageMap, resolve_parent, record_lineage, clear_lineage_map,
}
use vaid.Attestation.{
  ConsentAttestation, new_attestation, with_signature, canonical_attestation_signing_bytes,
}
use vaid.Errors.{
  MintError, unauthorized, identity, unreadable_not_after, malformed_domain, key_parse_failed,
  key_generation_failed, lineage, Outcome, done, failed, panicked,
}
use vaid.Errors.Calls.{Call, pure, lift, ◌>>=◌, ◌>>◌}
use vaid.Issuer.State.{
  ℤ, RevocationBackend, Source, ReferenceIssuer, IssueArgs, Fresh, add_hours, or_panic, min_instant,
  bounded_by, bound_expiry, checked_trust_domain, with_key, from_pkcs8, ephemeral, from_seed,
  with_revocation_backend, assuming_nothing_revoked, revoke_issued, clear_lineage, pos, negsuc, own,
  injected,
}

module _ (p : Platform) {S : Type 0} (b : RevocationBackend S) where
  abbrev pub kernel_public_key : ReferenceIssuer S → Bytes
  kernel_public_key i = p.ed25519_public_key i.kernel_key_pair

  abbrev pub issuer_thumbprint : ReferenceIssuer S → Text
  issuer_thumbprint i = kernel_key_thumbprint p (kernel_public_key i)

  abbrev pub resolve_at : Source → ReferenceIssuer S → LineageResolver
  resolve_at own i = resolve_parent i.default_lineage
  resolve_at injected i = b.resolve i.backend_state

  -- `resolve_parent` and `resolve_delegation_ancestor`
  unfoldable pub issuer_resolver : ReferenceIssuer S → LineageResolver
  issuer_resolver i = resolve_at i.lineage_source i

  abbrev check_at : Source → ReferenceIssuer S → List VaidId → RevocationStatus
  check_at own i ids = check_lineage i.default_store ids
  check_at injected i ids = b.check i.backend_state ids

  abbrev status_of_assembly : ReferenceIssuer S → LineageAssembly → RevocationStatus
  status_of_assembly i incomplete = unavailable
  status_of_assembly i (complete ids) = check_at i.revocation_source i ids

  unfoldable pub revocation_status : ReferenceIssuer S → Vaid → RevocationStatus
  revocation_status i v = status_of_assembly i (assemble_lineage v (issuer_resolver i))

  abbrev pub recorded :
      Result Text (Unit {0}) × S → ReferenceIssuer S → Outcome (Unit {0}) × ReferenceIssuer S
  recorded (ok _, s) i = (done tt, record i { backend_state = s })
  recorded (err e, s) i = (failed (lineage e), record i { backend_state = s })

  abbrev pub try_record_at : Source → VaidId → Option VaidId → Call (ReferenceIssuer S) (Unit {0})
  try_record_at own id parent_id i =
      (done tt, record i { default_lineage = record_lineage id parent_id i.default_lineage })
  try_record_at injected id parent_id i = recorded (b.try_record id parent_id i.backend_state) i

  unfoldable pub try_record : VaidId → Option VaidId → Call (ReferenceIssuer S) (Unit {0})
  try_record id parent_id i = try_record_at i.lineage_source id parent_id i

  -- The signed document of `build_and_sign_vaid`, for an expiry that has been bounded.
  unfoldable pub sign_document :
      IssueArgs → Bytes → AgentId → Instant → Instant → ReferenceIssuer S → Vaid
  sign_document args key agent now expires i =
      let unsigned =
        with_lineage p agent args.agent_class args.version args.tenant_id now expires key []
          args.parent_vaid args.scope_boundary (compute_lineage_hash p args.parent_vaid agent)
          args.capability_set i.trust_domain (issuer_thumbprint i) in
      with_kernel_signature unsigned
        (p.ed25519_sign i.kernel_key_pair (canonical_vaid_signing_bytes p unsigned))

  unfoldable pub build_and_sign_vaid : IssueArgs → Bytes → Fresh → Call (ReferenceIssuer S) Vaid
  build_and_sign_vaid args key fresh = do
    let now = trunc_second fresh.now
    latest ← (λ i. (or_panic (add_hours now i.vaid_ttl_hours), i))
    expires ← lift (bound_expiry p args.not_after latest)
    vaid ← (λ i. (done (sign_document args key fresh.agent_id now expires i), i))
    try_record (vaid_id vaid) args.parent_vaid
    pure vaid

  -- `issue_vaid_with_key` and `issue_vaid_with_lineage`
  unfoldable pub issue_vaid_with_key : IssueArgs → Bytes → Fresh → Call (ReferenceIssuer S) Vaid
  issue_vaid_with_key args key fresh = build_and_sign_vaid args key fresh

  abbrev generated_key : Option Bytes → Outcome Bytes
  generated_key none = failed (identity key_generation_failed)
  generated_key (some pkcs8) = elim (p.key_of_pkcs8 pkcs8) [
    | none ↦ failed (identity key_parse_failed)
    | some pair ↦ done (p.ed25519_public_key pair)
  ]

  unfoldable pub issue_vaid_with_lineage : IssueArgs → Fresh → Call (ReferenceIssuer S) Vaid
  issue_vaid_with_lineage args fresh = do
    key ← lift (generated_key fresh.agent_pkcs8)
    build_and_sign_vaid args key fresh

  abbrev is_not_revoked : RevocationStatus → Bool
  is_not_revoked not_revoked = true
  is_not_revoked _ = false

  unfoldable pub verify_vaid : ReferenceIssuer S → Vaid → Instant → Bool
  verify_vaid i v now =
      if not (v.sig_version == vaid_sig_version_v4)
      then false
      else if is_expired_at p v now
      then false
      else if not (is_not_revoked (revocation_status i v))
      then false
      else p.ed25519_verify (kernel_public_key i) (canonical_vaid_signing_bytes p v)
          v.kernel_signature

  -- `attest_delegation`
  unfoldable pub attest_delegation :
      VaidId
      → VaidId
      → Text
      → Text
      → Instant
      → List ScopeBoundaryEntry
      → List Text
      → Instant
      → ReferenceIssuer S
      → ConsentAttestation
  attest_delegation upper child child_domain child_tenant expires scope caps now i =
      let unsigned =
        new_attestation upper child child_domain child_tenant (trunc_second now)
          (trunc_second expires) scope caps i.trust_domain (issuer_thumbprint i) in
      with_signature unsigned
        (p.ed25519_sign i.kernel_key_pair (canonical_attestation_signing_bytes p unsigned))
