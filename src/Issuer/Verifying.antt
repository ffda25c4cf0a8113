-- ===== src/Issuer/Verifying.antt =====
-- What `verify_vaid` accepts, and what revoking and recording do to it.
use vaid.Prelude.{
  ◌≡◌, ◌≢◌, refl, ap, ◌↔◌, true, false, Option, some, List, Bytes, if◌then◌else◌, ◌==◌, ==_iff, In,
  arith, Bool-cases, inl, inr,
}
use vaid.Platform.{Platform, VaidId, Instant}
use vaid.Document.{Vaid, vaid_id, is_expired_at, canonical_vaid_signing_bytes}
use vaid.Revocation.{
  vaid_id_eq, not_revoked, revoked, resolution_of_entry, complete, assemble_lineage,
}
use vaid.Revocation.Stores.{contains_iff, check_lineage-revoke, resolve_parent-record_lineage}
use vaid.Errors.{done}
use vaid.Issuer.{
  kernel_public_key, resolve_at, issuer_resolver, revocation_status, try_record,
  build_and_sign_vaid, verify_vaid,
}
use vaid.Issuer.State.{
  RevocationBackend, Source, own, injected, ReferenceIssuer, IssueArgs, Fresh, revoke_issued,
}
use vaid.Issuer.Issuing.{build_and_sign_vaid-IsIssued}

module _ (p : Platform) {S : Type 0} (b : RevocationBackend S) where
  -- What `verify_vaid` asks of a document.
  pub record IsAccepted (i : ReferenceIssuer S) (v : Vaid) (now : Instant) : Type 0 where
    pub version : v.sig_version ≡ 4
    pub alive : is_expired_at p v now ≡ false
    pub standing : revocation_status p b i v ≡ not_revoked
    pub signed :
        p.ed25519_verify
          (kernel_public_key p b i)
          (canonical_vaid_signing_bytes p v)
          v.kernel_signature
        ≡ true

  IsAccepted-of_true :
      (i : ReferenceIssuer S) (v : Vaid) (now : Instant)
      → verify_vaid p b i v now ≡ true
      → IsAccepted i v now
  unfolding verify_vaid
  IsAccepted-of_true i v now h = record {
    version = ground arith;
    alive = ground arith;
    standing = ground arith;
    signed = ground arith;
  }

  IsAccepted-true :
      (i : ReferenceIssuer S) (v : Vaid) (now : Instant)
      → IsAccepted i v now
      → verify_vaid p b i v now ≡ true
  unfolding verify_vaid
  IsAccepted-true i v now h =
      let signed = h.signed in
      let version : (v.sig_version == 4) ≡ true = (==_iff v.sig_version 4).1 h.version in
      rw (version, h.alive, h.standing) signed

  -- The issuer accepts a document exactly if it is of version 4, has not expired, no hop of its
  -- ancestry is revoked as far as an available store answers, and the issuer's own key signed it.
  pub verify_vaid_iff :
      (i : ReferenceIssuer S) (v : Vaid) (now : Instant)
      → (verify_vaid p b i v now ≡ true) ↔ IsAccepted i v now
  verify_vaid_iff i v now = (IsAccepted-of_true i v now, IsAccepted-true i v now)

  pub refused_of_status :
      (i : ReferenceIssuer S) (v : Vaid) (now : Instant)
      → revocation_status p b i v ≢ not_revoked
      → verify_vaid p b i v now ≡ false
  refused_of_status i v now h = elim (Bool-cases (verify_vaid p b i v now)) [
    | inl accepted ↦ absurd (h (IsAccepted-of_true i v now accepted).standing)
    | inr other ↦ other
  ]

  resolve_at-revoke_issued :
      (source : Source) (id : VaidId) (i : ReferenceIssuer S)
      → resolve_at p b source (revoke_issued id i) ≡ resolve_at p b source i
  resolve_at-revoke_issued own id i = refl
  resolve_at-revoke_issued injected id i = refl

  status-revoke_issued :
      (id : VaidId) (i : ReferenceIssuer S) (v : Vaid) (ids : List VaidId)
      → i.revocation_source ≡ own
      → assemble_lineage v (issuer_resolver p b i) ≡ complete ids
      → In id ids
      → revocation_status p b (revoke_issued id i) v ≡ revoked
  unfolding revocation_status issuer_resolver
  status-revoke_issued id i v ids source assembled m =
      let there = (contains_iff id ids).1 m in
      rw
        (
          resolve_at-revoke_issued i.lineage_source id i,
          assembled,
          source,
          check_lineage-revoke id i.default_store ids,
          there,
        )
        refl

  -- Where the issuer consults its own revocation store, revoking any hop of a document's
  -- assembled ancestry there makes the issuer refuse the document, at every instant.
  pub verify_vaid-revoke_issued :
      (id : VaidId) (i : ReferenceIssuer S) (v : Vaid) (now : Instant) (ids : List VaidId)
      → i.revocation_source ≡ own
      → assemble_lineage v (issuer_resolver p b i) ≡ complete ids
      → In id ids
      → verify_vaid p b (revoke_issued id i) v now ≡ false
  verify_vaid-revoke_issued id i v now ids source assembled m =
      refused_of_status (revoke_issued id i) v now
        λ h. cc (status-revoke_issued id i v ids source assembled m)

  resolver-try_record :
      (id j : VaidId) (parent_id : Option VaidId) (i i' : ReferenceIssuer S)
      → i.lineage_source ≡ own
      → try_record p b id parent_id i ≡ (done tt, i')
      → issuer_resolver p b i' j
        ≡ (if id == j then resolution_of_entry (some parent_id) else issuer_resolver p b i j)
  unfolding try_record issuer_resolver
  resolver-try_record id j parent_id i i' source h =
      let after = ap (λ r. r.1) (rw source at h) in
      rw (← after, source) (resolve_parent-record_lineage id j parent_id i.default_lineage)

  -- Where the issuer records in its own lineage store, a document that is returned has been
  -- recorded: the store resolves its identifier to the parent that it was issued under, and every
  -- other identifier as before.
  pub issuer_resolver-build_and_sign_vaid :
      (args : IssueArgs) (key : Bytes) (fresh : Fresh) (i i' : ReferenceIssuer S) (v : Vaid)
      → (j : VaidId) → i.lineage_source ≡ own
      → build_and_sign_vaid p b args key fresh i ≡ (done v, i')
      → issuer_resolver p b i' j ≡ (
          if vaid_id v == j
          then resolution_of_entry (some args.parent_vaid)
          else issuer_resolver p b i j)
  issuer_resolver-build_and_sign_vaid args key fresh i i' v j source h =
      resolver-try_record (vaid_id v) j args.parent_vaid i i' source
        (build_and_sign_vaid-IsIssued p b args key fresh i i' v h).recorded
