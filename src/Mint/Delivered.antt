-- ===== src/Mint/Delivered.antt =====
-- A child that the mint delegates through the reference issuer, before the chain verifier.
use mathlib.Core.Path.{subst}
use vaid.Prelude.{◌≡◌, refl, sym, ap, ◌∙◌, ℕ, true, Option, some, Bytes}
use vaid.Platform.{Platform, PlatformLaws, Instant, trunc_second}
use vaid.TrustDomain.{is_valid_trust_domain}
use vaid.Document.{Vaid, vaid_id, parent_vaid, with_lineage}
use vaid.Attestation.{AttestationBundle}
use vaid.Verify.Graded.{IsAuthentic}
use vaid.Chain.{KernelKeyResolver, check_hop, pass}
use vaid.Chain.Hops.{check_hop_iff}
use vaid.Errors.{done}
use vaid.Issuer.{
  kernel_public_key, issuer_thumbprint, sign_document, build_and_sign_vaid, issue_vaid_with_key,
}
use vaid.Issuer.State.{RevocationBackend, ReferenceIssuer, IssueArgs, Fresh}
use vaid.Issuer.Issuing.{
  presented_parent, build_and_sign_vaid-IsIssued, build_and_sign_vaid-IsAuthentic,
}
use vaid.MintTypes.{VaidSeed, MintPop, MintVaidRequest, MintVaidResponse}
use vaid.Mint.{mint_child}
use vaid.Mint.State.{MintState, args_of_seed}
use vaid.Mint.Minting.{IsIssuedChild, IsDelegated-of_done}
use vaid.Mint.Reference.{MintWorld, reference_ports}

module _ (p : Platform) {S : Type 0} (b : RevocationBackend S) where
  -- What the issuer copies into a document, and what it states of itself there.
  record States (args : IssueArgs) (i : ReferenceIssuer S) (v : Vaid) : Type 0 where
    scope : v.scope_boundary ≡ args.scope_boundary
    caps : v.capability_set ≡ args.capability_set
    tenant : v.tenant_id ≡ args.tenant_id
    names : parent_vaid v ≡ args.parent_vaid
    domain : v.trust_domain ≡ i.trust_domain
    thumbprint : v.kernel_key_thumbprint ≡ issuer_thumbprint p b i

  sign_document-States :
      (args : IssueArgs) (key : Bytes) (agent : ℕ) (now expires : Instant) (i : ReferenceIssuer S)
      → States args i (sign_document p b args key agent now expires i)
  unfolding sign_document with_lineage
  sign_document-States args key agent now expires i = record {
    scope = refl;
    caps = refl;
    tenant = refl;
    names = sym (presented_parent p args.parent_vaid);
    domain = refl;
    thumbprint = refl;
  }

  issued-States :
      (args : IssueArgs) (key : Bytes) (fresh : Fresh) (i i' : ReferenceIssuer S) (v : Vaid)
      → build_and_sign_vaid p b args key fresh i ≡ (done v, i')
      → States args i v
  issued-States args key fresh i i' v h =
      let issued = build_and_sign_vaid-IsIssued p b args key fresh i i' v h in
      subst (λ w. States args i w) (sym issued.signed)
        (sign_document-States args key fresh.agent_id (trunc_second fresh.now) issued.expires i)

  -- The issuer's call behind a delegated child, on the issuer as it was before the mint.
  issuing_call :
      (fresh : Fresh) (seed : VaidSeed) (upper : Vaid) (given : Option MintPop) (now : Instant)
      → (s s' : MintState (MintWorld S)) (child : Vaid)
      → (h : IsIssuedChild p (reference_ports p b fresh) seed upper given now s s' child)
      → build_and_sign_vaid p b
          (args_of_seed seed (some upper.expires_at_presented))
          h.key
          fresh
          s.world.issuer
        ≡ (done child, s'.world.issuer)
  unfolding reference_ports issue_vaid_with_key
  issuing_call fresh seed upper given now s s' child h =
      let same = ap (λ t. t.world) h.possessed.after in
      ap (λ r. (r.0, r.1.issuer)) (rw same at h.issued)

  -- A child that a mint over the reference issuer delegates from a parent of the same issuer is
  -- authentic under the issuer's key, names that parent, and passes the chain verifier's check of
  -- the hop, whatever keys and attestations that verifier has and whenever it looks. The
  -- platform's laws hold, the issuer's trust domain is well formed, and the parent states the
  -- issuer's trust domain and key.
  pub mint_child-check_hop :
      PlatformLaws p
      → (fresh : Fresh) (max_depth : ℕ) (request : MintVaidRequest) (upper : Vaid)
      → (checked_at pop_at : Instant) (s s' : MintState (MintWorld S)) (r : MintVaidResponse)
      → is_valid_trust_domain s.world.issuer.trust_domain ≡ true
      → upper.trust_domain ≡ s.world.issuer.trust_domain
      → upper.kernel_key_thumbprint ≡ issuer_thumbprint p b s.world.issuer
      → mint_child p (reference_ports p b fresh) max_depth request (some upper) checked_at pop_at s
        ≡ (done r, s')
      → IsAuthentic p (kernel_public_key p b s.world.issuer) r.vaid
        × (parent_vaid r.vaid ≡ some (vaid_id upper))
        × ((keys : KernelKeyResolver) (attestations : AttestationBundle) (now : Instant)
            → check_hop p keys attestations upper r.vaid now ≡ pass)
  unfolding mint_child
  mint_child-check_hop laws fresh max_depth request upper checked_at pop_at s s' r domain home
        issuer h =
      let delegated =
        IsDelegated-of_done p (reference_ports p b fresh) max_depth request upper checked_at pop_at
          s s' r h in
      let may = delegated.may in
      let child = delegated.child in
      let args = args_of_seed request.seed (some upper.expires_at_presented) in
      let call =
        issuing_call fresh request.seed upper request.pop pop_at s delegated.before_audit r.vaid
          child in
      let states =
        issued-States args child.key fresh s.world.issuer delegated.before_audit.world.issuer r.vaid
          call in
      (
        build_and_sign_vaid-IsAuthentic p b laws args child.key fresh s.world.issuer
            delegated.before_audit.world.issuer r.vaid domain call,
        states.names ∙ may.names,
        λ keys attestations now. (check_hop_iff p keys attestations upper r.vaid now).1 (record {
          scope = rw (states.scope) may.scope;
          caps = rw (states.caps) may.caps;
          expiry = child.contained;
          tenant = λ _. (home ∙ sym states.domain, may.tenant ∙ sym states.tenant);
          consent = λ other. absurd (other (issuer ∙ sym states.thumbprint));
        }),
      )
