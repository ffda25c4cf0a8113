-- ===== src/Chain/Hops.antt =====
-- What one hop of an attenuated chain guarantees.
use vaid.Prelude.{
  ◌≡◌, ◌≢◌, inl, inr, true, false, ◌||◌, not, some, text_eq, text_eq_iff, arith, Bool-cases,
  if◌then◌else◌, ◌↔◌,
}
use vaid.Platform.{Platform, Instant}
use vaid.Document.{Vaid, vaid_id}
use vaid.Attenuation.{scope_attenuates, tenant_attenuates, caps_attenuate, expiry_attenuates}
use vaid.Attestation.{ConsentAttestation, AttestationBundle, get_attestation}
use vaid.Chain.{attenuated, KernelKeyResolver, pass, refuse, check_attestation, same_key, check_hop}
use vaid.Chain.Consents.{
  IsConsented, require_pass, pass_of, consent_of_pass, IsConsented-check_attestation,
  attestation_refusal,
}

pub record IsAttenuatedHop (p : Platform) (keys : KernelKeyResolver)
    (attestations : AttestationBundle) (now : Instant) (upper child : Vaid) : Type 0 where
  pub scope : scope_attenuates upper child.scope_boundary ≡ true
  pub caps : caps_attenuate upper child.capability_set ≡ true
  pub expiry : expiry_attenuates p upper (some child.expires_at_presented) ≡ true
  -- within one kernel key the tenant and the trust domain stay
  pub tenant :
      upper.kernel_key_thumbprint ≡ child.kernel_key_thumbprint
      → (upper.trust_domain ≡ child.trust_domain) × (upper.tenant_id ≡ child.tenant_id)
  -- between two keys there is consent
  pub consent :
      upper.kernel_key_thumbprint ≢ child.kernel_key_thumbprint
      → (a : ConsentAttestation) × (get_attestation attestations (vaid_id upper) (vaid_id child)
          ≡ some a)
        × IsConsented p keys a upper child now

module _ (p : Platform) (keys : KernelKeyResolver) where
  key_differs :
      (upper child : Vaid)
      → upper.kernel_key_thumbprint ≢ child.kernel_key_thumbprint
      → same_key p keys upper child ≡ false
  unfolding same_key
  key_differs upper child n =
      ground (arith, text_eq_iff upper.kernel_key_thumbprint child.kernel_key_thumbprint)

  tenant_of_test :
      (upper child : Vaid)
      → (not (same_key p keys upper child)
          || tenant_attenuates upper child.trust_domain child.tenant_id)
        ≡ true
      → upper.kernel_key_thumbprint ≡ child.kernel_key_thumbprint
      → (upper.trust_domain ≡ child.trust_domain) × (upper.tenant_id ≡ child.tenant_id)
  unfolding same_key tenant_attenuates
  tenant_of_test upper child h e =
      let same = (text_eq_iff upper.kernel_key_thumbprint child.kernel_key_thumbprint).1 e in
      (
        (text_eq_iff upper.trust_domain child.trust_domain).0 (ground arith),
        (text_eq_iff upper.tenant_id child.tenant_id).0 (ground arith),
      )

  check_hop-IsAttenuatedHop :
      (attestations : AttestationBundle) (upper child : Vaid) (now : Instant)
      → check_hop p keys attestations upper child now ≡ pass
      → IsAttenuatedHop p keys attestations now upper child
  unfolding check_hop
  check_hop-IsAttenuatedHop attestations upper child now h =
      let (tenant, h1) = require_pass _ _ _ h in
      let (scope, h2) = require_pass _ _ _ h1 in
      let (caps, h3) = require_pass _ _ _ h2 in
      let (expiry, h4) = require_pass _ _ _ h3 in
      record {
        scope = scope;
        caps = caps;
        expiry = expiry;
        tenant = tenant_of_test upper child tenant;
        consent = λ other.
            consent_of_pass p keys (get_attestation attestations (vaid_id upper) (vaid_id child))
              upper child now (rw (key_differs upper child other) at h4);
      }

  last_step :
      (attestations : AttestationBundle) (upper child : Vaid) (now : Instant)
      → IsAttenuatedHop p keys attestations now upper child
      → (if same_key p keys upper child
          then pass
          else check_attestation p keys
              (get_attestation attestations (vaid_id upper) (vaid_id child))
              upper
              child
              now)
        ≡ pass
  unfolding same_key
  last_step attestations upper child now h =
      elim (Bool-cases (text_eq upper.kernel_key_thumbprint child.kernel_key_thumbprint)) [
        | inl same ↦ rw same
        | inr differs ↦
            let (a, found, consented) = h.consent (λ e. cc ((text_eq_iff _ _).1 e)) in
            rw (differs, found) (IsConsented-check_attestation p keys a upper child now consented)
      ]

  tenant_test :
      (attestations : AttestationBundle) (upper child : Vaid) (now : Instant)
      → IsAttenuatedHop p keys attestations now upper child
      → (not (same_key p keys upper child)
          || tenant_attenuates upper child.trust_domain child.tenant_id)
        ≡ true
  unfolding same_key tenant_attenuates
  tenant_test attestations upper child now h =
      elim (Bool-cases (text_eq upper.kernel_key_thumbprint child.kernel_key_thumbprint)) [
        | inl same ↦
            let (domain, tenant) = h.tenant ((text_eq_iff _ _).0 same) in
            rw ((text_eq_iff _ _).1 domain, (text_eq_iff _ _).1 tenant) (ground arith)
        | inr differs ↦ rw differs
      ]

  -- One round of the verifier's loop passes exactly for an attenuated hop: scope, capabilities and
  -- expiry attenuate; within one kernel key the trust domain and tenant stay; and between two keys
  -- an attestation for the hop is authentic under the parent's key, names the child's identity, is
  -- current, covers the child and stays within the parent.
  pub check_hop_iff :
      (attestations : AttestationBundle) (upper child : Vaid) (now : Instant)
      → (check_hop p keys attestations upper child now ≡ pass)
        ↔ IsAttenuatedHop p keys attestations now upper child
  unfolding check_hop
  check_hop_iff attestations upper child now = (
    check_hop-IsAttenuatedHop attestations upper child now,
    λ h. pass_of _ _ _ (tenant_test attestations upper child now h) (
        pass_of _ _ _ h.scope (
          pass_of _ _ _ h.caps
            (pass_of _ _ _ h.expiry (last_step attestations upper child now h)))),
  )

  -- A round refuses with one of the other verdicts.
  pub check_hop-ne-attenuated :
      (attestations : AttestationBundle) (upper child : Vaid) (now : Instant)
      → check_hop p keys attestations upper child now ≢ refuse attenuated
  unfolding check_hop
  check_hop-ne-attenuated attestations upper child now = ground (
    arith,
    attestation_refusal p keys (get_attestation attestations (vaid_id upper) (vaid_id child)) upper
        child now,
  )
