-- ===== src/Verify/Standing.antt =====
-- Standing: authenticity, expiry, scope kinds and revocation, and the caller that it is bound to.
use vaid.Prelude.{
  ◌≡◌, refl, ◌∙◌, ◌↔◌, true, false, Option, none, some, Bytes, Text, text_eq_iff, arith, Bool-cases,
  inl, inr, ok,
}
use vaid.Platform.{Platform, Instant}
use vaid.Scope.{boundary_is_evaluable}
use vaid.Document.{Vaid, agent_id, is_expired_at}
use vaid.Revocation.{RevocationStatus, not_revoked}
use vaid.Verify.{
  VaidVerdict, valid, is_valid, ExpectedCaller, matches, agrees, verify_vaid_standing,
  verify_vaid_standing_bound,
}
use vaid.Verify.Graded.{IsAuthentic, is_valid_iff, verify_vaid_authenticity_graded_iff}

module _ (p : Platform) (key : Bytes) (v : Vaid) where
  -- In good standing: authentic, not expired, readable to this version, and vouched for by an
  -- available revocation store.
  pub record HasStanding (status : RevocationStatus) (now : Instant) : Type 0 where
    pub authentic : IsAuthentic p key v
    pub unexpired : is_expired_at p v now ≡ false
    pub readable : boundary_is_evaluable v.scope_boundary ≡ true
    pub vouched : status ≡ not_revoked

  standing_sound :
      (status : RevocationStatus) (now : Instant)
      → verify_vaid_standing p key v status now ≡ valid
      → HasStanding status now
  unfolding verify_vaid_standing
  standing_sound status now h = record {
    authentic = (verify_vaid_authenticity_graded_iff p key v).0 (ground arith);
    unexpired = ground arith;
    readable = ground arith;
    vouched = ground arith;
  }

  standing_complete :
      (status : RevocationStatus) (now : Instant)
      → HasStanding status now
      → verify_vaid_standing p key v status now ≡ valid
  unfolding verify_vaid_standing
  standing_complete status now h = ground (
    arith,
    (verify_vaid_authenticity_graded_iff p key v).1 h.authentic,
    h.unexpired,
    h.readable,
    h.vouched,
  )

  -- The verdict is `valid` exactly in good standing: authentic, not expired, with a scope that can
  -- be evaluated, and with a store that answers that nothing is revoked. An unavailable store and
  -- an unknown scope kind never lead to it.
  pub verify_vaid_standing_iff :
      (status : RevocationStatus) (now : Instant)
      → (verify_vaid_standing p key v status now ≡ valid) ↔ HasStanding status now
  verify_vaid_standing_iff status now = (standing_sound status now, standing_complete status now)

-- The expectation, field by field.
abbrev pub Expects : Option Text → Text → Type 0
Expects none actual = Unit
Expects (some expected) actual = expected ≡ actual

pub record IsCaller (p : Platform) (expected : ExpectedCaller) (v : Vaid) : Type 0 where
  pub agent : Expects expected.agent_id (p.uuid_to_string (agent_id v))
  pub class : Expects expected.agent_class v.agent_class
  pub tenant : Expects expected.tenant_id v.tenant_id

agrees_iff : (o : Option Text) (actual : Text) → (agrees o actual ≡ true) ↔ Expects o actual
agrees_iff none actual = ((λ _. tt), (λ _. refl))
agrees_iff (some t) actual = text_eq_iff t actual

matches_iff :
    (p : Platform) (expected : ExpectedCaller) (v : Vaid)
    → (matches p expected v ≡ true) ↔ IsCaller p expected v
unfolding matches
matches_iff p expected v =
    let agent = agrees_iff expected.agent_id (p.uuid_to_string (agent_id v)) in
    let class = agrees_iff expected.agent_class v.agent_class in
    let tenant = agrees_iff expected.tenant_id v.tenant_id in
    (
      (λ h. record {
        agent = agent.0 (ground arith);
        class = class.0 (ground arith);
        tenant = tenant.0 (ground arith);
      }),
      (λ h. ground (arith, agent.1 h.agent, class.1 h.class, tenant.1 h.tenant)),
    )

module _ (p : Platform) (key : Bytes) (v : Vaid) where
  bound_tests :
      (status : RevocationStatus) (expected : ExpectedCaller) (now : Instant)
      (verdict : VaidVerdict)
      → verify_vaid_standing_bound p key v status expected now ≡ ok verdict
      → (verdict ≡ verify_vaid_standing p key v status now)
        × (verdict ≡ valid → IsCaller p expected v)
  unfolding verify_vaid_standing_bound
  bound_tests status expected now verdict h =
      (ground arith, λ e. (matches_iff p expected v).0 (ground arith))

  bound_of_tests :
      (status : RevocationStatus) (expected : ExpectedCaller) (now : Instant)
      (verdict : VaidVerdict)
      → verdict ≡ verify_vaid_standing p key v status now
      → (verdict ≡ valid → IsCaller p expected v)
      → verify_vaid_standing_bound p key v status expected now ≡ ok verdict
  unfolding verify_vaid_standing_bound
  bound_of_tests status expected now verdict e caller =
      elim (Bool-cases (is_valid (verify_vaid_standing p key v status now))) [
        | inl passed ↦
            let is_caller = (matches_iff p expected v).1 (caller (e ∙ (is_valid_iff _).0 passed)) in
            ground arith
        | inr failed ↦ ground arith
      ]

  -- The caller-bound verdict is returned exactly if it is the standing verdict and, when that is
  -- `valid`, the document belongs to the expected caller; otherwise the call fails, and only a
  -- valid document can make it fail.
  pub verify_vaid_standing_bound_iff :
      (status : RevocationStatus) (expected : ExpectedCaller) (now : Instant)
      (verdict : VaidVerdict)
      → (verify_vaid_standing_bound p key v status expected now ≡ ok verdict) ↔ (
          (verdict ≡ verify_vaid_standing p key v status now)
          × (verdict ≡ valid → IsCaller p expected v))
  verify_vaid_standing_bound_iff status expected now verdict = (
    bound_tests status expected now verdict,
    λ h. bound_of_tests status expected now verdict h.0 h.1,
  )
