-- ===== src/Chain/Consents.antt =====
-- Consent to a hop that crosses kernel keys, and the rounds of the verifier's loop.
use vaid.Prelude.{
  ◌≡◌, ◌≢◌, refl, Bool, true, false, ◌&&◌, Option, none, some, Bytes, text_eq_iff, arith, &&-split,
}
use vaid.Platform.{Platform, Instant}
use vaid.Document.{Vaid}
use vaid.Attenuation.{
  scope_attenuates, scope_attenuates_within, caps_attenuate, caps_attenuate_within,
}
use vaid.Attestation.{ConsentAttestation, is_current, verify_attestation_authenticity}
use vaid.Chain.{
  ChainVerification, attenuated, KernelKeyResolver, Hop, pass, refuse, ◌>>◌, require,
  require_current, key_verifies, check_attestation,
}

-- Consent to a hop that crosses kernel keys: an attestation by the parent's issuer, naming the
-- child's domain and tenant, verified under the parent's key, in its window, and wedged between
-- the parent's authority and the child's.
pub record IsConsented (p : Platform) (keys : KernelKeyResolver) (a : ConsentAttestation)
    (upper child : Vaid) (now : Instant) : Type 0 where
  pub by_issuer : a.kernel_key_thumbprint ≡ upper.kernel_key_thumbprint
  pub by_domain : a.trust_domain ≡ upper.trust_domain
  pub to_domain : a.child_trust_domain ≡ child.trust_domain
  pub to_tenant : a.child_tenant_id ≡ child.tenant_id
  pub key : Bytes
  pub key_known : keys a.kernel_key_thumbprint ≡ some key
  pub verified : verify_attestation_authenticity p key a ≡ true
  pub current : is_current a now ≡ some true
  pub scope_granted : scope_attenuates_within a.scope_boundary child.scope_boundary ≡ true
  pub caps_granted : caps_attenuate_within a.capability_set child.capability_set ≡ true
  pub scope_held : scope_attenuates upper a.scope_boundary ≡ true
  pub caps_held : caps_attenuate upper a.capability_set ≡ true

pub require_pass :
    (b : Bool) (v : ChainVerification) (next : Hop)
    → (require b v >> next) ≡ pass
    → (b ≡ true) × (next ≡ pass)
require_pass true v next h = (refl, h)
require_pass false v next h = cc

pub require_last : (b : Bool) (v : ChainVerification) → require b v ≡ pass → b ≡ true
require_last true v h = refl
require_last false v h = cc

pub current_pass :
    (o : Option Bool) (next : Hop)
    → (require_current o >> next) ≡ pass
    → (o ≡ some true) × (next ≡ pass)
current_pass none next h = cc
current_pass (some true) next h = (refl, h)
current_pass (some false) next h = cc

pub pass_of :
    (b : Bool) (v : ChainVerification) (next : Hop)
    → b ≡ true
    → next ≡ pass
    → (require b v >> next) ≡ pass
pass_of true v next e h = h
pass_of false v next e h = cc

pub pass_of_last : (b : Bool) (v : ChainVerification) → b ≡ true → require b v ≡ pass
pass_of_last b v e = rw e

pub pass_of_current :
    (o : Option Bool) (next : Hop)
    → o ≡ some true
    → next ≡ pass
    → (require_current o >> next) ≡ pass
pass_of_current o next e h = rw e h

pub both : (a b : Bool) → a ≡ true → b ≡ true → (a && b) ≡ true
both a b h k = ground arith

module _ (p : Platform) (keys : KernelKeyResolver) where
  key_of_verifies :
      (o : Option Bytes) (a : ConsentAttestation)
      → key_verifies p keys o a ≡ true
      → (key : Bytes) × (o ≡ some key) × (verify_attestation_authenticity p key a ≡ true)
  key_of_verifies none a h = cc
  key_of_verifies (some key) a h = (key, refl, h)

  verifies_of_key :
      (o : Option Bytes) (a : ConsentAttestation) (key : Bytes)
      → o ≡ some key
      → verify_attestation_authenticity p key a ≡ true
      → key_verifies p keys o a ≡ true
  verifies_of_key o a key e h = rw e h

  check_attestation-IsConsented :
      (a : ConsentAttestation) (upper child : Vaid) (now : Instant)
      → check_attestation p keys (some a) upper child now ≡ pass
      → IsConsented p keys a upper child now
  unfolding check_attestation
  check_attestation-IsConsented a upper child now h =
      let (issuer, h1) = require_pass _ _ _ h in
      let (names, h2) = require_pass _ _ _ h1 in
      let (signed, h3) = require_pass _ _ _ h2 in
      let (window, h4) = current_pass _ _ h3 in
      let (granted, h5) = require_pass _ _ _ h4 in
      let held = require_last _ _ h5 in
      let (by_issuer, by_domain) = &&-split _ _ issuer in
      let (to_domain, to_tenant) = &&-split _ _ names in
      let (key, known, verified) = key_of_verifies (keys a.kernel_key_thumbprint) a signed in
      let (scope_granted, caps_granted) = &&-split _ _ granted in
      let (scope_held, caps_held) = &&-split _ _ held in
      record {
        by_issuer = (text_eq_iff _ _).0 by_issuer;
        by_domain = (text_eq_iff _ _).0 by_domain;
        to_domain = (text_eq_iff _ _).0 to_domain;
        to_tenant = (text_eq_iff _ _).0 to_tenant;
        key = key;
        key_known = known;
        verified = verified;
        current = window;
        scope_granted = scope_granted;
        caps_granted = caps_granted;
        scope_held = scope_held;
        caps_held = caps_held;
      }

  pub consent_of_pass :
      (o : Option ConsentAttestation) (upper child : Vaid) (now : Instant)
      → check_attestation p keys o upper child now ≡ pass
      → (a : ConsentAttestation) × (o ≡ some a) × IsConsented p keys a upper child now
  unfolding check_attestation
  consent_of_pass none upper child now h = cc
  consent_of_pass (some a) upper child now h =
      (a, refl, check_attestation-IsConsented a upper child now h)

  pub IsConsented-check_attestation :
      (a : ConsentAttestation) (upper child : Vaid) (now : Instant)
      → IsConsented p keys a upper child now
      → check_attestation p keys (some a) upper child now ≡ pass
  unfolding check_attestation
  IsConsented-check_attestation a upper child now h =
      pass_of _ _ _ (both _ _ ((text_eq_iff _ _).1 h.by_issuer) ((text_eq_iff _ _).1 h.by_domain)) (
        pass_of _ _ _ (both _ _ ((text_eq_iff _ _).1 h.to_domain) ((text_eq_iff _ _).1 h.to_tenant))
          (pass_of _ _ _ (verifies_of_key _ a h.key h.key_known h.verified) (
            pass_of_current _ _ h.current (
              pass_of _ _ _ (both _ _ h.scope_granted h.caps_granted)
                (pass_of_last _ _ (both _ _ h.scope_held h.caps_held))))))

  pub attestation_refusal :
      (o : Option ConsentAttestation) (upper child : Vaid) (now : Instant)
      → check_attestation p keys o upper child now ≢ refuse attenuated
  unfolding check_attestation
  attestation_refusal none upper child now = cc
  attestation_refusal (some a) upper child now = ground arith
