-- ===== src/Verify/Graded.antt =====
-- The graded verdict and its codes.
use vaid.Prelude.{
  ◌≡◌, refl, sym, ap, ◌∙◌, ◌↔◌, true, some, List, [], ◌∷◌, Bytes, Text, text_eq_iff, arith, All,
}
use vaid.Platform.{Platform}
use vaid.TrustDomain.{is_valid_trust_domain, kernel_key_thumbprint}
use vaid.Document.{Vaid, agent_id, parent_vaid, compute_lineage_hash, canonical_vaid_signing_bytes}
use vaid.Verify.{
  VaidVerdict, valid, is_valid, verdict_code, code_arms, first_arm, from_code, verify_lineage_hash,
  verify_vaid_authenticity_graded, verify_vaid_authenticity,
}

-- What makes a document authentic under a kernel key.
pub record IsAuthentic (p : Platform) (key : Bytes) (v : Vaid) : Type 0 where
  pub version : v.sig_version ≡ 4
  pub domain : is_valid_trust_domain v.trust_domain ≡ true
  pub issuer : v.kernel_key_thumbprint ≡ kernel_key_thumbprint p key
  pub lineage : v.lineage_hash ≡ compute_lineage_hash p (parent_vaid v) (agent_id v)
  pub signed : p.ed25519_verify key (canonical_vaid_signing_bytes p v) v.kernel_signature ≡ true

graded_tests :
    (p : Platform) (key : Bytes) (v : Vaid)
    → verify_vaid_authenticity_graded p key v ≡ valid
    → IsAuthentic p key v
unfolding verify_vaid_authenticity_graded verify_lineage_hash
graded_tests p key v h = record {
  version = ground arith;
  domain = ground arith;
  issuer = ground (arith, text_eq_iff v.kernel_key_thumbprint (kernel_key_thumbprint p key));
  lineage =
      ground
        (arith, text_eq_iff (compute_lineage_hash p (parent_vaid v) (agent_id v)) v.lineage_hash);
  signed = ground arith;
}

graded_valid :
    (p : Platform) (key : Bytes) (v : Vaid)
    → IsAuthentic p key v
    → verify_vaid_authenticity_graded p key v ≡ valid
unfolding verify_vaid_authenticity_graded verify_lineage_hash
graded_valid p key v h =
    let domain = h.domain in
    let signed = h.signed in
    ground (
      arith,
      h.version,
      (text_eq_iff v.kernel_key_thumbprint (kernel_key_thumbprint p key)).1 h.issuer,
      (text_eq_iff (compute_lineage_hash p (parent_vaid v) (agent_id v)) v.lineage_hash).1
          (sym h.lineage),
    )

-- The graded verdict is `valid` exactly for an authentic document: version 4, a well-formed trust
-- domain, the thumbprint of the key, a lineage hash that is recomputed from the parent and the
-- agent, and a kernel signature over the canonical bytes.
pub verify_vaid_authenticity_graded_iff :
    (p : Platform) (key : Bytes) (v : Vaid)
    → (verify_vaid_authenticity_graded p key v ≡ valid) ↔ IsAuthentic p key v
verify_vaid_authenticity_graded_iff p key v = (graded_tests p key v, graded_valid p key v)

pub is_valid_iff : (v : VaidVerdict) → (is_valid v ≡ true) ↔ (v ≡ valid)
unfolding is_valid
is_valid_iff v = ground arith

pub verify_vaid_authenticity_iff :
    (p : Platform) (key : Bytes) (v : Vaid)
    → (verify_vaid_authenticity p key v ≡ true) ↔ IsAuthentic p key v
unfolding verify_vaid_authenticity
verify_vaid_authenticity_iff p key v = (
  (λ h. graded_tests p key v ((is_valid_iff _).0 h)),
  (λ h. (is_valid_iff _).1 (graded_valid p key v h)),
)

from_code-verdict_code : (v : VaidVerdict) → from_code (verdict_code v) ≡ some v
unfolding from_code verdict_code
from_code-verdict_code valid = refl
from_code-verdict_code _ = refl

first_arm_code :
    (code : Text) (v : VaidVerdict) (arms : List (Text × VaidVerdict))
    → All (λ arm. arm.0 ≡ verdict_code arm.1) arms
    → first_arm code arms ≡ some v
    → code ≡ verdict_code v
first_arm_code code v [] each h = cc
first_arm_code code v ((c, w) ∷ arms) (same, rest) h =
    ground (arith, text_eq_iff c code, first_arm_code code v arms rest)

arms_sound : All (λ arm. arm.0 ≡ verdict_code arm.1) code_arms
unfolding verdict_code
arms_sound =
    (refl, (refl, (refl, (refl, (refl, (refl, (refl, (refl, (refl, (refl, (refl, tt)))))))))))

from_code_sound : (code : Text) (v : VaidVerdict) → from_code code ≡ some v → code ≡ verdict_code v
unfolding from_code
from_code_sound code v h = first_arm_code code v code_arms arms_sound h

-- A text reads as a verdict exactly if it is that verdict's code: every code reads back, no two
-- verdicts share one, and no other text reads as a verdict.
pub from_code_iff :
    (code : Text) (v : VaidVerdict) → (from_code code ≡ some v) ↔ (code ≡ verdict_code v)
from_code_iff code v = (from_code_sound code v, λ e. ap from_code e ∙ from_code-verdict_code v)
