-- ===== src/Verify.antt =====
-- Offline verification: crates/vaid-mint/src/verify.rs. The caller's clock is an argument.
pub mod Graded
pub mod Standing
pub mod FromJson
use vaid.Prelude.{
  ℕ, ◌≡◌, Bool, true, false, ◌&&◌, not, Option, none, some, List, [], ◌∷◌, Bytes, Text, text,
  text_eq, ◌==◌, if◌then◌else◌, Result, ok, err,
}
use vaid.Platform.{Platform, Instant}
use vaid.TrustDomain.{is_valid_trust_domain, kernel_key_thumbprint}
use vaid.Scope.{boundary_is_evaluable}
use vaid.Document.Duplicates.{has_duplicate_member_names}
use vaid.Document.{
  Vaid, vaid_sig_version_v4, agent_id, parent_vaid, compute_lineage_hash,
  canonical_vaid_signing_bytes, is_expired_at,
}
use vaid.Revocation.{RevocationStatus, not_revoked, revoked, unavailable}

pub data VaidVerdict : Type 0 where
  valid unparseable unsupported_sig_version malformed_trust_domain issuer_mismatch : VaidVerdict
  lineage_inconsistent inauthentic expired unknown_scope_kind has_been_revoked indeterminate :
      VaidVerdict

-- `VaidVerdict::ALL`
abbrev pub all_verdicts : List VaidVerdict
all_verdicts =
    valid ∷ unparseable ∷ unsupported_sig_version ∷ malformed_trust_domain ∷ issuer_mismatch
    ∷ lineage_inconsistent ∷ inauthentic ∷ expired ∷ unknown_scope_kind ∷ has_been_revoked
    ∷ indeterminate ∷ []

unfoldable pub is_valid : VaidVerdict → Bool
is_valid valid = true
is_valid _ = false

unfoldable pub verdict_code : VaidVerdict → Text
verdict_code valid = text "valid"
verdict_code unparseable = text "unparseable"
verdict_code unsupported_sig_version = text "unsupported_sig_version"
verdict_code malformed_trust_domain = text "malformed_trust_domain"
verdict_code issuer_mismatch = text "issuer_mismatch"
verdict_code lineage_inconsistent = text "lineage_inconsistent"
verdict_code inauthentic = text "inauthentic"
verdict_code expired = text "expired"
verdict_code unknown_scope_kind = text "unknown_scope_kind"
verdict_code has_been_revoked = text "revoked"
verdict_code indeterminate = text "indeterminate"

-- The arms of the `match` in `from_code`, in their order.
abbrev pub code_arms : List (Text × VaidVerdict)
code_arms =
    (text "valid", valid)
    ∷ (text "unparseable", unparseable)
    ∷ (text "unsupported_sig_version", unsupported_sig_version)
    ∷ (text "malformed_trust_domain", malformed_trust_domain)
    ∷ (text "issuer_mismatch", issuer_mismatch)
    ∷ (text "lineage_inconsistent", lineage_inconsistent)
    ∷ (text "inauthentic", inauthentic)
    ∷ (text "expired", expired)
    ∷ (text "unknown_scope_kind", unknown_scope_kind)
    ∷ (text "revoked", has_been_revoked)
    ∷ (text "indeterminate", indeterminate)
    ∷ []

abbrev pub first_arm : Text → List (Text × VaidVerdict) → Option VaidVerdict
first_arm code [] = none
first_arm code ((arm, verdict) ∷ rest) =
    if text_eq arm code then some verdict else first_arm code rest

unfoldable pub from_code : Text → Option VaidVerdict
from_code code = first_arm code code_arms

pub record ExpectedCaller : Type 0 where
  pub agent_id : Option Text
  pub agent_class : Option Text
  pub tenant_id : Option Text

-- `ExpectedCaller::none`
abbrev pub any_caller : ExpectedCaller
any_caller = record { agent_id = none; agent_class = none; tenant_id = none }

abbrev pub agrees : Option Text → Text → Bool
agrees none actual = true
agrees (some expected) actual = text_eq expected actual

pub data CallerMismatchError : Type 0 where
  caller_mismatch : CallerMismatchError

module _ (p : Platform) where
  unfoldable pub verify_lineage_hash : Vaid → Bool
  verify_lineage_hash v =
      text_eq (compute_lineage_hash p (parent_vaid v) (agent_id v)) v.lineage_hash

  unfoldable pub verify_vaid_authenticity_graded : Bytes → Vaid → VaidVerdict
  verify_vaid_authenticity_graded key v =
      if not (v.sig_version == vaid_sig_version_v4)
      then unsupported_sig_version
      else if not (is_valid_trust_domain v.trust_domain)
      then malformed_trust_domain
      else if not (text_eq v.kernel_key_thumbprint (kernel_key_thumbprint p key))
      then issuer_mismatch
      else if not (verify_lineage_hash v)
      then lineage_inconsistent
      else if not (p.ed25519_verify key (canonical_vaid_signing_bytes p v) v.kernel_signature)
      then inauthentic
      else valid

  unfoldable pub verify_vaid_authenticity : Bytes → Vaid → Bool
  unfolding is_valid
  verify_vaid_authenticity key v = is_valid (verify_vaid_authenticity_graded key v)

  abbrev standing_of_status : RevocationStatus → VaidVerdict
  standing_of_status not_revoked = valid
  standing_of_status revoked = has_been_revoked
  standing_of_status unavailable = indeterminate

  unfoldable pub verify_vaid_standing : Bytes → Vaid → RevocationStatus → Instant → VaidVerdict
  unfolding is_valid
  verify_vaid_standing key v revocation now =
      let authenticity = verify_vaid_authenticity_graded key v in
      if not (is_valid authenticity)
      then authenticity
      else if is_expired_at p v now
      then expired
      else if not (boundary_is_evaluable v.scope_boundary)
      then unknown_scope_kind
      else standing_of_status revocation

  unfoldable pub matches : ExpectedCaller → Vaid → Bool
  matches expected v =
      agrees expected.agent_id (p.uuid_to_string (agent_id v))
      && agrees expected.agent_class v.agent_class
      && agrees expected.tenant_id v.tenant_id

  unfoldable pub verify_vaid_standing_bound :
      Bytes
      → Vaid
      → RevocationStatus
      → ExpectedCaller
      → Instant
      → Result CallerMismatchError VaidVerdict
  unfolding is_valid
  verify_vaid_standing_bound key v revocation expected now =
      let verdict = verify_vaid_standing key v revocation now in
      if is_valid verdict && not (matches expected v) then err caller_mismatch else ok verdict

  -- The entry points that start from a document's text. `parse` is `serde_json::from_str::<Vaid>`.
  module _ (parse : Text → Option Vaid) where
    unfoldable pub verify_vaid_standing_from_json :
        Bytes → Text → RevocationStatus → Instant → VaidVerdict
    verify_vaid_standing_from_json key document_json revocation now =
        if has_duplicate_member_names document_json
        then unparseable
        else elim (parse document_json) [
          | none ↦ unparseable
          | some v ↦ verify_vaid_standing key v revocation now
        ]

    unfoldable pub verify_vaid_standing_bound_from_json :
        Bytes
        → Text
        → RevocationStatus
        → ExpectedCaller
        → Instant
        → Result CallerMismatchError VaidVerdict
    verify_vaid_standing_bound_from_json key document_json revocation expected now =
        if has_duplicate_member_names document_json
        then ok unparseable
        else elim (parse document_json) [
          | none ↦ ok unparseable
          | some v ↦ verify_vaid_standing_bound key v revocation expected now
        ]
