-- ===== src/Completion.antt =====
-- Completion records: crates/vaid-pop/src/request_completion.rs.
pub mod RoundTrip
use vaid.Prelude.{Option, none, some, List, [], ◌∷◌, Text, text, text_eq, if◌then◌else◌}
use vaid.Json.{Json, string, array, object, Items, nil, item, Members, end, member, as_str}
use vaid.Json.Reading.{◌>>=◌, named_fields, read_member}
use vaid.Platform.{Platform, VaidId, Instant}

pub data AssuranceTier : Type 0 where
  self_reported counter_signed third_party_attested : AssuranceTier

-- The strings of `#[serde(rename_all = "camelCase")]`
unfoldable pub tier_text : AssuranceTier → Text
tier_text self_reported = text "selfReported"
tier_text counter_signed = text "counterSigned"
tier_text third_party_attested = text "thirdPartyAttested"

unfoldable pub tier_of_text : Text → Option AssuranceTier
tier_of_text t =
    if text_eq t (text "selfReported")
    then some self_reported
    else if text_eq t (text "counterSigned")
    then some counter_signed
    else if text_eq t (text "thirdPartyAttested")
    then some third_party_attested
    else none

pub record CompletionRecord : Type 0 where
  pub vaid_id : VaidId
  pub request_digest_sha256 : Text
  pub tenant_id : Text
  pub status : Text
  pub result_sha256 : Text
  pub completed_at : Instant
  pub signer_vaid_id : VaidId
  pub assurance_tier : AssuranceTier
  pub record_nonce : Text

-- The derived `Serialize for CompletionRecord`, in camel case.
unfoldable pub completion_value : Platform → CompletionRecord → Json
unfolding tier_text
completion_value p r = object (
    member (text "vaidId") (string (p.uuid_to_string r.vaid_id)) (
      member (text "requestDigestSha256") (string r.request_digest_sha256) (
        member (text "tenantId") (string r.tenant_id) (
          member (text "status") (string r.status) (
            member (text "resultSha256") (string r.result_sha256) (
              member (text "completedAt") (string (p.datetime_to_json r.completed_at)) (
                member (text "signerVaidId") (string (p.uuid_to_string r.signer_vaid_id)) (
                  member (text "assuranceTier") (string (tier_text r.assurance_tier))
                    (member (text "recordNonce") (string r.record_nonce) end)))))))))

-- The fields in the order of the struct
abbrev field_names : List Text
field_names =
    text "vaidId"
    ∷ text "requestDigestSha256"
    ∷ text "tenantId"
    ∷ text "status"
    ∷ text "resultSha256"
    ∷ text "completedAt"
    ∷ text "signerVaidId"
    ∷ text "assuranceTier"
    ∷ text "recordNonce"
    ∷ []

-- `read_datetime` is chrono's `Deserialize` of a `DateTime<Utc>`, from its text.
module _ (p : Platform) (read_datetime : Text → Option Instant) where
  abbrev pub read_id : Json → Option VaidId
  read_id j = as_str j >>= λ t. p.uuid_parse_str t

  abbrev pub read_instant : Json → Option Instant
  read_instant j = as_str j >>= read_datetime

  abbrev pub read_tier : Json → Option AssuranceTier
  read_tier j = as_str j >>= tier_of_text

  -- The derived `Deserialize for CompletionRecord`
  unfoldable pub read_completion_members : Members → Option CompletionRecord
  read_completion_members m = do
    vaid_id ← read_member read_id (text "vaidId") m
    request_digest_sha256 ← read_member as_str (text "requestDigestSha256") m
    tenant_id ← read_member as_str (text "tenantId") m
    status ← read_member as_str (text "status") m
    result_sha256 ← read_member as_str (text "resultSha256") m
    completed_at ← read_member read_instant (text "completedAt") m
    signer_vaid_id ← read_member read_id (text "signerVaidId") m
    assurance_tier ← read_member read_tier (text "assuranceTier") m
    record_nonce ← read_member as_str (text "recordNonce") m
    some (record {
      vaid_id = vaid_id;
      request_digest_sha256 = request_digest_sha256;
      tenant_id = tenant_id;
      status = status;
      result_sha256 = result_sha256;
      completed_at = completed_at;
      signer_vaid_id = signer_vaid_id;
      assurance_tier = assurance_tier;
      record_nonce = record_nonce;
    })

  unfoldable pub read_completion : Json → Option CompletionRecord
  unfolding read_completion_members
  read_completion (object m) = read_completion_members m
  read_completion (array items) = named_fields field_names items >>= read_completion_members
  read_completion _ = none
