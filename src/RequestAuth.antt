-- ===== src/RequestAuth.antt =====
-- The request that a client signs: crates/vaid-pop/src/request_auth.rs.
pub mod Reading
use vaid.Prelude.{Bool, Text, text, text_eq}
use vaid.Json.{Json, string, object, end, member}
use vaid.Platform.{Platform, VaidId, Instant}

-- `OPERATOR_TENANT_ID` and the header names
abbrev pub operator_tenant_id : Text
operator_tenant_id = text "synthera-control-plane"

abbrev pub header_vaid : Text
header_vaid = text "x-synthera-vaid"

abbrev pub header_timestamp : Text
header_timestamp = text "x-synthera-timestamp"

abbrev pub header_nonce : Text
header_nonce = text "x-synthera-nonce"

abbrev pub header_signature : Text
header_signature = text "x-synthera-signature"

pub record RequestAuthPayload : Type 0 where
  pub vaid_id : VaidId
  pub method : Text
  pub path : Text
  pub body_sha256 : Text
  pub tenant_id : Text
  pub timestamp : Instant
  pub client_nonce : Text

-- The derived `Serialize for RequestAuthPayload`, in camel case.
unfoldable pub request_value : Platform → RequestAuthPayload → Json
request_value p r = object (
    member (text "vaidId") (string (p.uuid_to_string r.vaid_id)) (
      member (text "method") (string r.method) (
        member (text "path") (string r.path) (
          member (text "bodySha256") (string r.body_sha256) (
            member (text "tenantId") (string r.tenant_id) (
              member (text "timestamp") (string (p.datetime_to_json r.timestamp))
                (member (text "clientNonce") (string r.client_nonce) end)))))))

pub record Principal : Type 0 where
  pub vaid_id : VaidId
  pub tenant_id : Text

pub is_operator : Principal → Bool
is_operator principal = text_eq principal.tenant_id operator_tenant_id
