-- ===== src/Client.antt =====
-- The client's request signing: crates/vaid-client/src/auth.rs.
pub mod Signing
use vaid.Prelude.{ℕ, Option, none, some, List, [], ◌∷◌, Bytes, Text, Result, ok, err}
use vaid.Platform.{Platform, KeyPair, VaidId, Instant, trunc_second}
use vaid.Document.{to_hex}
use vaid.Pop.{canonical_request_signing_bytes, sign_payload}
use vaid.RequestAuth.{
  header_vaid, header_timestamp, header_nonce, header_signature, RequestAuthPayload, request_value,
}

pub data PopError : Type 0 where
  invalid_vaid nonce_failed : PopError
  signing : Text → PopError

pub record PopHeaders : Type 0 where
  pub vaid : Text
  pub timestamp : Text
  pub nonce : Text
  pub signature : Text

pub into_pairs : PopHeaders → List (Text × Text)
into_pairs h =
    (header_vaid, h.vaid)
    ∷ (header_timestamp, h.timestamp)
    ∷ (header_nonce, h.nonce)
    ∷ (header_signature, h.signature)
    ∷ []

pub record PopIdentity : Type 0 where
  pub vaid_header : Text
  pub vaid_id : VaidId
  pub tenant_id : Text

pub record RequestSigner : Type 0 where
  pub identity : PopIdentity
  pub key : KeyPair

-- A signer whose key an `OperatorSigningPort` holds, as its `sign`.
pub record PortRequestSigner : Type 0 where
  pub identity : PopIdentity
  pub sign : Bytes → Result Text Bytes

-- `read` is `serde_json::from_slice::<VaidIdentity>`, and `to_uppercase` is that of `str`.
module _ (p : Platform) (read : Bytes → Option (VaidId × Text)) (to_uppercase : Text → Text) where
  abbrev identity_of : Bytes → Option (VaidId × Text) → Result PopError PopIdentity
  identity_of vaid_json none = err invalid_vaid
  identity_of vaid_json (some (id, tenant)) =
      ok (record { vaid_header = p.base64 vaid_json; vaid_id = id; tenant_id = tenant })

  -- `PopIdentity::from_vaid_json`, `payload` and `headers`
  unfoldable pub from_vaid_json : Bytes → Result PopError PopIdentity
  from_vaid_json vaid_json = identity_of vaid_json (read vaid_json)

  abbrev pub hex_sha256 : Bytes → Text
  hex_sha256 body = to_hex (p.sha256 body)

  abbrev pub request_payload :
      PopIdentity → Text → Text → Bytes → Instant → Text → RequestAuthPayload
  request_payload identity method path body now nonce = record {
    vaid_id = identity.vaid_id;
    method = to_uppercase method;
    path = path;
    body_sha256 = hex_sha256 body;
    tenant_id = identity.tenant_id;
    timestamp = trunc_second now;
    client_nonce = nonce;
  }

  -- `to_rfc3339_opts(Secs, true)` of the whole second
  abbrev pub request_timestamp : Instant → Text
  request_timestamp now = p.format_seconds (trunc_second now)

  abbrev pub headers : PopIdentity → Text → Text → Bytes → PopHeaders
  headers identity timestamp nonce signature = record {
    vaid = identity.vaid_header;
    timestamp = timestamp;
    nonce = nonce;
    signature = p.base64 signature;
  }

  abbrev signer_of : KeyPair → Result PopError PopIdentity → Result PopError RequestSigner
  signer_of key (ok identity) = ok (record { identity = identity; key = key })
  signer_of key (err e) = err e

  -- `RequestSigner`
  unfoldable pub request_signer : Bytes → KeyPair → Result PopError RequestSigner
  request_signer vaid_json key = signer_of key (from_vaid_json vaid_json)

  unfoldable pub sign_headers_at :
      RequestSigner → Text → Text → Bytes → Instant → Text → Result PopError PopHeaders
  sign_headers_at signer method path body now nonce = ok (
      headers signer.identity (request_timestamp now) nonce (
        sign_payload p
          (request_value p (request_payload signer.identity method path body now nonce))
          signer.key))

  abbrev port_headers : PopIdentity → Text → Text → Result Text Bytes → Result PopError PopHeaders
  port_headers identity timestamp nonce (err e) = err (signing e)
  port_headers identity timestamp nonce (ok signature) =
      ok (headers identity timestamp nonce signature)

  -- `PortRequestSigner::sign_headers_at`
  unfoldable pub port_sign_headers_at :
      PortRequestSigner → Text → Text → Bytes → Instant → Text → Result PopError PopHeaders
  port_sign_headers_at signer method path body now nonce =
      port_headers signer.identity (request_timestamp now) nonce (
        signer.sign (
          canonical_request_signing_bytes p
            (request_value p (request_payload signer.identity method path body now nonce))))
