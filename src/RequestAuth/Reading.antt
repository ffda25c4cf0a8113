-- ===== src/RequestAuth/Reading.antt =====
-- How a request's payload is read from JSON: the derived `Deserialize` of
-- crates/vaid-pop/src/request_auth.rs. `read_datetime` is chrono's `Deserialize` of a `DateTime<Utc>`.
use vaid.Prelude.{◌≡◌, refl, Option, none, some, List, [], ◌∷◌, Text, text}
use vaid.Json.{Json, array, object, Members, as_str}
use vaid.Json.Reading.{◌>>=◌, named_fields, read_member}
use vaid.Platform.{Platform, VaidId, Instant}
use vaid.RequestAuth.{RequestAuthPayload, request_value}

-- The fields in the order of the struct
abbrev field_names : List Text
field_names =
    text "vaidId"
    ∷ text "method"
    ∷ text "path"
    ∷ text "bodySha256"
    ∷ text "tenantId"
    ∷ text "timestamp"
    ∷ text "clientNonce"
    ∷ []

module _ (p : Platform) (read_datetime : Text → Option Instant) where
  abbrev read_id : Json → Option VaidId
  read_id j = as_str j >>= λ t. p.uuid_parse_str t

  abbrev read_instant : Json → Option Instant
  read_instant j = as_str j >>= read_datetime

  abbrev read_request_members : Members → Option RequestAuthPayload
  read_request_members m = do
    vaid_id ← read_member read_id (text "vaidId") m
    method ← read_member as_str (text "method") m
    path ← read_member as_str (text "path") m
    body_sha256 ← read_member as_str (text "bodySha256") m
    tenant_id ← read_member as_str (text "tenantId") m
    timestamp ← read_member read_instant (text "timestamp") m
    client_nonce ← read_member as_str (text "clientNonce") m
    some (record {
      vaid_id = vaid_id;
      method = method;
      path = path;
      body_sha256 = body_sha256;
      tenant_id = tenant_id;
      timestamp = timestamp;
      client_nonce = client_nonce;
    })

  unfoldable pub read_request : Json → Option RequestAuthPayload
  read_request (object m) = read_request_members m
  read_request (array items) = named_fields field_names items >>= read_request_members
  read_request _ = none

  -- A payload that is written and read back is the same payload.
  pub read_request-request_value :
      ((id : VaidId) → p.uuid_parse_str (p.uuid_to_string id) ≡ some id)
      → ((t : Instant) → read_datetime (p.datetime_to_json t) ≡ some t)
      → (r : RequestAuthPayload) → read_request (request_value p r) ≡ some r
  unfolding read_request request_value
  read_request-request_value ids times r = rw (ids r.vaid_id, times r.timestamp) refl
