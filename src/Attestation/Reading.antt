-- ===== src/Attestation/Reading.antt =====
-- How an attestation is read from JSON: the derived `Deserialize` of crates/vaid-mint/src/attestation.rs.
-- `read_datetime` is chrono's `Deserialize` of a `DateTime<Utc>`, from its text.
use vaid.Prelude.{Option, none, some, List, [], ◌∷◌, Text, text}
use vaid.Json.{Json, array, object, Members, as_str}
use vaid.Json.Reading.{◌>>=◌, named_fields, read_u8, read_vec, read_member}
use vaid.Platform.{Platform, VaidId, Instant}
use vaid.Document.Reading.{read_entry}
use vaid.Attestation.{ConsentAttestation}

-- The fields in the order of the struct
abbrev field_names : List Text
field_names =
    text "att_version"
    ∷ text "parent_vaid"
    ∷ text "child_vaid"
    ∷ text "child_trust_domain"
    ∷ text "child_tenant_id"
    ∷ text "issued_at"
    ∷ text "expires_at"
    ∷ text "scope_boundary"
    ∷ text "capability_set"
    ∷ text "trust_domain"
    ∷ text "kernel_key_thumbprint"
    ∷ text "signature"
    ∷ []

module _ (p : Platform) (read_datetime : Text → Option Instant) where
  abbrev read_id : Json → Option VaidId
  read_id j = as_str j >>= λ t. p.uuid_parse_str t

  abbrev read_instant : Json → Option Instant
  read_instant j = as_str j >>= read_datetime

  abbrev read_attestation_members : Members → Option ConsentAttestation
  read_attestation_members m = do
    att_version ← read_member read_u8 (text "att_version") m
    parent_vaid ← read_member read_id (text "parent_vaid") m
    child_vaid ← read_member read_id (text "child_vaid") m
    child_trust_domain ← read_member as_str (text "child_trust_domain") m
    child_tenant_id ← read_member as_str (text "child_tenant_id") m
    issued_at ← read_member read_instant (text "issued_at") m
    expires_at ← read_member read_instant (text "expires_at") m
    scope_boundary ← read_member (read_vec read_entry) (text "scope_boundary") m
    capability_set ← read_member (read_vec as_str) (text "capability_set") m
    trust_domain ← read_member as_str (text "trust_domain") m
    kernel_key_thumbprint ← read_member as_str (text "kernel_key_thumbprint") m
    signature ← read_member (read_vec read_u8) (text "signature") m
    some (record {
      att_version = att_version;
      parent_vaid = parent_vaid;
      child_vaid = child_vaid;
      child_trust_domain = child_trust_domain;
      child_tenant_id = child_tenant_id;
      issued_at = issued_at;
      expires_at = expires_at;
      scope_boundary = scope_boundary;
      capability_set = capability_set;
      trust_domain = trust_domain;
      kernel_key_thumbprint = kernel_key_thumbprint;
      signature = signature;
    })

  unfoldable pub read_attestation : Json → Option ConsentAttestation
  read_attestation (object m) = read_attestation_members m
  read_attestation (array items) = named_fields field_names items >>= read_attestation_members
  read_attestation _ = none
