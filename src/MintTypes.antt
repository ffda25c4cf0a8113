-- ===== src/MintTypes.antt =====
-- The requests of a mint: crates/vaid-mint/src/mint_types.rs.
use vaid.Prelude.{Bool, Option, none, some, List, Bytes, Text, text, text_key}
use vaid.Json.{Json, null, string, array, object, end, member, byte_items, text_items}
use vaid.Platform.{Platform, VaidId, Instant}
use vaid.Scope.{ScopeBoundaryEntry}
use vaid.Document.{Vaid, entry_items}

pub record VaidSeed : Type 0 where
  pub agent_class : Text
  pub version : Text
  pub tenant_id : Text
  pub parent_vaid : Option VaidId
  pub scope_boundary : List ScopeBoundaryEntry
  pub capability_set : List Text
  pub public_key_der : Option Bytes

pub record MintPop : Type 0 where
  pub nonce : Text
  pub issued_at : Instant
  pub signature : Bytes

pub record MintVaidRequest : Type 0 where
  pub seed : VaidSeed
  pub pop : Option MintPop

pub record MintVaidResponse : Type 0 where
  pub vaid : Vaid
  pub expiry_bounded_by_parent : Bool
  pub parent_expires_at : Option Text

-- `MintPopPayload`, and `pop_payload`
pub record MintPopPayload : Type 0 where
  pub public_key_der : Bytes
  pub tenant_id : Text
  pub agent_class : Text
  pub version : Text
  pub parent_vaid : Option VaidId
  pub scope_boundary : List ScopeBoundaryEntry
  pub capability_set : List Text
  pub nonce : Text
  pub issued_at : Instant

abbrev pub pop_payload : VaidSeed → Bytes → Text → Instant → MintPopPayload
pop_payload seed key nonce issued = record {
  public_key_der = key;
  tenant_id = seed.tenant_id;
  agent_class = seed.agent_class;
  version = seed.version;
  parent_vaid = seed.parent_vaid;
  scope_boundary = seed.scope_boundary;
  capability_set = seed.capability_set;
  nonce = nonce;
  issued_at = issued;
}

module _ (p : Platform) where
  abbrev pub id_value : Option VaidId → Json
  id_value none = null
  id_value (some id) = string (p.uuid_to_string id)

  -- The derived `Serialize for MintPopPayload`, in camel case.
  unfoldable pub payload_value : MintPopPayload → Json
  payload_value m = object (
      member (text "publicKeyDer") (array (byte_items m.public_key_der)) (
        member (text "tenantId") (string m.tenant_id) (
          member (text "agentClass") (string m.agent_class) (
            member (text "version") (string m.version) (
              member (text "parentVaid") (id_value m.parent_vaid) (
                member (text "scopeBoundary") (array (entry_items m.scope_boundary)) (
                  member (text "capabilitySet") (array (text_items m.capability_set)) (
                    member (text "nonce") (string m.nonce) (
                      member (text "issuedAt") (string (p.datetime_to_json m.issued_at))
                        end)))))))))
