-- ===== src/Document.antt =====
-- The document: `Vaid` and its parts, crates/vaid-mint/src/document.rs. A `TenantId`, `AgentClass` is
-- its text.
pub mod Signing
pub mod Duplicates
pub mod Reading
pub mod Reads
pub mod Unknown
pub mod RoundTrip
pub mod Membership
pub mod Entries
pub mod Presented
pub mod Validated
pub mod Positional
use mathlib.Core.Option
use vaid.Prelude.{
  ℕ, ◌+◌, ◌-◌, ◌/◌, ◌%◌, Bool, true, false, ◌&&◌, Option, none, some, List, [], ◌∷◌, ◌++◌, Bytes,
  Text, text, text_eq, all, any, length, get_elem?, ltb, leb, ◌==◌, if◌then◌else◌,
}
use vaid.Json.{
  Json, null, uint, string, array, object, Items, Members, end, member, put, items_of, byte_items,
  text_items,
}
use vaid.Platform.{Uuid, VaidId, AgentId, Instant, Platform}
use vaid.Scope.{ScopeBoundaryEntry, scope_contains}

-- `VAID_SIG_VERSION_V4`
abbrev pub vaid_sig_version_v4 : ℕ
vaid_sig_version_v4 = 4

-- A UUID beside the text that spelled it.
pub record PresentedUuid : Type 0 where
  pub raw : Text
  pub uuid : Uuid

-- `Serialize for PresentedUuid` and `Serialize for ScopeBoundaryEntry`
abbrev pub presented_value : PresentedUuid → Json
presented_value u = string u.raw

abbrev pub entry_value : ScopeBoundaryEntry → Json
entry_value e = object (member (text "kind") (string e.kind) (member (text "value") e.value end))

abbrev pub entry_items : List ScopeBoundaryEntry → Items
entry_items es = items_of (λ e. entry_value e) es

pub record Vaid : Type 0 where
  pub sig_version : ℕ
  pub vaid_id_presented : PresentedUuid
  pub agent_id_presented : PresentedUuid
  pub agent_class : Text
  pub version : Text
  pub tenant_id : Text
  pub issued_at_presented : Text
  pub expires_at_presented : Text
  pub public_key_der : Bytes
  pub kernel_signature : Bytes
  -- absent, a present null, or a value
  pub parent_vaid_member : Option (Option PresentedUuid)
  pub scope_boundary : List ScopeBoundaryEntry
  pub lineage_hash : Text
  pub capability_set : List Text
  pub trust_domain : Text
  pub kernel_key_thumbprint : Text
  pub unknown_fields : List (Text × Json)

-- `with_kernel_signature`
abbrev pub with_kernel_signature : Vaid → Bytes → Vaid
with_kernel_signature v signature = record v { kernel_signature = signature }

abbrev pub vaid_id : Vaid → VaidId
vaid_id v = v.vaid_id_presented.uuid

abbrev pub agent_id : Vaid → AgentId
agent_id v = v.agent_id_presented.uuid

-- `None` for an absent member and for a present null alike
abbrev pub parent_of_member : Option (Option PresentedUuid) → Option VaidId
parent_of_member (some (some u)) = some u.uuid
parent_of_member _ = none

abbrev pub parent_vaid : Vaid → Option VaidId
parent_vaid v = parent_of_member v.parent_vaid_member

-- `has_capability`, through `caps_contain`
unfoldable pub caps_contain : List Text → Text → Bool
caps_contain capabilities capability = any (λ c. text_eq c capability) capabilities

unfoldable pub has_capability : Vaid → Text → Bool
has_capability v capability = caps_contain v.capability_set capability

unfoldable pub is_in_scope : Vaid → Text → Bool
is_in_scope v resource = scope_contains v.scope_boundary resource

-- Lowercase hexadecimal, as `{:x}` of a digest and `{b:02x}` of its bytes print it.
abbrev pub hex_digit : ℕ → ℕ
hex_digit d = if ltb d 10 then d + b'0' else d - 10 + b'a'

unfoldable pub to_hex : Bytes → Text
to_hex [] = []
to_hex (b ∷ bs) = hex_digit (b / 16) ∷ hex_digit (b % 16) ∷ to_hex bs

-- The derived `Serialize for Vaid`: a member for each field, the unknown ones flattened last.
abbrev pub parent_member : Option (Option PresentedUuid) → Members → Members
parent_member none rest = rest
parent_member (some none) rest = member (text "parent_vaid") null rest
parent_member (some (some u)) rest = member (text "parent_vaid") (presented_value u) rest

abbrev pub put_all : List (Text × Json) → Members → Members
put_all [] m = m
put_all ((k, v) ∷ rest) m = put_all rest (put k v m)

unfoldable pub known_members : Vaid → Members
known_members v = member (text "sig_version") (uint v.sig_version) (
    member (text "vaid_id") (presented_value v.vaid_id_presented) (
      member (text "agent_id") (presented_value v.agent_id_presented) (
        member (text "agent_class") (string v.agent_class) (
          member (text "version") (string v.version) (
            member (text "tenant_id") (string v.tenant_id) (
              member (text "issued_at") (string v.issued_at_presented) (
                member (text "expires_at") (string v.expires_at_presented) (
                  member (text "public_key_der") (array (byte_items v.public_key_der)) (
                    member (text "kernel_signature") (array (byte_items v.kernel_signature)) (
                      parent_member v.parent_vaid_member (
                        member (text "scope_boundary") (array (entry_items v.scope_boundary)) (
                          member (text "lineage_hash") (string v.lineage_hash) (
                            member (text "capability_set") (array (text_items v.capability_set)) (
                              member (text "trust_domain") (string v.trust_domain) (
                                member (text "kernel_key_thumbprint")
                                  (string v.kernel_key_thumbprint) end)))))))))))))))

unfoldable pub to_members : Vaid → Members
unfolding known_members
to_members v = put_all v.unknown_fields (known_members v)

module _ (p : Platform) where
  abbrev is_byte : Bytes → ℕ → ℕ → Bool
  is_byte b i c = elim (get_elem? b i) [ none ↦ false | some x ↦ x == c ]

  abbrev is_digit_at : Bytes → ℕ → Bool
  is_digit_at b i = elim (get_elem? b i) [ none ↦ false | some x ↦ leb b'0' x && leb x b'9' ]

  -- `parse_rfc3339` and `format_e6`
  abbrev pub parse_rfc3339 : Text → Option Instant
  parse_rfc3339 value = p.parse_from_rfc3339 value

  abbrev pub format_e6 : Instant → Text
  format_e6 instant = p.format_seconds instant

  -- The length test stands first, so no index is out of range.
  pub is_e6_timestamp : Text → Bool
  is_e6_timestamp b =
      (length b == 20)
      && is_byte b 4 b'-'
      && is_byte b 7 b'-'
      && is_byte b 10 b'T'
      && is_byte b 13 b':'
      && is_byte b 16 b':'
      && is_byte b 19 b'Z'
      && all (λ i. is_digit_at b i)
          (0 ∷ 1 ∷ 2 ∷ 3 ∷ 5 ∷ 6 ∷ 8 ∷ 9 ∷ 11 ∷ 12 ∷ 14 ∷ 15 ∷ 17 ∷ 18 ∷ [])
      && (elim (parse_rfc3339 b) [ none ↦ false | some t ↦ true ])

  abbrev pub issued_at : Vaid → Option Instant
  issued_at v = parse_rfc3339 v.issued_at_presented

  abbrev pub expires_at : Vaid → Option Instant
  expires_at v = parse_rfc3339 v.expires_at_presented

  -- An unreadable expiry is an expired one.
  unfoldable pub is_expired_at : Vaid → Instant → Bool
  is_expired_at v now = elim (expires_at v) [ none ↦ true | some t ↦ ltb t now ]

  pub has_conforming_timestamps : Vaid → Bool
  has_conforming_timestamps v =
      is_e6_timestamp v.issued_at_presented && is_e6_timestamp v.expires_at_presented

  -- `PresentedUuid::from(uuid)`, `is_canonical`, and `Deserialize for PresentedUuid`
  abbrev pub presented : Uuid → PresentedUuid
  presented u = record { raw = p.uuid_to_string u; uuid = u }

  pub is_canonical : PresentedUuid → Bool
  is_canonical u = text_eq u.raw (p.uuid_to_string u.uuid)

  unfoldable pub presented_of_text : Text → Option PresentedUuid
  presented_of_text raw = Option.map (λ u. record { raw = raw; uuid = u }) (p.uuid_parse_str raw)

  unfoldable pub with_lineage :
      AgentId
      → Text
      → Text
      → Text
      → Instant
      → Instant
      → Bytes
      → Bytes
      → Option VaidId
      → List ScopeBoundaryEntry
      → Text
      → List Text
      → Text
      → Text
      → Vaid
  with_lineage agent class version tenant issued expires key signature parent scope hash caps domain
        thumbprint =
      record {
        sig_version = vaid_sig_version_v4;
        vaid_id_presented = presented agent;
        agent_id_presented = presented agent;
        agent_class = class;
        version = version;
        tenant_id = tenant;
        issued_at_presented = format_e6 issued;
        expires_at_presented = format_e6 expires;
        public_key_der = key;
        kernel_signature = signature;
        parent_vaid_member = some (Option.map (λ u. presented u) parent);
        scope_boundary = scope;
        lineage_hash = hash;
        capability_set = caps;
        trust_domain = domain;
        kernel_key_thumbprint = thumbprint;
        unknown_fields = [];
      }

  unfoldable pub compute_lineage_hash : Option VaidId → AgentId → Text
  compute_lineage_hash (some parent) agent =
      to_hex (p.sha256 (p.uuid_to_string parent ++ (b':' ∷ p.uuid_to_string agent)))
  compute_lineage_hash none agent = to_hex (p.sha256 (text "GENESIS:" ++ p.uuid_to_string agent))

  unfoldable pub canonical_vaid_signing_bytes : Vaid → Bytes
  unfolding to_members
  canonical_vaid_signing_bytes v =
      p.sha256 (p.jcs (object (put (text "kernel_signature") null (to_members v))))
