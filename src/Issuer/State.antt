-- ===== src/Issuer/State.antt =====
-- The issuer's state, its construction and its constants: crates/vaid-mint/src/issuer.rs.
use vaid.Prelude.{
  ℕ, suc, ◌+◌, ◌-◌, ◌*◌, Option, none, some, List, [], Bytes, Text, leb, ltb, if◌then◌else◌, Result,
}
use vaid.Platform.{Platform, KeyPair, VaidId, AgentId, Instant, hour, instants}
use vaid.TrustDomain.{is_valid_trust_domain}
use vaid.Scope.{ScopeBoundaryEntry}
use vaid.Document.{parse_rfc3339}
use vaid.Revocation.{
  RevocationStatus, LineageResolver, RevocationList, new_list, assume_nothing_revoked, revoke,
  LineageMap, clear_lineage_map,
}
use vaid.Errors.{
  unauthorized, identity, unreadable_not_after, malformed_domain, key_parse_failed,
  kernel_key_generation_failed, Outcome, done, failed, panicked,
}

-- An `i64`; `negsuc n` is -(n + 1).
pub data ℤ : Type 0 where
  pos : ℕ → ℤ
  negsuc : ℕ → ℤ

-- A `RevocationBackend`: the deployment's revocation check and lineage store, over its own state.
pub record RevocationBackend (S : Type 0) : Type 0 where
  pub check : S → List VaidId → RevocationStatus
  pub resolve : S → LineageResolver
  pub try_record : VaidId → Option VaidId → S → Result Text (Unit {0}) × S

-- Whether an issuer's store is its own default or the injected one.
pub data Source : Type 0 where
  own injected : Source

pub record ReferenceIssuer (S : Type 0) : Type 0 where
  pub kernel_key_pair : KeyPair
  pub vaid_ttl_hours : ℤ
  pub trust_domain : Text
  pub lineage_source : Source
  pub revocation_source : Source
  pub default_lineage : LineageMap
  pub default_store : RevocationList
  pub backend_state : S

-- The arguments that both `issue_vaid_…` methods take.
pub record IssueArgs : Type 0 where
  pub agent_class : Text
  pub version : Text
  pub tenant_id : Text
  pub parent_vaid : Option VaidId
  pub scope_boundary : List ScopeBoundaryEntry
  pub capability_set : List Text
  pub not_after : Option Text

-- What a call reads from outside: the clock, a fresh UUID, a fresh agent key if one is generated.
pub record Fresh : Type 0 where
  pub now : Instant
  pub agent_id : AgentId
  pub agent_pkcs8 : Option Bytes

-- `now + Duration::hours(ttl)`; `none` is chrono's panic on overflow.
unfoldable pub add_hours : Instant → ℤ → Option Instant
add_hours now (pos n) = if ltb (now + n * hour) instants then some (now + n * hour) else none
add_hours now (negsuc n) = if leb (suc n * hour) now then some (now - suc n * hour) else none

abbrev pub or_panic : {A : Type 0} → Option A → Outcome A
or_panic none = panicked
or_panic (some a) = done a

abbrev pub min_instant : Instant → Instant → Instant
min_instant a b = if leb a b then a else b

module _ (p : Platform) where
  -- `expires.min(cap)`, where a ceiling is given
  abbrev pub bounded_by : Text → Option Instant → Instant → Outcome Instant
  bounded_by ceiling none expires = failed (unauthorized (unreadable_not_after ceiling))
  bounded_by ceiling (some cap) expires = done (min_instant expires cap)

  unfoldable pub bound_expiry : Option Text → Instant → Outcome Instant
  bound_expiry none expires = done expires
  bound_expiry (some ceiling) expires = bounded_by ceiling (parse_rfc3339 p ceiling) expires

  -- `checked_trust_domain`, `from_pkcs8`, `from_seed` and `with_key`
  unfoldable pub checked_trust_domain : Text → Outcome Text
  checked_trust_domain d =
      if is_valid_trust_domain d then done d else failed (identity (malformed_domain d))

  abbrev pub with_key : {S : Type 0} → S → KeyPair → ℤ → Text → ReferenceIssuer S
  with_key s key ttl d = record {
    kernel_key_pair = key;
    vaid_ttl_hours = ttl;
    trust_domain = d;
    lineage_source = own;
    revocation_source = own;
    default_lineage = [];
    default_store = new_list;
    backend_state = s;
  }

  abbrev pub keyed : {S : Type 0} → S → Option KeyPair → ℤ → Text → Outcome (ReferenceIssuer S)
  keyed s none ttl d = failed (identity key_parse_failed)
  keyed s (some key) ttl d = done (with_key s key ttl d)

  abbrev pub checked :
      {S : Type 0} → S → Option KeyPair → ℤ → Outcome Text → Outcome (ReferenceIssuer S)
  checked s key ttl (done d) = keyed s key ttl d
  checked s key ttl (failed e) = failed e
  checked s key ttl panicked = panicked

  unfoldable pub from_pkcs8 : {S : Type 0} → S → Bytes → ℤ → Text → Outcome (ReferenceIssuer S)
  unfolding checked_trust_domain
  from_pkcs8 s pkcs8 ttl d = checked s (p.key_of_pkcs8 pkcs8) ttl (checked_trust_domain d)

  -- `ephemeral`, on the key that `generate_pkcs8` draws, or none
  unfoldable pub ephemeral :
      {S : Type 0} → S → Option Bytes → ℤ → Text → Outcome (ReferenceIssuer S)
  unfolding from_pkcs8
  ephemeral s none ttl d = failed (identity kernel_key_generation_failed)
  ephemeral s (some pkcs8) ttl d = from_pkcs8 s pkcs8 ttl d

  unfoldable pub from_seed : {S : Type 0} → S → Bytes → ℤ → Text → Outcome (ReferenceIssuer S)
  unfolding checked_trust_domain
  from_seed s seed ttl d = checked s (p.key_of_seed seed) ttl (checked_trust_domain d)

module _ {S : Type 0} where
  -- `with_revocation_backend` and `assuming_nothing_revoked`
  abbrev pub with_revocation_backend : S → ReferenceIssuer S → ReferenceIssuer S
  with_revocation_backend s i = record i {
    revocation_source = injected;
    lineage_source = injected;
    backend_state = s;
  }

  abbrev pub assuming_nothing_revoked : ReferenceIssuer S → ReferenceIssuer S
  assuming_nothing_revoked i = record i {
    revocation_source = own;
    default_store = assume_nothing_revoked;
  }

  -- `revoke` and `clear_lineage` reach the issuer's own stores only.
  abbrev pub revoke_issued : VaidId → ReferenceIssuer S → ReferenceIssuer S
  revoke_issued id i = record i { default_store = revoke id i.default_store }

  abbrev pub clear_lineage : ReferenceIssuer S → ReferenceIssuer S
  clear_lineage i = record i { default_lineage = clear_lineage_map i.default_lineage }
