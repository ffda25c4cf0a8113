-- ===== src/Mint/State.antt =====
-- The ports and the state of a mint service, and what it takes from a seed: crates/vaid-mint/src/mint.rs.
use vaid.Prelude.{
  ℕ, ◌+◌, ◌-◌, ◌/◌, Bool, false, Option, none, some, List, Bytes, Text, length, ltb, ◌==◌,
  if◌then◌else◌, text_key, contains, add,
}
use vaid.Json.{Json}
use vaid.Platform.{VaidId, Instant, second}
use vaid.Document.{Vaid}
use vaid.Revocation.{LineageResolver, LineageAssembly, complete, incomplete, max_lineage_depth}
use vaid.Errors.{
  unauthorized, identity, config, depth_unknown, pop_required, nonce_replayed, byo_key_required,
  depth_below_one, depth_above_bound, Outcome, done, failed, panicked,
}
use vaid.Errors.Calls.{Call}
use vaid.Issuer.State.{IssueArgs}
use vaid.MintTypes.{VaidSeed, MintPop}

-- `DEFAULT_MAX_DELEGATION_DEPTH`
abbrev pub default_max_delegation_depth : ℕ
default_max_delegation_depth = 1

unfoldable pub validate_max_delegation_depth : ℕ → Outcome ℕ
validate_max_delegation_depth depth =
    if ltb depth 1
    then failed (config (depth_below_one depth))
    else if ltb max_lineage_depth depth
    then failed (config (depth_above_bound depth))
    else done depth

-- The ports of a `MintService` (`VaidIssuer`, `AuthorizationGate`, `AuditSink`) over the world that
-- they read and write.
pub record Ports (W : Type 0) : Type 0 where
  pub authorize_root_mint : VaidSeed → Call W (Unit {0})
  pub issue_vaid_with_key : IssueArgs → Bytes → Call W Vaid
  pub issue_vaid_with_lineage : IssueArgs → Call W Vaid
  pub resolve_delegation_ancestor : W → LineageResolver
  pub record_audit : Text → Json → Call W (Unit {0})

-- What a `MintService` is built from; its nonces start empty.
pub record MintService (W : Type 0) : Type 0 where
  pub ports : Ports W
  pub max_delegation_depth : ℕ

abbrev pub at_depth : {W : Type 0} → Ports W → Outcome ℕ → Outcome (MintService W)
at_depth ports (done depth) = done (record { ports = ports; max_delegation_depth = depth })
at_depth ports (failed e) = failed e
at_depth ports panicked = panicked

unfoldable pub with_max_delegation_depth : {W : Type 0} → Ports W → ℕ → Outcome (MintService W)
with_max_delegation_depth ports depth = at_depth ports (validate_max_delegation_depth depth)

-- `.expect(…)`
abbrev pub expected : {A : Type 0} → Outcome A → Outcome A
expected (done a) = done a
expected _ = panicked

unfoldable pub with_authorization : {W : Type 0} → Ports W → Outcome (MintService W)
with_authorization ports = expected (with_max_delegation_depth ports default_max_delegation_depth)

-- What a `MintService` keeps: the consumed nonces, and the world behind its ports.
pub record MintState (W : Type 0) : Type 0 where
  pub consumed_pop_nonces : List Text
  pub world : W

abbrev pub in_world : {W A : Type 0} → Call W A → Call (MintState W) A
in_world m s = let (o, w) = m s.world in (o, record s { world = w })

abbrev pub distance : Instant → Instant → ℕ
distance a b = (a - b) + (b - a)

-- The seconds of `(Utc::now() - issued_at).num_seconds().abs()`
abbrev pub skew_seconds : Instant → Instant → ℕ
skew_seconds now issued = distance now issued / second

abbrev pub key_of_seed : VaidSeed → Outcome Bytes
key_of_seed seed = elim seed.public_key_der [
  | none ↦ failed (identity byo_key_required)
  | some key ↦ done key
]

abbrev pub presented_pop : Option MintPop → Outcome MintPop
presented_pop none = failed (identity pop_required)
presented_pop (some pop) = done pop

abbrev pub args_of_seed : VaidSeed → Option Text → IssueArgs
args_of_seed seed ceiling = record {
  agent_class = seed.agent_class;
  version = seed.version;
  tenant_id = seed.tenant_id;
  parent_vaid = seed.parent_vaid;
  scope_boundary = seed.scope_boundary;
  capability_set = seed.capability_set;
  not_after = ceiling;
}

-- `seed.parent_vaid == Some(id)`
abbrev pub names_parent : Option VaidId → VaidId → Bool
names_parent none id = false
names_parent (some upper) id = upper == id

abbrev pub depth_of : LineageAssembly → Outcome ℕ
depth_of incomplete = failed (unauthorized depth_unknown)
depth_of (complete chain) = done (length chain - 1)

-- `HashSet::insert` of the nonce, which answers whether it was new.
abbrev pub consume_nonce : {W : Type 0} → Text → Call (MintState W) (Unit {0})
consume_nonce nonce s =
    if contains nonce s.consumed_pop_nonces
    then (failed (identity nonce_replayed), s)
    else (done tt, record s { consumed_pop_nonces = add nonce s.consumed_pop_nonces })
