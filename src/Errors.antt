-- ===== src/Errors.antt =====
-- What a call that returns `MintResult` does: crates/vaid-mint/src/error.rs. A message is a
-- constructor over the values that it prints.
pub mod Calls
use vaid.Prelude.{ℕ, Option, Text}
use vaid.Platform.{VaidId}

pub data UnauthorizedReason : Type 0 where
  no_parent depth_unknown scope_exceeds_parent caps_exceed_parent : UnauthorizedReason
  depth_exceeded : ℕ → ℕ → ℕ → UnauthorizedReason
  cross_tenant : Text → Text → UnauthorizedReason
  wrong_parent : Option VaidId → VaidId → UnauthorizedReason
  parent_expired : VaidId → Text → UnauthorizedReason
  unreadable_not_after : Text → UnauthorizedReason
  child_outlives_parent : Text → Text → UnauthorizedReason
  -- the message of a deployment's own gate or issuer
  refused : Text → UnauthorizedReason

pub data IdentityReason : Type 0 where
  pop_required nonce_replayed pop_not_verified byo_key_required : IdentityReason
  pop_stale : ℕ → IdentityReason
  malformed_domain : Text → IdentityReason
  kernel_key_generation_failed key_generation_failed key_parse_failed : IdentityReason
  other_identity : Text → IdentityReason

pub data ConfigReason : Type 0 where
  depth_below_one depth_above_bound : ℕ → ConfigReason

pub data MintError : Type 0 where
  unauthorized : UnauthorizedReason → MintError
  identity : IdentityReason → MintError
  audit : Text → MintError
  lineage : Text → MintError
  config : ConfigReason → MintError

-- It returns, it fails, or it panics.
pub data Outcome {ℓ} (A : Type ℓ) : Type ℓ where
  done : A → Outcome A
  failed : MintError → Outcome A
  panicked : Outcome A
