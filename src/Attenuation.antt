-- ===== src/Attenuation.antt =====
-- The attenuation predicates of crates/vaid-mint/src/mint.rs, which the mint and the chain verifier
-- share.
pub mod Authority
pub mod Order
use vaid.Prelude.{
  ℕ, ◌<◌, Bool, true, false, ◌&&◌, ◌||◌, not, Option, none, some, List, [], ◌∷◌, Text, text_eq, all,
  is_empty, leb, if◌then◌else◌,
}
use vaid.Platform.{Platform, Instant}
use vaid.Scope.{ScopeBoundaryEntry, entry_claimed_resource, boundary_is_evaluable, scope_contains}
use vaid.Document.{Vaid, caps_contain, parse_rfc3339}

pub data AttenuationReason : Type 0 where
  attenuated scope_escalation unknown_scope_kind : AttenuationReason

abbrev claims_within : List ScopeBoundaryEntry → Option Text → Bool
claims_within parent_scope none = false
claims_within parent_scope (some resource) = scope_contains parent_scope resource

unfoldable pub scope_attenuation_reason :
    List ScopeBoundaryEntry → List ScopeBoundaryEntry → AttenuationReason
scope_attenuation_reason parent_scope child_scope =
    if not (boundary_is_evaluable parent_scope) || not (boundary_is_evaluable child_scope)
    then unknown_scope_kind
    else let attenuates =
        if is_empty child_scope
        then is_empty parent_scope
        else all (λ child. claims_within parent_scope (entry_claimed_resource child)) child_scope in
      if attenuates then attenuated else scope_escalation

abbrev is_attenuated : AttenuationReason → Bool
is_attenuated attenuated = true
is_attenuated _ = false

unfoldable pub scope_attenuates_within : List ScopeBoundaryEntry → List ScopeBoundaryEntry → Bool
unfolding scope_attenuation_reason
scope_attenuates_within parent_scope child_scope =
    is_attenuated (scope_attenuation_reason parent_scope child_scope)

abbrev pub scope_attenuates : Vaid → List ScopeBoundaryEntry → Bool
scope_attenuates parent child_scope = scope_attenuates_within parent.scope_boundary child_scope

unfoldable pub tenant_attenuates : Vaid → Text → Text → Bool
tenant_attenuates parent child_trust_domain child_tenant =
    text_eq parent.trust_domain child_trust_domain && text_eq parent.tenant_id child_tenant

unfoldable pub caps_attenuate_within : List Text → List Text → Bool
caps_attenuate_within parent_caps child_caps = all (λ c. caps_contain parent_caps c) child_caps

abbrev pub caps_attenuate : Vaid → List Text → Bool
caps_attenuate parent child_caps = caps_attenuate_within parent.capability_set child_caps

-- An expiry that cannot be read on either side, or is not stated, attenuates nothing.
abbrev expiry_within : Option Instant → Option Instant → Bool
expiry_within (some parent) (some child) = leb child parent
expiry_within _ _ = false

abbrev pub and_then {ℓ κ} : {A : Type ℓ} {B : Type κ} → Option A → (A → Option B) → Option B
and_then none f = none
and_then (some a) f = f a

module _ (p : Platform) where
  unfoldable pub expiry_attenuates_within : Text → Option Text → Bool
  expiry_attenuates_within parent_expires_at child_expires_at =
      expiry_within (parse_rfc3339 p parent_expires_at)
        (and_then child_expires_at (λ t. parse_rfc3339 p t))

  abbrev pub expiry_attenuates : Vaid → Option Text → Bool
  expiry_attenuates parent child_expires_at =
      expiry_attenuates_within parent.expires_at_presented child_expires_at
