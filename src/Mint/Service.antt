-- ===== src/Mint/Service.antt =====
-- The depths that a mint service can be built for.
use vaid.Prelude.{ℕ, ◌≤◌, ◌≡◌, ◌≢◌, refl, ◌∙◌, ◌↔◌, List, length, arith}
use vaid.Platform.{Platform, Instant, VaidId}
use vaid.Document.{Vaid, vaid_id, parent_vaid}
use vaid.Revocation.{LineageAssembly, complete, incomplete, assemble_lineage}
use vaid.Revocation.Ancestry.{resolution}
use vaid.Revocation.Descent.{assemble_lineage-too_deep}
use vaid.Errors.{Outcome, done, failed, panicked}
use vaid.MintTypes.{VaidSeed}
use vaid.Mint.State.{
  Ports, at_depth, MintService, MintState, validate_max_delegation_depth, with_max_delegation_depth,
  with_authorization,
}
use vaid.Mint.{check_child}
use vaid.Mint.Delegation.{MayDelegate, check_child_iff}

validate_max_delegation_depth_iff :
    (depth d : ℕ)
    → (validate_max_delegation_depth depth ≡ done d) ↔ ((depth ≡ d) × (1 ≤ depth) × (depth ≤ 1024))
unfolding validate_max_delegation_depth
validate_max_delegation_depth_iff depth d = ground arith

module _ {W : Type 0} (ports : Ports W) where
  at_depth-done :
      (o : Outcome ℕ) (service : MintService W)
      → at_depth ports o ≡ done service
      → (d : ℕ) × (o ≡ done d) × (service ≡ record { ports = ports; max_delegation_depth = d })
  at_depth-done (done d) service h = (d, refl, cc)
  at_depth-done (failed e) service h = cc
  at_depth-done panicked service h = cc

  service_of_done :
      (depth : ℕ) (service : MintService W)
      → with_max_delegation_depth ports depth ≡ done service
      → (service ≡ record { ports = ports; max_delegation_depth = depth })
        × (1 ≤ depth)
        × (depth ≤ 1024)
  unfolding with_max_delegation_depth
  service_of_done depth service h =
      let (d, checked, made) = at_depth-done (validate_max_delegation_depth depth) service h in
      let (same, low, high) = (validate_max_delegation_depth_iff depth d).0 checked in
      (rw same made, low, high)

  service_done :
      (depth : ℕ)
      → 1 ≤ depth
      → depth ≤ 1024
      → with_max_delegation_depth ports depth
        ≡ done (record { ports = ports; max_delegation_depth = depth })
  unfolding with_max_delegation_depth
  service_done depth low high =
      rw ((validate_max_delegation_depth_iff depth depth).1 (refl, low, high)) refl

  -- A service is built with a given maximum depth exactly if that is from 1 to 1024, and then it
  -- has the given ports and that maximum.
  pub with_max_delegation_depth_iff :
      (depth : ℕ) (service : MintService W)
      → (with_max_delegation_depth ports depth ≡ done service) ↔ (
          (service ≡ record { ports = ports; max_delegation_depth = depth })
          × (1 ≤ depth)
          × (depth ≤ 1024))
  with_max_delegation_depth_iff depth service =
      (service_of_done depth service, λ h. rw (h.0) (service_done depth h.1 h.2))

  -- The constructors that take the default depth never panic.
  with_authorization-done :
      with_authorization ports ≡ done (record { ports = ports; max_delegation_depth = 1 })
  unfolding with_authorization
  with_authorization-done = rw (service_done 1 (omega arith) (omega arith)) refl

incomplete_of : (a : LineageAssembly) → ((ids : List VaidId) → a ≢ complete ids) → a ≡ incomplete
incomplete_of (complete ids) h = absurd (h ids refl)
incomplete_of incomplete h = refl

module _ {W : Type 0} (p : Platform) (ports : Ports W) where
  -- A service of the maximum depth 1024 can be built. Where a parent's ancestry has 1024 entries, the
  -- resolver knows the parent's own parent, and the seed and the parent meet the other conditions of
  -- a delegation, the checks of a child mint by that service pass; and a document that names the
  -- seed's parent has no assembled lineage.
  pub MayDelegate-too_deep :
      (seed : VaidSeed) (upper child : Vaid) (now : Instant) (s : MintState W)
      → (may : MayDelegate p ports 1024 seed upper now s) → length may.ancestry ≡ 1024
      → ports.resolve_delegation_ancestor s.world (vaid_id upper) ≡ resolution (parent_vaid upper)
      → parent_vaid child ≡ seed.parent_vaid
      → (with_max_delegation_depth ports 1024
          ≡ done (record { ports = ports; max_delegation_depth = 1024 }))
        × (check_child p ports 1024 seed upper now s ≡ (done tt, s))
        × (assemble_lineage child (ports.resolve_delegation_ancestor s.world) ≡ incomplete)
  MayDelegate-too_deep seed upper child now s may full known names = (
    service_done ports 1024 (omega arith) (omega arith),
    (check_child_iff p ports 1024 seed upper now s).1 may,
    incomplete_of _ λ ids h.
        assemble_lineage-too_deep (ports.resolve_delegation_ancestor s.world) upper child
          may.ancestry ids (names ∙ may.names) known may.assembled full h,
  )
