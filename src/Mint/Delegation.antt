-- ===== src/Mint/Delegation.antt =====
-- What `mint_child` checks before it delegates, and what it has done when it returns.
use vaid.Prelude.{
  ℕ, ◌+◌, ◌-◌, ◌≤◌, ◌≡◌, refl, ◌↔◌, Bool, true, false, not, Option, none, some, List, Text, leb,
  ==_iff, length, text_eq_iff, arith,
}
use vaid.Platform.{Platform, VaidId, Instant}
use vaid.Document.{Vaid, vaid_id, is_expired_at}
use vaid.Attenuation.{tenant_attenuates, scope_attenuates, caps_attenuate}
use vaid.Revocation.{LineageAssembly, complete, incomplete, assemble_lineage}
use vaid.Errors.{done}
use vaid.Errors.Calls.{◌>>=◌, returned, >>=-Returned, lift_pair, require-eq-done}
use vaid.MintTypes.{VaidSeed}
use vaid.Mint.{check_child}
use vaid.Mint.State.{Ports, MintState, names_parent, depth_of}

-- What the parent must be, and the seed must ask for.
pub record MayDelegate {W : Type 0} (p : Platform) (ports : Ports W) (max_depth : ℕ)
    (seed : VaidSeed) (upper : Vaid) (now : Instant) (s : MintState W) : Type 0 where
  pub ancestry : List VaidId
  pub assembled :
      assemble_lineage upper (ports.resolve_delegation_ancestor s.world) ≡ complete ancestry
  pub shallow : length ancestry - 1 + 1 ≤ max_depth
  pub tenant : upper.tenant_id ≡ seed.tenant_id
  pub names : seed.parent_vaid ≡ some (vaid_id upper)
  pub scope : scope_attenuates upper seed.scope_boundary ≡ true
  pub caps : caps_attenuate upper seed.capability_set ≡ true
  pub alive : is_expired_at p upper now ≡ false

depth-done :
    (a : LineageAssembly) (d : ℕ)
    → depth_of a ≡ done d
    → (ids : List VaidId) × (a ≡ complete ids) × (d ≡ length ids - 1)
depth-done incomplete d h = cc
depth-done (complete ids) d h = (ids, refl, cc)

names_parent_iff : (o : Option VaidId) (id : VaidId) → (names_parent o id ≡ true) ↔ (o ≡ some id)
names_parent_iff none id = ground arith
names_parent_iff (some upper) id = ground (arith, ==_iff upper id)

tenant_iff :
    (upper : Vaid) (tenant : Text)
    → (tenant_attenuates upper upper.trust_domain tenant ≡ true) ↔ (upper.tenant_id ≡ tenant)
unfolding tenant_attenuates
tenant_iff upper tenant =
    ground
      (arith, text_eq_iff upper.trust_domain upper.trust_domain, text_eq_iff upper.tenant_id tenant)

not-false : (b : Bool) → not b ≡ true → b ≡ false
not-false b h = ground arith

module _ {W : Type 0} (p : Platform) (ports : Ports W) where
  pub MayDelegate-of_done :
      (max_depth : ℕ) (seed : VaidSeed) (upper : Vaid) (now : Instant) (s s' : MintState W)
      → (u : Unit {0}) → check_child p ports max_depth seed upper now s ≡ (done u, s')
      → MayDelegate p ports max_depth seed upper now s × (s ≡ s')
  unfolding check_child
  MayDelegate-of_done max_depth seed upper now s s' u h = elim (>>=-Returned _ _ s h) [
    | returned depth s1 deep h1 ↦ elim (>>=-Returned _ _ s1 h1) [
      | returned _ s2 shallow h2 ↦ elim (>>=-Returned _ _ s2 h2) [
        | returned _ s3 tenant h3 ↦ elim (>>=-Returned _ _ s3 h3) [
          | returned _ s4 named h4 ↦ elim (>>=-Returned _ _ s4 h4) [
            | returned _ s5 scope h5 ↦ elim (>>=-Returned _ _ s5 h5) [
              | returned _ s6 caps h6 ↦
                  let (known, same0) = lift_pair _ depth deep in
                  let (ids, assembled, counted) = depth-done _ depth known in
                  let (shallow', same1) = require-eq-done _ _ _ shallow in
                  let (tenant', same2) = require-eq-done _ _ _ tenant in
                  let (named', same3) = require-eq-done _ _ _ named in
                  let (scope', same4) = require-eq-done _ _ _ scope in
                  let (caps', same5) = require-eq-done _ _ _ caps in
                  let (alive, same6) = require-eq-done _ _ _ h6 in
                  (
                    record {
                      ancestry = ids;
                      assembled = assembled;
                      shallow = ground arith;
                      tenant = (tenant_iff upper seed.tenant_id).0 tenant';
                      names = (names_parent_iff seed.parent_vaid (vaid_id upper)).0 named';
                      scope = scope';
                      caps = caps';
                      alive = not-false _ alive;
                    },
                    cc,
                  )
            ]
          ]
        ]
      ]
    ]
  ]

  check_child_passes :
      (max_depth : ℕ) (seed : VaidSeed) (upper : Vaid) (now : Instant) (s : MintState W)
      → MayDelegate p ports max_depth seed upper now s
      → check_child p ports max_depth seed upper now s ≡ (done tt, s)
  unfolding check_child ◌>>=◌
  check_child_passes max_depth seed upper now s h =
      let shallow : leb (length h.ancestry - 1 + 1) max_depth ≡ true = ground (arith, h.shallow) in
      rw
        (
          h.assembled,
          shallow,
          (tenant_iff upper seed.tenant_id).1 h.tenant,
          (names_parent_iff seed.parent_vaid (vaid_id upper)).1 h.names,
          h.scope,
          h.caps,
          h.alive,
        )
        refl

  -- The checks of `mint_child` that precede the proof of possession pass, and change nothing,
  -- exactly if the parent's ancestry is known and the child would not be deeper than the mint's
  -- maximum, the tenant is the parent's, the seed names the parent, scope and capabilities
  -- attenuate, and the parent has not expired.
  pub check_child_iff :
      (max_depth : ℕ) (seed : VaidSeed) (upper : Vaid) (now : Instant) (s : MintState W)
      → (check_child p ports max_depth seed upper now s ≡ (done tt, s))
        ↔ MayDelegate p ports max_depth seed upper now s
  check_child_iff max_depth seed upper now s = (
    λ h. (MayDelegate-of_done max_depth seed upper now s s tt h).0,
    check_child_passes max_depth seed upper now s,
  )
