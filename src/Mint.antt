-- ===== src/Mint.antt =====
-- The mint service: the `MintService` half of crates/vaid-mint/src/mint.rs.
pub mod State
pub mod Possession
pub mod Delegation
pub mod Minting
pub mod Returning
pub mod Serving
pub mod Nonces
pub mod Reference
pub mod Delivered
pub mod Service
pub mod Rooting
use mathlib.Core.Option
use vaid.Prelude.{
  ℕ, suc, ◌+◌, ◌-◌, ◌/◌, Bool, true, false, not, Option, none, some, List, [], ◌∷◌, Bytes, Text,
  text, text_eq, length, leb, ltb, ◌==◌, if◌then◌else◌, text_key, contains, add,
}
use vaid.Json.{
  Json, null, boolean, uint, string, array, object, Members, end, member, byte_items, text_items,
}
use vaid.Platform.{Platform, VaidId, Instant, second}
use vaid.Scope.{ScopeBoundaryEntry}
use vaid.Document.{Vaid, vaid_id, entry_items, is_expired_at}
use vaid.Attenuation.{tenant_attenuates, scope_attenuates, caps_attenuate, expiry_attenuates}
use vaid.Revocation.{
  LineageResolver, LineageAssembly, complete, incomplete, assemble_lineage, max_lineage_depth,
}
use vaid.Attestation.{mint_pop_freshness_secs}
use vaid.Pop.{verify_signed_payload}
use vaid.Errors.{
  MintError, unauthorized, identity, config, no_parent, depth_unknown, depth_exceeded, cross_tenant,
  wrong_parent, scope_exceeds_parent, caps_exceed_parent, parent_expired, child_outlives_parent,
  pop_required, pop_stale, nonce_replayed, pop_not_verified, byo_key_required, depth_below_one,
  depth_above_bound, Outcome, done, failed, panicked,
}
use vaid.Errors.Calls.{Call, pure, fail, lift, require, ◌>>=◌, ◌>>◌}
use vaid.Issuer.State.{IssueArgs}
use vaid.MintTypes.{
  VaidSeed, MintPop, MintVaidRequest, MintVaidResponse, MintPopPayload, pop_payload, id_value,
  payload_value,
}
use vaid.Mint.State.{
  default_max_delegation_depth, validate_max_delegation_depth, Ports, MintService, at_depth,
  with_max_delegation_depth, expected, with_authorization, MintState, in_world, distance,
  skew_seconds, key_of_seed, presented_pop, args_of_seed, names_parent, depth_of, consume_nonce,
}

module _ (p : Platform) where
  -- The `details` that `mint_root` and `mint_child` record.
  pub root_details : VaidSeed → Json
  root_details seed =
      let byo_key = boolean (elim seed.public_key_der [ none ↦ false | some key ↦ true ]) in
      object (
        member (text "agent_class") (string seed.agent_class) (
          member (text "version") (string seed.version) (
            member (text "tenant_id") (string seed.tenant_id) (
              member (text "parent_vaid") (id_value p seed.parent_vaid) (
                member (text "scope_boundary") (array (entry_items seed.scope_boundary)) (
                  member (text "capability_set_len") (uint (length seed.capability_set)) (
                    member (text "byo_key") byo_key (
                      member (text "pop_verified") byo_key
                        (member (text "delegated") (boolean false) end)))))))))

  pub child_details : VaidSeed → Vaid → Vaid → Bool → Json
  child_details seed upper child bounded = object (
      member (text "agent_class") (string seed.agent_class) (
        member (text "version") (string seed.version) (
          member (text "parent_vaid") (id_value p seed.parent_vaid) (
            member (text "scope_boundary") (array (entry_items seed.scope_boundary)) (
              member (text "capability_set_len") (uint (length seed.capability_set)) (
                member (text "byo_key") (boolean true) (
                  member (text "pop_verified") (boolean true) (
                    member (text "delegated") (boolean true) (
                      member (text "attenuation_verified") (boolean true) (
                        member (text "parent_tenant") (string upper.tenant_id) (
                          member (text "expiry_bounded_by_parent") (boolean bounded) (
                            member (text "expires_at") (string child.expires_at_presented) (
                              member (text "parent_expires_at") (string upper.expires_at_presented)
                                end)))))))))))))

  -- The signature test at the end of `verify_pop_at_mint`
  abbrev pub pop_verifies : VaidSeed → Bytes → MintPop → Bool
  pop_verifies seed key pop =
      verify_signed_payload p (payload_value p (pop_payload seed key pop.nonce pop.issued_at)) key
        pop.signature

  -- The nonce is consumed before the signature is verified, and stays consumed.
  unfoldable pub verify_pop_at_mint :
      {W : Type 0} → VaidSeed → Bytes → Option MintPop → Instant → Call (MintState W) (Unit {0})
  verify_pop_at_mint seed key presented_by now = do
    pop ← lift (presented_pop presented_by)
    let skew = skew_seconds now pop.issued_at
    require (leb skew mint_pop_freshness_secs) (identity (pop_stale skew))
    consume_nonce pop.nonce
    require (pop_verifies seed key pop) (identity pop_not_verified)

  module _ {W : Type 0} (ports : Ports W) where
    -- The two arms of `mint_root`
    abbrev pub issue_root : Option Bytes → MintVaidRequest → Instant → Call (MintState W) Vaid
    issue_root none request now =
        in_world (ports.issue_vaid_with_lineage (args_of_seed request.seed none))
    issue_root (some key) request now =
        verify_pop_at_mint request.seed key request.pop now
        >> in_world (ports.issue_vaid_with_key (args_of_seed request.seed none) key)

    unfoldable pub mint_root : MintVaidRequest → Instant → Call (MintState W) MintVaidResponse
    mint_root request now = do
      in_world (ports.authorize_root_mint request.seed)
      vaid ← issue_root request.seed.public_key_der request now
      in_world (ports.record_audit (text "vaid_minted") (root_details request.seed))
      pure (record { vaid = vaid; expiry_bounded_by_parent = false; parent_expires_at = none })

    abbrev pub delegation_depth : Vaid → Call (MintState W) ℕ
    delegation_depth v s =
        (depth_of (assemble_lineage v (ports.resolve_delegation_ancestor s.world)), s)

    -- The checks of `mint_child` that precede the proof of possession
    unfoldable pub check_child : ℕ → VaidSeed → Vaid → Instant → Call (MintState W) (Unit {0})
    check_child max_depth seed upper now = do
      parent_depth ← delegation_depth upper
      let child_depth = parent_depth + 1
      require (leb child_depth max_depth)
          (unauthorized (depth_exceeded child_depth max_depth parent_depth))
      require (tenant_attenuates upper upper.trust_domain seed.tenant_id)
          (unauthorized (cross_tenant seed.tenant_id upper.tenant_id))
      require (names_parent seed.parent_vaid (vaid_id upper))
          (unauthorized (wrong_parent seed.parent_vaid (vaid_id upper)))
      require (scope_attenuates upper seed.scope_boundary) (unauthorized scope_exceeds_parent)
      require (caps_attenuate upper seed.capability_set) (unauthorized caps_exceed_parent)
      require (not (is_expired_at p upper now))
          (unauthorized (parent_expired (vaid_id upper) upper.expires_at_presented))

    -- The issuing half of `mint_child`, and the check that the issuer kept to the ceiling
    unfoldable pub issue_child :
        VaidSeed → Vaid → Option MintPop → Instant → Call (MintState W) Vaid
    issue_child seed upper pop now = do
      key ← lift (key_of_seed seed)
      verify_pop_at_mint seed key pop now
      vaid ←
          in_world
            (ports.issue_vaid_with_key (args_of_seed seed (some upper.expires_at_presented)) key)
      require (expiry_attenuates p upper (some vaid.expires_at_presented)) (
          unauthorized (child_outlives_parent vaid.expires_at_presented upper.expires_at_presented))
      pure vaid

    abbrev pub mint_child_of :
        ℕ → MintVaidRequest → Vaid → Instant → Instant → Call (MintState W) MintVaidResponse
    mint_child_of max_depth request upper checked_at pop_at = do
      check_child max_depth request.seed upper checked_at
      vaid ← issue_child request.seed upper request.pop pop_at
      let bounded = text_eq vaid.expires_at_presented upper.expires_at_presented
      in_world
          (ports.record_audit (text "vaid_minted") (child_details request.seed upper vaid bounded))
      pure (record {
        vaid = vaid;
        expiry_bounded_by_parent = bounded;
        parent_expires_at = some upper.expires_at_presented;
      })

    -- The two instants are the clock's at the check of the parent's expiry and at the check of the
    -- proof of possession.
    unfoldable pub mint_child :
        ℕ → MintVaidRequest → Option Vaid → Instant → Instant → Call (MintState W) MintVaidResponse
    mint_child max_depth request none checked_at pop_at = fail (unauthorized no_parent)
    mint_child max_depth request (some upper) checked_at pop_at =
        mint_child_of max_depth request upper checked_at pop_at
