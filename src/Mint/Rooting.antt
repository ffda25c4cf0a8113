-- ===== src/Mint/Rooting.antt =====
-- What `mint_root` has done when it returns a response.
use vaid.Prelude.{◌≡◌, refl, false, Option, none, some, Bytes, text}
use vaid.Platform.{Platform, Instant}
use vaid.Document.{Vaid}
use vaid.Errors.{done}
use vaid.Errors.Calls.{returned, >>=-Returned, done_pair}
use vaid.MintTypes.{MintVaidRequest, MintVaidResponse}
use vaid.Mint.{root_details, issue_root, mint_root}
use vaid.Mint.State.{Ports, MintState, in_world, args_of_seed}
use vaid.Mint.Possession.{Possesses, verify_pop_at_mint_iff}
use vaid.Mint.Minting.{in_world-done, nonces_kept}

module _ {W : Type 0} (p : Platform) (ports : Ports W) where
  -- A root for a key that was presented and proved, or for one that the issuer generated.
  pub data IsIssuedRoot (o : Option Bytes) (request : MintVaidRequest) (now : Instant)
      (s s' : MintState W) (v : Vaid) : Type 0 where
    proved :
        (key : Bytes) (between : MintState W)
        → o ≡ some key
        → Possesses p request.seed key request.pop now s between
        → ports.issue_vaid_with_key (args_of_seed request.seed none) key between.world
          ≡ (done v, s'.world)
        → s'.consumed_pop_nonces ≡ between.consumed_pop_nonces
        → IsIssuedRoot o request now s s' v
    generated :
        o ≡ none
        → ports.issue_vaid_with_lineage (args_of_seed request.seed none) s.world
          ≡ (done v, s'.world)
        → s'.consumed_pop_nonces ≡ s.consumed_pop_nonces
        → IsIssuedRoot o request now s s' v

  pub record IsRooted (request : MintVaidRequest) (now : Instant) (s s' : MintState W)
      (r : MintVaidResponse) : Type 0 where
    pub permitted : MintState W
    pub allowed : in_world (ports.authorize_root_mint request.seed) s ≡ (done tt, permitted)
    pub before_audit : MintState W
    pub issued : IsIssuedRoot request.seed.public_key_der request now permitted before_audit r.vaid
    pub recorded :
        in_world
          (ports.record_audit (text "vaid_minted") (root_details p request.seed))
          before_audit
        ≡ (done tt, s')
    pub unbounded : r.expiry_bounded_by_parent ≡ false
    pub no_ceiling : r.parent_expires_at ≡ none

  issue_root-IsIssuedRoot :
      (o : Option Bytes) (request : MintVaidRequest) (now : Instant) (s s' : MintState W) (v : Vaid)
      → issue_root p ports o request now s ≡ (done v, s')
      → IsIssuedRoot o request now s s' v
  issue_root-IsIssuedRoot none request now s s' v h =
      let call = ports.issue_vaid_with_lineage (args_of_seed request.seed none) in
      generated refl (in_world-done call s s' v h) (nonces_kept call s s' v h)
  issue_root-IsIssuedRoot (some key) request now s s' v h = elim (>>=-Returned _ _ s h) [
    | returned _ between checked h1 ↦
        let call = ports.issue_vaid_with_key (args_of_seed request.seed none) key in
        proved key between refl
          ((verify_pop_at_mint_iff p request.seed key request.pop now s between).0 checked)
          (in_world-done call between s' v h1) (nonces_kept call between s' v h1)
  ]

  -- When `mint_root` returns, the gate let the seed through first; a key that the seed presents was
  -- proved with a new nonce before the issuer was asked for exactly the seed under that key, and
  -- otherwise the issuer generated one; the mint was recorded, and the response claims no ceiling.
  pub mint_root-IsRooted :
      (request : MintVaidRequest) (now : Instant) (s s' : MintState W) (r : MintVaidResponse)
      → mint_root p ports request now s ≡ (done r, s')
      → IsRooted request now s s' r
  unfolding mint_root
  mint_root-IsRooted request now s s' r h = elim (>>=-Returned _ _ s h) [
    | returned _ s1 allowed h1 ↦ elim (>>=-Returned _ _ s1 h1) [
      | returned v s2 issued h2 ↦ elim (>>=-Returned _ _ s2 h2) [
        | returned _ s3 recorded h3 ↦
            let (value, same) = done_pair _ r h3 in
            record {
              permitted = s1;
              allowed = allowed;
              before_audit = s2;
              issued =
                  rw (← value) (
                    issue_root-IsIssuedRoot request.seed.public_key_der request now s1 s2 v issued);
              recorded = rw (← same) recorded;
              unbounded = rw (← value) refl;
              no_ceiling = rw (← value) refl;
            }
      ]
    ]
  ]
