-- ===== src/Mint/Minting.antt =====
-- What `mint_child` has done when it returns a response.
use vaid.Prelude.{ℕ, ◌≡◌, refl, ap, sym, true, Option, none, some, Bytes, text, text_eq}
use vaid.Platform.{Platform, Instant}
use vaid.Document.{Vaid}
use vaid.Attenuation.{expiry_attenuates}
use vaid.Errors.{identity, byo_key_required, done, failed}
use vaid.Errors.Calls.{Call, returned, >>=-Returned, lift_pair, done_pair, require-eq-done}
use vaid.MintTypes.{VaidSeed, MintPop, MintVaidRequest, MintVaidResponse}
use vaid.Mint.{child_details, issue_child, mint_child_of, mint_child}
use vaid.Mint.State.{Ports, MintState, in_world, args_of_seed}
use vaid.Mint.Possession.{Possesses, verify_pop_at_mint_iff}
use vaid.Mint.Delegation.{MayDelegate, MayDelegate-of_done}

key_given :
    (o : Option Bytes) (key : Bytes)
    → (elim o [ none ↦ failed (identity byo_key_required) | some k ↦ done k ]) ≡ done key
    → o ≡ some key
key_given none key h = cc
key_given (some k) key h = cc

pub in_world-done :
    {W A : Type 0} (m : Call W A) (s s' : MintState W) (a : A)
    → in_world m s ≡ (done a, s')
    → m s.world ≡ (done a, s'.world)
in_world-done m s s' a h = ap (λ r. (r.0, r.1.world)) h

pub nonces_kept :
    {W A : Type 0} (m : Call W A) (s s' : MintState W) (a : A)
    → in_world m s ≡ (done a, s')
    → s'.consumed_pop_nonces ≡ s.consumed_pop_nonces
nonces_kept m s s' a h = sym (ap (λ r. r.1.consumed_pop_nonces) h)

module _ {W : Type 0} (p : Platform) (ports : Ports W) where
  -- A child that was issued: its key was presented and proved, the issuer was asked for the seed
  -- under the parent's expiry, and it stayed under it.
  pub record IsIssuedChild (seed : VaidSeed) (upper : Vaid) (given : Option MintPop) (now : Instant)
      (s s' : MintState W) (child : Vaid) : Type 0 where
    pub key : Bytes
    pub registered : seed.public_key_der ≡ some key
    pub between : MintState W
    pub possessed : Possesses p seed key given now s between
    pub issued :
        ports.issue_vaid_with_key
          (args_of_seed seed (some upper.expires_at_presented))
          key
          between.world
        ≡ (done child, s'.world)
    pub nonces : s'.consumed_pop_nonces ≡ between.consumed_pop_nonces
    pub contained : expiry_attenuates p upper (some child.expires_at_presented) ≡ true

  pub record IsDelegated (max_depth : ℕ) (request : MintVaidRequest) (upper : Vaid)
      (checked_at pop_at : Instant) (s s' : MintState W) (r : MintVaidResponse) : Type 0 where
    pub may : MayDelegate p ports max_depth request.seed upper checked_at s
    pub before_audit : MintState W
    pub child : IsIssuedChild request.seed upper request.pop pop_at s before_audit r.vaid
    pub recorded :
        ports.record_audit
          (text "vaid_minted")
          (child_details p request.seed upper r.vaid r.expiry_bounded_by_parent)
          before_audit.world
        ≡ (done tt, s'.world)
    pub nonces : s'.consumed_pop_nonces ≡ before_audit.consumed_pop_nonces
    pub bounded :
        r.expiry_bounded_by_parent ≡ text_eq r.vaid.expires_at_presented upper.expires_at_presented
    pub ceiling : r.parent_expires_at ≡ some upper.expires_at_presented

  IsIssuedChild-of_done :
      (seed : VaidSeed) (upper : Vaid) (given : Option MintPop) (now : Instant) (s s' : MintState W)
      → (child : Vaid) → issue_child p ports seed upper given now s ≡ (done child, s')
      → IsIssuedChild seed upper given now s s' child
  unfolding issue_child
  IsIssuedChild-of_done seed upper given now s s' child h = elim (>>=-Returned _ _ s h) [
    | returned key s1 shown h1 ↦ elim (>>=-Returned _ _ s1 h1) [
      | returned _ s2 proved h2 ↦ elim (>>=-Returned _ _ s2 h2) [
        | returned v s3 issued h3 ↦ elim (>>=-Returned _ _ s3 h3) [
          | returned _ s4 contained h4 ↦
              let (shown', same1) = lift_pair _ key shown in
              let (contained', same2) = require-eq-done _ _ _ contained in
              let (value, same3) = done_pair v child h4 in
              let issued' = in_world-done (ports.issue_vaid_with_key _ key) s2 s3 v issued in
              let kept = nonces_kept (ports.issue_vaid_with_key _ key) s2 s3 v issued in
              record {
                key = key;
                registered = key_given seed.public_key_der key shown';
                between = s2;
                possessed = (verify_pop_at_mint_iff p seed key given now s s2).0 (rw same1 proved);
                issued = rw (← value, ← same3, ← same2) issued';
                nonces = rw (← same3, ← same2) kept;
                contained = rw (← value) contained';
              }
        ]
      ]
    ]
  ]

  pub IsDelegated-of_done :
      (max_depth : ℕ) (request : MintVaidRequest) (upper : Vaid) (checked_at pop_at : Instant)
      → (s s' : MintState W) (r : MintVaidResponse)
      → mint_child_of p ports max_depth request upper checked_at pop_at s ≡ (done r, s')
      → IsDelegated max_depth request upper checked_at pop_at s s' r
  IsDelegated-of_done max_depth request upper checked_at pop_at s s' r h =
      elim (>>=-Returned _ _ s h) [
        | returned u s1 checked h1 ↦ elim (>>=-Returned _ _ s1 h1) [
          | returned v s2 issued h2 ↦ elim (>>=-Returned _ _ s2 h2) [
            | returned _ s3 audited h3 ↦
                let (may, same1) =
                  MayDelegate-of_done p ports max_depth request.seed upper checked_at s s1 u
                    checked in
                let (value, same2) = done_pair _ r h3 in
                let issued' =
                  IsIssuedChild-of_done request.seed upper request.pop pop_at s1 s2 v issued in
                let audit = ports.record_audit (text "vaid_minted") (
                  child_details p request.seed upper v
                    (text_eq v.expires_at_presented upper.expires_at_presented)) in
                record {
                  may = may;
                  before_audit = s2;
                  child = rw (← value, same1) issued';
                  recorded = rw (← value, ← same2) (in_world-done audit s2 s3 tt audited);
                  nonces = rw (← same2) (nonces_kept audit s2 s3 tt audited);
                  bounded = rw (← value) refl;
                  ceiling = rw (← value) refl;
                }
          ]
        ]
      ]

  -- When `mint_child` returns, a parent was in context whose checks passed, the seed's key was
  -- proved with a nonce that was new, the issuer was asked for exactly the seed under the parent's
  -- expiry and did not exceed it, and the mint was recorded with the sink.
  pub mint_child-IsDelegated :
      (max_depth : ℕ) (request : MintVaidRequest) (given : Option Vaid)
      → (checked_at pop_at : Instant) (s s' : MintState W) (r : MintVaidResponse)
      → mint_child p ports max_depth request given checked_at pop_at s ≡ (done r, s')
      → (upper : Vaid) × (given ≡ some upper)
        × IsDelegated max_depth request upper checked_at pop_at s s' r
  unfolding mint_child
  mint_child-IsDelegated max_depth request none checked_at pop_at s s' r h = cc
  mint_child-IsDelegated max_depth request (some upper) checked_at pop_at s s' r h =
      (upper, refl, IsDelegated-of_done max_depth request upper checked_at pop_at s s' r h)
