-- ===== src/Mint/Returning.antt =====
-- When `mint_child` returns: the conditions of its response are enough.
use vaid.Prelude.{◌≡◌, refl, ap, sym, ◌∙◌, ◌↔◌, ℕ, Option, some, text, text_eq}
use vaid.Platform.{Platform, Instant}
use vaid.Document.{Vaid}
use vaid.Errors.{done}
use vaid.Errors.Calls.{Call, >>=-returned}
use vaid.MintTypes.{VaidSeed, MintPop, MintVaidRequest, MintVaidResponse}
use vaid.Mint.{child_details, issue_child, mint_child_of, mint_child}
use vaid.Mint.State.{Ports, MintState, in_world}
use vaid.Mint.Possession.{verify_pop_at_mint_iff}
use vaid.Mint.Delegation.{check_child_iff}
use vaid.Mint.Minting.{IsIssuedChild, IsDelegated, mint_child-IsDelegated}

in_world-returns :
    {W A : Type 0} (m : Call W A) (s s' : MintState W) (a : A)
    → m s.world ≡ (done a, s'.world)
    → s'.consumed_pop_nonces ≡ s.consumed_pop_nonces
    → in_world m s ≡ (done a, s')
in_world-returns m s s' a h nonces =
    rw h (ap (λ n. (done a, record s' { consumed_pop_nonces = n })) (sym nonces))

module _ {W : Type 0} (p : Platform) (ports : Ports W) where
  issue_child-returns :
      (seed : VaidSeed) (upper : Vaid) (given : Option MintPop) (now : Instant)
      → (s s' : MintState W) (child : Vaid) → IsIssuedChild p ports seed upper given now s s' child
      → issue_child p ports seed upper given now s ≡ (done child, s')
  unfolding issue_child
  issue_child-returns seed upper given now s s' child h =
      >>=-returned _ _ s s h.key _ (rw (h.registered) refl) (
        >>=-returned _ _ s h.between tt _
          ((verify_pop_at_mint_iff p seed h.key given now s h.between).1 h.possessed)
          (>>=-returned _ _ h.between s' child _
            (in_world-returns (ports.issue_vaid_with_key _ h.key) h.between s' child h.issued
              h.nonces)
            (>>=-returned _ _ s' s' tt _ (rw (h.contained) refl) refl)))

  mint_child_of-returns :
      (max_depth : ℕ) (request : MintVaidRequest) (upper : Vaid) (checked_at pop_at : Instant)
      → (s s' : MintState W) (r : MintVaidResponse)
      → IsDelegated p ports max_depth request upper checked_at pop_at s s' r
      → mint_child_of p ports max_depth request upper checked_at pop_at s ≡ (done r, s')
  mint_child_of-returns max_depth request upper checked_at pop_at s s' r h =
      let bounded = text_eq r.vaid.expires_at_presented upper.expires_at_presented in
      let audit =
        ports.record_audit (text "vaid_minted")
          (child_details p request.seed upper r.vaid bounded) in
      let answer : MintVaidResponse = record {
        vaid = r.vaid;
        expiry_bounded_by_parent = bounded;
        parent_expires_at = some upper.expires_at_presented;
      } in
      let same : answer ≡ r =
        ap (λ b. record answer { expiry_bounded_by_parent = b }) (sym h.bounded)
        ∙ ap (λ c. record r { parent_expires_at = c }) (sym h.ceiling) in
      >>=-returned _ _ s s tt _
        ((check_child_iff p ports max_depth request.seed upper checked_at s).1 h.may)
        (>>=-returned _ _ s h.before_audit r.vaid _
          (issue_child-returns request.seed upper request.pop pop_at s h.before_audit r.vaid
            h.child)
          (>>=-returned _ _ h.before_audit s' tt _
            (in_world-returns audit h.before_audit s' tt (rw (← h.bounded) h.recorded) h.nonces)
            (ap (λ x. (done x, s')) same)))

  returns_under :
      (max_depth : ℕ) (request : MintVaidRequest) (given : Option Vaid)
      → (checked_at pop_at : Instant) (s s' : MintState W) (r : MintVaidResponse) (upper : Vaid)
      → given ≡ some upper
      → IsDelegated p ports max_depth request upper checked_at pop_at s s' r
      → mint_child p ports max_depth request given checked_at pop_at s ≡ (done r, s')
  unfolding mint_child
  returns_under max_depth request given checked_at pop_at s s' r upper e h =
      rw e (mint_child_of-returns max_depth request upper checked_at pop_at s s' r h)

  -- `mint_child` returns a response exactly if a parent is in context whose checks pass, the seed's
  -- key is proved with a nonce that is new, the issuer returns a document when it is asked for the
  -- seed under the parent's expiry, the document does not exceed that, and the sink records the
  -- mint; the response is that document, whether its expiry is the parent's, and the parent's.
  pub mint_child_iff :
      (max_depth : ℕ) (request : MintVaidRequest) (given : Option Vaid)
      → (checked_at pop_at : Instant) (s s' : MintState W) (r : MintVaidResponse)
      → (mint_child p ports max_depth request given checked_at pop_at s ≡ (done r, s')) ↔ (
          (upper : Vaid) × (given ≡ some upper)
          × IsDelegated p ports max_depth request upper checked_at pop_at s s' r)
  mint_child_iff max_depth request given checked_at pop_at s s' r = (
    mint_child-IsDelegated p ports max_depth request given checked_at pop_at s s' r,
    λ h. returns_under max_depth request given checked_at pop_at s s' r h.0 h.1 h.2,
  )
