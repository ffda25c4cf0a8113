-- ===== src/Mint/Possession.antt =====
-- The proof of possession that a key's registration asks for, and the nonces that it uses up.
use vaid.Prelude.{
  ◌<◌, ◌+◌, ◌*◌, ◌≡◌, refl, ap, ◌↔◌, true, false, Option, none, some, List, Bytes, Text, leb,
  text_key, text_eq_iff, contains, add, arith, Bool-cases, inl, inr,
}
use vaid.Platform.{Platform, Instant, second}
use vaid.Errors.{identity, pop_required, done, failed}
use vaid.Errors.Calls.{◌>>=◌, returned, >>=-Returned, lift_pair, require-eq-done}
use vaid.MintTypes.{VaidSeed, MintPop}
use vaid.Mint.{pop_verifies, verify_pop_at_mint}
use vaid.Mint.State.{MintState, skew_seconds, consume_nonce}

-- The state after a nonce was consumed.
abbrev pub consuming : {W : Type 0} → Text → MintState W → MintState W
consuming nonce s = record s { consumed_pop_nonces = add nonce s.consumed_pop_nonces }

-- A proof that holds up: presented, less than 301 seconds off the clock, with a new nonce, and
-- signed by the key.
pub record Possesses {W : Type 0} (p : Platform) (seed : VaidSeed) (key : Bytes)
    (given : Option MintPop) (now : Instant) (s s' : MintState W) : Type 0 where
  pub pop : MintPop
  pub presented : given ≡ some pop
  pub not_old : now < pop.issued_at + 301 * second
  pub not_early : pop.issued_at < now + 301 * second
  pub new : contains pop.nonce s.consumed_pop_nonces ≡ false
  pub verifies : pop_verifies p seed key pop ≡ true
  pub after : s' ≡ consuming pop.nonce s

-- Whole seconds, counted down: a difference below 301 seconds counts as 300.
skew_iff :
    (now issued : Instant)
    → (leb (skew_seconds now issued) 300 ≡ true)
      ↔ ((now < issued + 301 * second) × (issued < now + 301 * second))
skew_iff now issued = ground arith

presented_of :
    (given : Option MintPop) (pop : MintPop)
    → (elim given [ none ↦ failed (identity pop_required) | some q ↦ done q ]) ≡ done pop
    → given ≡ some pop
presented_of none pop h = cc
presented_of (some q) pop h = cc

consume-eq-done :
    {W : Type 0} (nonce : Text) (s t : MintState W) (u : Unit {0})
    → consume_nonce nonce s ≡ (done u, t)
    → (contains nonce s.consumed_pop_nonces ≡ false) × (consuming nonce s ≡ t)
consume-eq-done nonce s t u h = elim (Bool-cases (contains nonce s.consumed_pop_nonces)) [
  | inl there ↦ cc (rw there at h)
  | inr new ↦ (new, rw new (ap (λ r. r.1) (rw new at h)))
]

Possesses-of_done :
    {W : Type 0} (p : Platform) (seed : VaidSeed) (key : Bytes) (given : Option MintPop)
    → (now : Instant) (s s' : MintState W) (u : Unit {0})
    → verify_pop_at_mint p seed key given now s ≡ (done u, s')
    → Possesses p seed key given now s s'
unfolding verify_pop_at_mint
Possesses-of_done p seed key given now s s' u h = elim (>>=-Returned _ _ s h) [
  | returned pop s1 shown h1 ↦ elim (>>=-Returned _ _ s1 h1) [
    | returned _ s2 fresh h2 ↦ elim (>>=-Returned _ _ s2 h2) [
      | returned v s3 consumed h3 ↦
          let (given_pop, same1) = lift_pair _ pop shown in
          let (fresh', same2) = require-eq-done _ _ _ fresh in
          let (new, after) = consume-eq-done pop.nonce s2 s3 v consumed in
          let (verified, same3) = require-eq-done _ _ _ h3 in
          record {
            pop = pop;
            presented = presented_of given pop given_pop;
            not_old = ((skew_iff now pop.issued_at).0 fresh').0;
            not_early = ((skew_iff now pop.issued_at).0 fresh').1;
            new = cc;
            verifies = verified;
            after = cc;
          }
    ]
  ]
]

Possesses-done :
    {W : Type 0} (p : Platform) (seed : VaidSeed) (key : Bytes) (given : Option MintPop)
    → (now : Instant) (s s' : MintState W) → Possesses p seed key given now s s'
    → verify_pop_at_mint p seed key given now s ≡ (done tt, s')
unfolding verify_pop_at_mint ◌>>=◌
Possesses-done p seed key given now s s' h =
    let in_time = (skew_iff now h.pop.issued_at).1 (h.not_old, h.not_early) in
    rw (h.presented, in_time, h.new, h.verifies, h.after, h.new) refl

-- `verify_pop_at_mint` succeeds, and leaves state `s'`, exactly if a proof was presented that is less
-- than 301 seconds off the clock, before it or after it, whose nonce was not consumed before, which the key signed for
-- this seed, and `s'` is `s` with the nonce consumed.
pub verify_pop_at_mint_iff :
    {W : Type 0} (p : Platform) (seed : VaidSeed) (key : Bytes) (given : Option MintPop)
    → (now : Instant) (s s' : MintState W)
    → (verify_pop_at_mint p seed key given now s ≡ (done tt, s'))
      ↔ Possesses p seed key given now s s'
verify_pop_at_mint_iff p seed key given now s s' =
    (Possesses-of_done p seed key given now s s' tt, Possesses-done p seed key given now s s')

pub contains-add_same : (nonce : Text) (used : List Text) → contains nonce (add nonce used) ≡ true
contains-add_same nonce used = ground (arith, text_eq_iff nonce nonce)
