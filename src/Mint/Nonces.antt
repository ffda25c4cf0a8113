-- ===== src/Mint/Nonces.antt =====
-- Consumed nonces over a mint's life: no call forgets one.
use vaid.Prelude.{
  ℕ, ◌≡◌, ◌≢◌, Bool, true, false, Option, none, some, Bytes, Text, text_key, contains, arith,
  Bool-cases, inl, inr,
}
use vaid.Platform.{Platform, Instant}
use vaid.Document.{Vaid}
use vaid.Errors.{MintError, Outcome, done, failed, panicked}
use vaid.Errors.Calls.{Call, pure, fail, lift, require, continue, ◌>>=◌}
use vaid.MintTypes.{VaidSeed, MintPop, MintVaidRequest}
use vaid.Mint.{
  verify_pop_at_mint, mint_root, issue_root, delegation_depth, check_child, issue_child, mint_child,
}
use vaid.Mint.State.{Ports, MintState, in_world, consume_nonce}
use vaid.Mint.Possession.{contains-add_same, verify_pop_at_mint_iff}

module _ {W : Type 0} where
  -- Every nonce that was consumed in `s` is consumed in `s'`.
  abbrev Remembers : MintState W → MintState W → Type 0
  Remembers s s' =
      (nonce : Text)
      → contains nonce s.consumed_pop_nonces ≡ true
      → contains nonce s'.consumed_pop_nonces ≡ true

  -- A call that forgets no nonce, whatever its outcome.
  Forgetless : {A : Type 0} → Call (MintState W) A → Type 0
  Forgetless m = (s : MintState W) → Remembers s (m s).1

module _ (W : Type 0) where
  continue-Forgetless :
      {A B : Type 0} (f : A → Call (MintState W) B)
      → ((a : A) → Forgetless (f a))
      → (o : Outcome A) → Forgetless (continue o f)
  unfolding Forgetless
  continue-Forgetless f hf (done a) s = hf a s
  continue-Forgetless f hf (failed e) s = λ nonce h. h
  continue-Forgetless f hf panicked s = λ nonce h. h

  bind-Forgetless :
      {A B : Type 0} (m : Call (MintState W) A) (f : A → Call (MintState W) B)
      → Forgetless m
      → ((a : A) → Forgetless (f a))
      → Forgetless (m >>= f)
  unfolding Forgetless ◌>>=◌
  bind-Forgetless m f hm hf s nonce h =
      continue-Forgetless f hf (m s).0 (m s).1 nonce (hm s nonce h)

  lift-Forgetless : {A : Type 0} (o : Outcome A) → Forgetless {W = W} (lift o)
  unfolding Forgetless
  lift-Forgetless o s nonce h = h

  pure-Forgetless : {A : Type 0} (a : A) → Forgetless {W = W} (pure a)
  unfolding Forgetless
  pure-Forgetless a s nonce h = h

  fail-Forgetless : (A : Type 0) (e : MintError) → Forgetless {W = W} {A = A} (fail e)
  unfolding Forgetless
  fail-Forgetless A e s nonce h = h

  require-Forgetless : (test : Bool) (e : MintError) → Forgetless {W = W} (require test e)
  unfolding Forgetless
  require-Forgetless true e s nonce h = h
  require-Forgetless false e s nonce h = h

  in_world-Forgetless : {A : Type 0} (m : Call W A) → Forgetless (in_world m)
  unfolding Forgetless
  in_world-Forgetless m s nonce h = h

  consume_nonce-Forgetless : (nonce : Text) → Forgetless {W = W} (consume_nonce nonce)
  unfolding Forgetless
  consume_nonce-Forgetless nonce s a h = elim (Bool-cases (contains nonce s.consumed_pop_nonces)) [
    | inl there ↦ rw there h
    | inr new ↦ rw (new, h) (ground arith)
  ]

  verify_pop_at_mint-Forgetless :
      (p : Platform) (seed : VaidSeed) (key : Bytes) (given : Option MintPop) (now : Instant)
      → Forgetless (verify_pop_at_mint p {W = W} seed key given now)
  unfolding verify_pop_at_mint
  verify_pop_at_mint-Forgetless p seed key given now =
      bind-Forgetless _ _ (lift-Forgetless _) λ pop.
        bind-Forgetless _ _ (require-Forgetless _ _)
          λ _. bind-Forgetless _ _ (consume_nonce-Forgetless pop.nonce) λ _. require-Forgetless _ _

module _ (W : Type 0) (p : Platform) (ports : Ports W) where
  depth-Forgetless : (v : Vaid) → Forgetless (delegation_depth p ports v)
  unfolding Forgetless
  depth-Forgetless v s nonce h = h

  check_child-Forgetless :
      (max_depth : ℕ) (seed : VaidSeed) (upper : Vaid) (now : Instant)
      → Forgetless (check_child p ports max_depth seed upper now)
  unfolding check_child
  check_child-Forgetless max_depth seed upper now =
      bind-Forgetless W _ _ (depth-Forgetless upper) λ depth.
        bind-Forgetless W _ _ (require-Forgetless W _ _) λ _.
          bind-Forgetless W _ _ (require-Forgetless W _ _) λ _.
            bind-Forgetless W _ _ (require-Forgetless W _ _) λ _.
              bind-Forgetless W _ _ (require-Forgetless W _ _)
                λ _. bind-Forgetless W _ _ (require-Forgetless W _ _) λ _. require-Forgetless W _ _

  issue_child-Forgetless :
      (seed : VaidSeed) (upper : Vaid) (given : Option MintPop) (now : Instant)
      → Forgetless (issue_child p ports seed upper given now)
  unfolding issue_child
  issue_child-Forgetless seed upper given now = bind-Forgetless W _ _ (lift-Forgetless W _) λ key.
      bind-Forgetless W _ _ (verify_pop_at_mint-Forgetless W p seed key given now) λ _.
        bind-Forgetless W _ _ (in_world-Forgetless W _)
          λ child. bind-Forgetless W _ _ (require-Forgetless W _ _) λ _. pure-Forgetless W _

  mint_child-Forgetless :
      (max_depth : ℕ) (request : MintVaidRequest) (given : Option Vaid)
      (checked_at pop_at : Instant)
      → Forgetless (mint_child p ports max_depth request given checked_at pop_at)
  unfolding mint_child
  mint_child-Forgetless max_depth request none checked_at pop_at = fail-Forgetless W _ _
  mint_child-Forgetless max_depth request (some upper) checked_at pop_at =
      bind-Forgetless W _ _ (check_child-Forgetless max_depth request.seed upper checked_at) λ _.
        bind-Forgetless W _ _ (issue_child-Forgetless request.seed upper request.pop pop_at)
          λ child. bind-Forgetless W _ _ (in_world-Forgetless W _) λ _. pure-Forgetless W _

  issue_root-Forgetless :
      (o : Option Bytes) (request : MintVaidRequest) (now : Instant)
      → Forgetless (issue_root p ports o request now)
  issue_root-Forgetless none request now = in_world-Forgetless W _
  issue_root-Forgetless (some key) request now =
      bind-Forgetless W _ _ (verify_pop_at_mint-Forgetless W p request.seed key request.pop now)
        λ _. in_world-Forgetless W _

  mint_root-Forgetless :
      (request : MintVaidRequest) (now : Instant) → Forgetless (mint_root p ports request now)
  unfolding mint_root
  mint_root-Forgetless request now = bind-Forgetless W _ _ (in_world-Forgetless W _) λ _.
      bind-Forgetless W _ _ (issue_root-Forgetless request.seed.public_key_der request now)
        λ child. bind-Forgetless W _ _ (in_world-Forgetless W _) λ _. pure-Forgetless W _

  -- One request that the service serves, whatever comes of it; then any number of them.
  pub data Serves : MintState W → MintState W → Type 0 where
    idle : {s : MintState W} → Serves s s
    then_root :
        {s t : MintState W} (request : MintVaidRequest) (now : Instant)
        → Serves s t
        → Serves s (mint_root p ports request now t).1
    then_child :
        {s t : MintState W} (max_depth : ℕ) (request : MintVaidRequest) (given : Option Vaid)
        → (checked_at pop_at : Instant) → Serves s t
        → Serves s (mint_child p ports max_depth request given checked_at pop_at t).1
    -- what the ports' other clients do to the world
    then_world : {s t : MintState W} (w : W) → Serves s t → Serves s (record t { world = w })

  Serves-Remembers : {s t : MintState W} → Serves s t → Remembers s t
  unfolding Forgetless
  Serves-Remembers idle nonce h = h
  Serves-Remembers (then_root request now before) nonce h =
      mint_root-Forgetless request now _ nonce (Serves-Remembers before nonce h)
  Serves-Remembers (then_child max_depth request given checked_at pop_at before) nonce h =
      mint_child-Forgetless max_depth request given checked_at pop_at _ nonce
        (Serves-Remembers before nonce h)
  Serves-Remembers (then_world w before) nonce h = Serves-Remembers before nonce h

  -- Once a proof of possession has passed with a nonce, no proof with that nonce passes again,
  -- however many root and child mints, failed or not, the service has served in between.
  pub verify_pop_at_mint-replay :
      (seed seed' : VaidSeed) (key key' : Bytes) (pop pop' : MintPop) (now now' : Instant)
      → (s s1 s2 s3 : MintState W) → verify_pop_at_mint p seed key (some pop) now s ≡ (done tt, s1)
      → Serves s1 s2
      → pop'.nonce ≡ pop.nonce
      → verify_pop_at_mint p seed' key' (some pop') now' s2 ≢ (done tt, s3)
  verify_pop_at_mint-replay seed seed' key key' pop pop' now now' s s1 s2 s3 first between same
        second =
      let used = (verify_pop_at_mint_iff p seed key (some pop) now s s1).0 first in
      let again = (verify_pop_at_mint_iff p seed' key' (some pop') now' s2 s3).0 second in
      let there = contains-add_same pop.nonce s.consumed_pop_nonces in
      let consumed : contains pop.nonce s1.consumed_pop_nonces ≡ true =
        cc (used.presented, used.after, there) in
      cc (again.presented, again.new, same, Serves-Remembers between pop.nonce consumed)
