-- ===== src/Errors/Calls.antt =====
-- Calls that change a state and may fail: what was written before a failure stays written.
use vaid.Prelude.{◌≡◌, refl, ap, Bool, true, false}
use vaid.Errors.{MintError, Outcome, done, failed, panicked}

abbrev pub Call : Type 0 → Type 0 → Type 0
Call S A = S → Outcome A × S

module _ {S A : Type 0} where
  abbrev pub pure : A → Call S A
  pure a s = (done a, s)

  abbrev pub fail : MintError → Call S A
  fail e s = (failed e, s)

  abbrev pub lift : Outcome A → Call S A
  lift o s = (o, s)

module _ {S A B : Type 0} where
  abbrev pub continue : Outcome A → (A → Call S B) → Call S B
  continue (done a) f s = f a s
  continue (failed e) f s = (failed e, s)
  continue panicked f s = (panicked, s)

  infixl 5 ◌>>=◌ ◌>>◌
  unfoldable pub ◌>>=◌ : Call S A → (A → Call S B) → Call S B
  ◌>>=◌ m f s = let (o, s') = m s in continue o f s'

  abbrev pub ◌>>◌ : Call S A → Call S B → Call S B
  m >> k = m >>= λ _. k

abbrev pub require : {S : Type 0} → Bool → MintError → Call S (Unit {0})
require true e s = (done tt, s)
require false e s = (failed e, s)

module _ {S A B : Type 0} where
  continue_done :
      (o : Outcome A) (f : A → Call S B) (s : S) {b : B} {s' : S}
      → continue o f s ≡ (done b, s')
      → (a : A) × (o ≡ done a) × (f a s ≡ (done b, s'))
  continue_done (done a) f s h = (a, refl, h)
  continue_done (failed e) f s h = cc
  continue_done panicked f s h = cc

  -- A chain that returns has returned from its first call.
  pub data Returned (m : Call S A) (f : A → Call S B) (s : S) (b : B) (s' : S) : Type 0 where
    returned : (a : A) (t : S) → m s ≡ (done a, t) → f a t ≡ (done b, s') → Returned m f s b s'

  pub >>=-Returned :
      (m : Call S A) (f : A → Call S B) (s : S) {b : B} {s' : S}
      → (m >>= f) s ≡ (done b, s')
      → Returned m f s b s'
  unfolding ◌>>=◌
  >>=-Returned m f s h =
      let (a, first, later) = continue_done (m s).0 f (m s).1 h in
      returned a (m s).1 (ap (λ o. (o, (m s).1)) first) later

-- The result and the state of a call that returned.
pub done_value : {A : Type 0} {a b : A} → done a ≡ done b → a ≡ b
done_value h = cc

module _ {S A : Type 0} where
  pub lift_pair :
      (o : Outcome A) (a : A) {s t : S} → lift o s ≡ (done a, t) → (o ≡ done a) × (s ≡ t)
  lift_pair o a h = (ap (λ r. r.0) h, ap (λ r. r.1) h)

  pub done_pair : (a b : A) {s t : S} → pure a s ≡ (done b, t) → (a ≡ b) × (s ≡ t)
  done_pair a b h = (done_value (ap (λ r. r.0) h), ap (λ r. r.1) h)

pub require-eq-done :
    {S : Type 0} (test : Bool) (e : MintError) (s : S) {t : S} {u : Unit {0}}
    → require test e s ≡ (done u, t)
    → (test ≡ true) × (s ≡ t)
require-eq-done true e s h = (refl, ap (λ r. r.1) h)
require-eq-done false e s h = cc

-- A chain whose first call returns goes on from there.
pub >>=-returned :
    {S A B : Type 0} (m : Call S A) (f : A → Call S B) (s t : S) (a : A) (r : Outcome B × S)
    → m s ≡ (done a, t)
    → f a t ≡ r
    → (m >>= f) s ≡ r
unfolding ◌>>=◌
>>=-returned m f s t a r h k = rw h k
