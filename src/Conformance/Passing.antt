-- ===== src/Conformance/Passing.antt =====
-- What a check has done when it passes.
use vaid.Prelude.{◌≡◌, refl, ap, Bool, true, false, Option, none, some, List, [], ◌∷◌, In, inl, inr}
use vaid.Json.{Json}
use vaid.Conformance.{
  ConformanceError, Checked, Check, passed, blocked, panicked, ◌>>=◌, require, or_block, or_panic,
  check_each, same, non_empty,
}

pub passed_value : {A : Type 0} {a b : A} → passed a ≡ passed b → a ≡ b
passed_value h = cc

module _ {A B : Type 0} where
  pub data Passes (m : Checked A) (f : A → Checked B) (b : B) : Type 0 where
    passes : (a : A) → m ≡ passed a → f a ≡ passed b → Passes m f b

  pub >>=-Passes : (m : Checked A) (f : A → Checked B) {b : B} → (m >>= f) ≡ passed b → Passes m f b
  unfolding ◌>>=◌
  >>=-Passes (passed a) f h = passes a refl h
  >>=-Passes (blocked e) f h = cc
  >>=-Passes panicked f h = cc

  pub >>=-passed :
      (m : Checked A) (f : A → Checked B) (a : A) (r : Checked B)
      → m ≡ passed a
      → f a ≡ r
      → (m >>= f) ≡ r
  unfolding ◌>>=◌
  >>=-passed m f a r h k = rw h k

pub require-eq-passed :
    (test : Bool) (e : ConformanceError) {u : Unit {0}} → require test e ≡ passed u → test ≡ true
unfolding require
require-eq-passed true e h = refl
require-eq-passed false e h = cc

pub or_block-eq-passed :
    {A : Type 0} (o : Option A) (e : ConformanceError) {a : A}
    → or_block o e ≡ passed a
    → o ≡ some a
unfolding or_block
or_block-eq-passed none e h = cc
or_block-eq-passed (some b) e h = ap some (passed_value h)

pub or_panic-eq-passed : {A : Type 0} (o : Option A) {a : A} → or_panic o ≡ passed a → o ≡ some a
unfolding or_panic
or_panic-eq-passed none h = cc
or_panic-eq-passed (some b) h = ap some (passed_value h)

pub same_iff : (a b : Bool) → same a b ≡ true → a ≡ b
same_iff true b h = cc
same_iff false true h = cc
same_iff false false h = refl

pub same_refl : (a : Bool) → same a a ≡ true
same_refl true = refl
same_refl false = refl

-- A loop passes only if every round does.
pub check_each-at :
    (check : Json → Check) (cases : List Json) (case : Json) {u : Unit {0}}
    → check_each check cases ≡ passed u
    → In case cases
    → check case ≡ passed tt
check_each-at check [] case h m = absurd m
check_each-at check (c ∷ cases) case h m =
    elim (>>=-Passes (check c) (λ _. check_each check cases) h) [
      | passes u now later ↦ elim m [
        | inl e ↦ rw e now
        | inr there ↦ check_each-at check cases case later there
      ]
    ]

-- Cases that are there.
pub non_empty-eq-passed :
    (given : List Json) {cs : List Json} → non_empty given ≡ passed cs → given ≡ cs
unfolding non_empty
non_empty-eq-passed [] h = cc
non_empty-eq-passed (c ∷ rest) h = passed_value h
