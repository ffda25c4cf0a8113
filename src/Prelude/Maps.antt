-- ===== src/Prelude/Maps.antt =====
-- A `HashMap`, `HashSet` or JSON object as an association list. The crates never rely on an order.
use mathlib.Core.Path.{◌≡◌, refl, subst}
use mathlib.Core.Logic.{inl, inr, ◌↔◌}
use mathlib.Core.Bool.{Bool, true, false, ◌||◌}
use mathlib.Core.Option.{Option, none, some}
use mathlib.Core.List.{List, [], ◌∷◌}
use native.Mathlib.Omega.{arith}
use vaid.Prelude.Tests.{if◌then◌else◌, Bool-cases}
use vaid.Prelude.Lists.{All}
use vaid.Prelude.Texts.{Text, text_eq, text_eq_iff}

-- A key type with its Boolean equality.
pub record Eq {ℓ} (K : Type ℓ) : Type ℓ where
  pub beq : K → K → Bool
  pub beq_iff : (a b : K) → (beq a b ≡ true) ↔ (a ≡ b)

instance abbrev pub text_key : Eq Text
text_key = record { beq = text_eq; beq_iff = text_eq_iff }

module _ {ℓ κ} {K : Type ℓ} {V : Type κ} ⦃e : Eq K⦄ where
  -- `get`
  abbrev pub lookup : K → List (K × V) → Option V
  lookup k [] = none
  lookup k ((j, v) ∷ m) = if e.beq j k then some v else lookup k m

  -- `insert`: the later value replaces the earlier one
  abbrev pub insert : K → V → List (K × V) → List (K × V)
  insert k v [] = (k, v) ∷ []
  insert k v ((j, w) ∷ m) = if e.beq j k then (k, v) ∷ m else (j, w) ∷ insert k v m

  pub lookup-insert :
      (k j : K) (v : V) (m : List (K × V))
      → lookup j (insert k v m) ≡ (if e.beq k j then some v else lookup j m)
  lookup-insert k j v [] = refl
  lookup-insert k j v ((i, w) ∷ m) =
      ground (arith, e.beq_iff k j, e.beq_iff i k, e.beq_iff i j, lookup-insert k j v m)

module _ {ℓ} {K : Type ℓ} ⦃e : Eq K⦄ where
  -- `contains`
  abbrev pub contains : K → List K → Bool
  contains a [] = false
  contains a (x ∷ xs) = e.beq x a || contains a xs

  -- `HashSet::insert`, the set only
  abbrev pub add : K → List K → List K
  add a xs = if contains a xs then xs else a ∷ xs

-- What holds of every entry holds of the one that is found.
pub lookup-All {ℓ κ ι} :
    {K : Type ℓ} {V : Type κ} ⦃e : Eq K⦄ (P : V → Type ι) (k : K) (m : List (K × V)) (v : V)
    → All (λ entry. P entry.1) m
    → lookup k m ≡ some v
    → P v
lookup-All P k [] v h found = cc
lookup-All ⦃e⦄ P k ((j, w) ∷ m) v (now, later) found = elim (Bool-cases (e.beq j k)) [
  | inl here ↦ subst P (cc) now
  | inr there ↦ lookup-All P k m v later (ground arith)
]
