-- ===== src/TrustDomain/Split.antt =====
-- Splitting at the dots and joining again.
use vaid.Prelude.{
  ℕ, ◌≡◌, ◌≢◌, refl, ap, List, [], ◌∷◌, ◌++◌, ◌∙◌, arith, Text, All, ◌==◌, Bool-cases, inl, inr,
  ==_iff,
}
use vaid.TrustDomain.{split, cons_head}

-- The labels with a dot between any two.
abbrev pub join : List Text → Text
join [] = []
join (l ∷ []) = l
join (l ∷ k ∷ ls) = l ++ (b'.' ∷ join (k ∷ ls))

abbrev pub HasNoDot : Text → Type 0
HasNoDot l = All (λ c. c ≢ b'.') l

cons_head-ne-nil : (c : ℕ) (ls : List Text) → cons_head c ls ≢ []
unfolding cons_head
cons_head-ne-nil c [] = cc
cons_head-ne-nil c (l ∷ ls) = cc

pub split-ne-nil : (s : Text) → split s ≢ []
unfolding split
split-ne-nil [] = cc
split-ne-nil (c ∷ s) = ground (arith, cons_head-ne-nil c (split s))

join-cons_head : (c : ℕ) (ls : List Text) → join (cons_head c ls) ≡ c ∷ join ls
unfolding cons_head
join-cons_head c [] = refl
join-cons_head c (l ∷ []) = refl
join-cons_head c (l ∷ k ∷ ls) = refl

join-nil-cons : (ls : List Text) → ls ≢ [] → join ([] ∷ ls) ≡ b'.' ∷ join ls
join-nil-cons [] n = absurd (n refl)
join-nil-cons (l ∷ ls) n = refl

-- Nothing is lost by splitting.
pub join-split : (s : Text) → join (split s) ≡ s
unfolding split
join-split [] = refl
join-split (c ∷ s) = elim (Bool-cases (c == b'.')) [
  | inl dot ↦
      rw dot (join-nil-cons (split s) (split-ne-nil s) ∙ cc (join-split s, (==_iff c b'.').0 dot))
  | inr other ↦ rw other (join-cons_head c (split s) ∙ ap (λ t. c ∷ t) (join-split s))
]

pub split_label : (l : Text) → HasNoDot l → split l ≡ l ∷ []
unfolding split cons_head
split_label [] h = refl
split_label (c ∷ l) h = ground (arith, split_label l h.1)

split-append : (l s : Text) → HasNoDot l → split (l ++ b'.' ∷ s) ≡ l ∷ split s
unfolding split cons_head
split-append [] s h = refl
split-append (c ∷ l) s h = ground (arith, split-append l s h.1)

-- Labels without dots are what splitting gives back.
pub split-join :
    (l : Text) (ls : List Text) → All HasNoDot (l ∷ ls) → split (join (l ∷ ls)) ≡ l ∷ ls
split-join l [] h = split_label l h.0
split-join l (k ∷ ls) h = split-append l (join (k ∷ ls)) h.0 ∙ ap (λ t. l ∷ t) (split-join k ls h.1)
