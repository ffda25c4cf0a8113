-- ===== src/Scope/Prefix.antt =====
-- `prefix_contains` against the rule of docs/spec/scope.md (S.3), and the order that it makes.
use mathlib.Core.List.{append_assoc, append-nil}
use vaid.Prelude.{
  ℕ, ◌≡◌, refl, sym, ap, ◌∙◌, ◌↔◌, ◌⊎◌, inl, inr, true, false, [], ◌∷◌, ◌++◌, arith, Text,
  text_eq_iff, starts_with, starts_with_iff, ends_with, any, ||-split, if◌then◌else◌, Bool-cases,
  text_eq,
}
use vaid.Scope.{scope_separators, prefix_contains}

abbrev pub EndsWithSeparator : Text → Type 0
EndsWithSeparator p = any (λ sep. ends_with p sep) scope_separators ≡ true

abbrev pub IsSeparator : ℕ → Type 0
IsSeparator sep = (sep ≡ b'/') ⊎ (sep ≡ b'.')

-- The rule as the specification states it.
pub data Contains (p r : Text) : Type 0 where
  match_all : p ≡ [] → Contains p r
  same : r ≡ p → Contains p r
  below_separator : EndsWithSeparator p → (rest : Text) → r ≡ p ++ rest → Contains p r
  next_segment : (sep : ℕ) → IsSeparator sep → (rest : Text) → r ≡ p ++ sep ∷ rest → Contains p r

starts_with_segment :
    (sep : ℕ) (p r : Text)
    → starts_with r (p ++ sep ∷ []) ≡ true
    → (rest : Text) × (r ≡ p ++ sep ∷ rest)
starts_with_segment sep p r h =
    let (rest, e) = (starts_with_iff r (p ++ sep ∷ [])).0 h in
    (rest, e ∙ append_assoc p (sep ∷ []) rest)

segment_starts_with :
    (sep : ℕ) (p rest : Text) → starts_with (p ++ sep ∷ rest) (p ++ sep ∷ []) ≡ true
segment_starts_with sep p rest =
    (starts_with_iff (p ++ sep ∷ rest) (p ++ sep ∷ [])).1
      (rest, sym (append_assoc p (sep ∷ []) rest))

segment_cases :
    (p r : Text) → any (λ sep. starts_with r (p ++ sep ∷ [])) scope_separators ≡ true → Contains p r
segment_cases p r h = elim (||-split _ _ h) [
  | inl slash ↦
      let (rest, e) = starts_with_segment b'/' p r slash in next_segment b'/' (inl refl) rest e
  | inr later ↦ elim (||-split _ false later) [
    | inl dot ↦
        let (rest, e) = starts_with_segment b'.' p r dot in next_segment b'.' (inr refl) rest e
    | inr never ↦ cc
  ]
]

longer_cases :
    (p r : Text)
    → (if any (λ sep. ends_with p sep) scope_separators
        then starts_with r p
        else any (λ sep. starts_with r (p ++ sep ∷ [])) scope_separators)
      ≡ true
    → Contains p r
longer_cases p r h = elim (Bool-cases (any (λ sep. ends_with p sep) scope_separators)) [
  | inl ends ↦ let (rest, e) = (starts_with_iff r p).0 (rw ends at h) in below_separator ends rest e
  | inr open_end ↦ segment_cases p r (rw open_end at h)
]

Contains-of : (p r : Text) → prefix_contains p r ≡ true → Contains p r
unfolding prefix_contains
Contains-of [] r h = match_all refl
Contains-of (c ∷ p) r h = elim (Bool-cases (text_eq r (c ∷ p))) [
  | inl e ↦ same ((text_eq_iff r (c ∷ p)).0 e)
  | inr n ↦ longer_cases (c ∷ p) r (rw n at h)
]

any_segment :
    (sep : ℕ) (p rest : Text)
    → IsSeparator sep
    → any (λ s. starts_with (p ++ sep ∷ rest) (p ++ s ∷ [])) scope_separators ≡ true
any_segment sep p rest (inl e) = rw e (ground (arith, segment_starts_with b'/' p rest))
any_segment sep p rest (inr e) = rw e (ground (arith, segment_starts_with b'.' p rest))

-- Whatever the length tests say, a text that starts with the prefix and goes on as the rule wants
-- is contained.
longer_contained :
    (c : ℕ) (p r : Text)
    → (EndsWithSeparator (c ∷ p) → starts_with r (c ∷ p) ≡ true)
    → (any (λ sep. ends_with (c ∷ p) sep) scope_separators ≡ false
        → any (λ s. starts_with r ((c ∷ p) ++ s ∷ [])) scope_separators ≡ true)
    → prefix_contains (c ∷ p) r ≡ true
unfolding prefix_contains
longer_contained c p r below beside = elim (Bool-cases (text_eq r (c ∷ p))) [
  | inl e ↦ rw e
  | inr n ↦ rw n (elim (Bool-cases (any (λ sep. ends_with (c ∷ p) sep) scope_separators)) [
    | inl ends ↦ rw ends (below ends)
    | inr open_end ↦ rw open_end (beside open_end)
  ])
]

prefix_contains_of : (p r : Text) → Contains p r → prefix_contains p r ≡ true
unfolding prefix_contains
prefix_contains_of [] r h = refl
prefix_contains_of (c ∷ p) r (match_all e) = cc
prefix_contains_of (c ∷ p) r (same e) = rw ((text_eq_iff r (c ∷ p)).1 e)
prefix_contains_of (c ∷ p) r (below_separator ends rest e) =
    longer_contained c p r (λ _. (starts_with_iff r (c ∷ p)).1 (rest, e)) (λ open_end. cc)
prefix_contains_of (c ∷ p) r (next_segment sep is_sep rest e) =
    longer_contained c p r (λ _. (starts_with_iff r (c ∷ p)).1 (sep ∷ rest, e))
      (λ _. rw e (any_segment sep (c ∷ p) rest is_sep))

-- A prefix contains a resource exactly if it is empty, is the resource, ends with a separator and
-- begins the resource, or is followed in the resource by a separator.
pub prefix_contains_iff : (p r : Text) → (prefix_contains p r ≡ true) ↔ Contains p r
prefix_contains_iff p r = (Contains-of p r, prefix_contains_of p r)

append-eq-nil : (p s : Text) → p ++ s ≡ [] → p ≡ []
append-eq-nil [] s h = refl
append-eq-nil (c ∷ p) s h = cc

-- What a text contains is anything, for the empty text, or goes on from it.
goes_on : {q r : Text} → Contains q r → (q ≡ []) ⊎ ((t : Text) × (r ≡ q ++ t))
goes_on (match_all e) = inl e
goes_on {q} (same e) = inr ([], e ∙ sym (append-nil q))
goes_on (below_separator ends t e) = inr (t, e)
goes_on (next_segment sep is_sep t e) = inr (sep ∷ t, e)

regroup : (p : Text) {q r : Text} (s t : Text) → q ≡ p ++ s → r ≡ q ++ t → r ≡ p ++ (s ++ t)
regroup p s t e f = f ∙ ap (λ u. u ++ t) e ∙ append_assoc p s t

Contains-trans : {p q r : Text} → Contains p q → Contains q r → Contains p r
Contains-trans (match_all e) d = match_all e
Contains-trans (same e) d = rw e at d
Contains-trans {p} (below_separator ends s e) d = elim (goes_on d) [
  | inl empty ↦ match_all (append-eq-nil p s (sym e ∙ empty))
  | inr (t, f) ↦ below_separator ends (s ++ t) (regroup p s t e f)
]
Contains-trans {p} (next_segment sep is_sep s e) d = elim (goes_on d) [
  | inl empty ↦ match_all (append-eq-nil p (sep ∷ s) (sym e ∙ empty))
  | inr (t, f) ↦ next_segment sep is_sep (s ++ t) (regroup p (sep ∷ s) t e f)
]

pub prefix_contains_refl : (p : Text) → prefix_contains p p ≡ true
prefix_contains_refl p = (prefix_contains_iff p p).1 (same refl)

-- A resource below a resource below a prefix is below the prefix.
pub prefix_contains_trans :
    (p q r : Text)
    → prefix_contains p q ≡ true
    → prefix_contains q r ≡ true
    → prefix_contains p r ≡ true
prefix_contains_trans p q r h k =
    (prefix_contains_iff p r).1
      (Contains-trans ((prefix_contains_iff p q).0 h) ((prefix_contains_iff q r).0 k))
