-- ===== src/TrustDomain/Grammar.antt =====
-- `is_valid_trust_domain` against the grammar of ADR-0004.
use mathlib.Core.Path.{subst}
use vaid.Prelude.{
  ℕ, ◌≤◌, ◌≡◌, ◌≢◌, refl, ap, sym, ◌∙◌, ◌↔◌, ◌⊎◌, inl, inr, true, false, not, ◌||◌, some, List, [],
  ◌∷◌, ◌++◌, arith, Text, All, all, all_iff, last, length, is_empty, ends_with, ◌==◌, ==_refl,
  All-mono, Bool-cases,
}
use vaid.TrustDomain.{
  is_ascii_lowercase, is_ascii_digit, starts_with_char, label_ok, labels_ok, last_not_numeric,
  split, is_valid_trust_domain,
}
use vaid.TrustDomain.Split.{join, HasNoDot, join-split, split-join, split-ne-nil}

-- A lowercase letter, a digit or a hyphen.
abbrev pub IsLabelByte : ℕ → Type 0
IsLabelByte b = ((b'a' ≤ b) × (b ≤ b'z')) ⊎ ((b'0' ≤ b) × (b ≤ b'9')) ⊎ (b ≡ b'-')

abbrev pub IsDigit : ℕ → Type 0
IsDigit b = (b'0' ≤ b) × (b ≤ b'9')

pub record IsLabel (l : Text) : Type 0 where
  pub not_empty : 1 ≤ length l
  pub bounded : length l ≤ 63
  pub no_hyphen_first : (t : Text) → l ≢ b'-' ∷ t
  pub no_hyphen_last : (t : Text) → l ≢ t ++ b'-' ∷ []
  pub bytes : All IsLabelByte l

pub record IsTrustDomain (s : Text) : Type 0 where
  pub first : Text
  pub others : List Text
  pub joined : s ≡ join (first ∷ others)
  pub two_labels : 1 ≤ length others
  pub labels : All IsLabel (first ∷ others)
  pub top : Text
  pub top_last : last (first ∷ others) ≡ some top
  pub top_not_numeric : ¬ All IsDigit top
  pub bounded : length s ≤ 253

ends_with-append : (t : Text) (c : ℕ) → ends_with (t ++ c ∷ []) c ≡ true
ends_with-append [] c = ==_refl c
ends_with-append (d ∷ []) c = ==_refl c
ends_with-append (d ∷ e ∷ t) c = ends_with-append (e ∷ t) c

init_of_ends_with : (l : Text) (c : ℕ) → ends_with l c ≡ true → (t : Text) × (l ≡ t ++ c ∷ [])
init_of_ends_with [] c h = cc
init_of_ends_with (d ∷ []) c h = ([], ground arith)
init_of_ends_with (d ∷ e ∷ l) c h = let (t, same) = init_of_ends_with (e ∷ l) c h in (d ∷ t, cc)

byte_test_iff :
    (b : ℕ) → ((is_ascii_lowercase b || is_ascii_digit b || (b == b'-')) ≡ true) ↔ IsLabelByte b
byte_test_iff b = ground arith

bytes_iff :
    (l : Text)
    → (all (λ b. is_ascii_lowercase b || is_ascii_digit b || (b == b'-')) l ≡ true)
      ↔ All IsLabelByte l
bytes_iff l = (
  (λ h. All-mono _ _ l (λ b. (byte_test_iff b).0) ((all_iff _ l).0 h)),
  (λ h. (all_iff _ l).1 (All-mono _ _ l (λ b. (byte_test_iff b).1) h)),
)

starts_with_char_iff :
    (l : Text) (c : ℕ) → (starts_with_char l c ≡ false) ↔ ((t : Text) → l ≢ c ∷ t)
starts_with_char_iff [] c = ((λ _ t. cc), (λ _. refl))
starts_with_char_iff (d ∷ l) c = ((λ h t. ground arith), (λ h. ground (arith, h l)))

no_hyphen_last_iff : (l : Text) (c : ℕ) → (ends_with l c ≡ false) ↔ ((t : Text) → l ≢ t ++ c ∷ [])
no_hyphen_last_iff l c = (
  (λ h t e. cc (ends_with-append t c, ap (λ u. ends_with u c) e)),
  (λ h. elim (Bool-cases (ends_with l c)) [
    | inl yes_it ↦ let (t, e) = init_of_ends_with l c yes_it in absurd (h t e)
    | inr never ↦ never
  ]),
)

one-le-length : (l : Text) → is_empty l ≡ false → 1 ≤ length l
one-le-length [] h = cc
one-le-length (b ∷ l) h = omega arith

label_ok-IsLabel : (l : Text) → label_ok l ≡ true → IsLabel l
unfolding label_ok
label_ok-IsLabel l h = record {
  not_empty = one-le-length l (ground arith);
  bounded = ground arith;
  no_hyphen_first = (starts_with_char_iff l b'-').0 (ground arith);
  no_hyphen_last = (no_hyphen_last_iff l b'-').0 (ground arith);
  bytes = (bytes_iff l).0 (ground arith);
}

IsLabel-label_ok : (l : Text) → IsLabel l → label_ok l ≡ true
unfolding label_ok
IsLabel-label_ok l h = ground (
  arith,
  (starts_with_char_iff l b'-').1 h.no_hyphen_first,
  (no_hyphen_last_iff l b'-').1 h.no_hyphen_last,
  (bytes_iff l).1 h.bytes,
  h.not_empty,
  h.bounded,
)

labels_iff : (ls : List Text) → (all label_ok ls ≡ true) ↔ All IsLabel ls
labels_iff ls = (
  (λ h. All-mono _ _ ls label_ok-IsLabel ((all_iff _ ls).0 h)),
  (λ h. (all_iff _ ls).1 (All-mono _ _ ls IsLabel-label_ok h)),
)

-- A dot is no byte of a label.
IsLabel-HasNoDot : (l : Text) → IsLabel l → HasNoDot l
IsLabel-HasNoDot l h = All-mono _ _ l (λ b is_byte. ground arith) h.bytes

digits_iff : (l : Text) → (all is_ascii_digit l ≡ true) ↔ All IsDigit l
digits_iff l = (
  (λ h. All-mono _ _ l (λ b d. ground arith) ((all_iff _ l).0 h)),
  (λ h. (all_iff _ l).1 (All-mono _ _ l (λ b d. ground arith) h)),
)

not_numeric : (l : Text) → not (all is_ascii_digit l) ≡ true → ¬ All IsDigit l
not_numeric l h d = cc ((digits_iff l).1 d)

numeric_false : (l : Text) → ¬ All IsDigit l → not (all is_ascii_digit l) ≡ true
numeric_false l h = elim (Bool-cases (all is_ascii_digit l)) [
  | inl numeric ↦ absurd (h ((digits_iff l).0 numeric))
  | inr other ↦ rw other
]

last-cons : (l : Text) (ls : List Text) → (t : Text) × (last (l ∷ ls) ≡ some t)
last-cons l [] = (l, refl)
last-cons l (k ∷ ls) = last-cons k ls

-- What the tests on the labels say.
labels_ok_split :
    (l : Text) (ls : List Text) (top : Text)
    → last (l ∷ ls) ≡ some top
    → labels_ok (l ∷ ls) ≡ true
    → (1 ≤ length ls) × (all label_ok (l ∷ ls) ≡ true) × (not (all is_ascii_digit top) ≡ true)
unfolding labels_ok
labels_ok_split l ls top e h =
    let h' : last_not_numeric (last (l ∷ ls)) ≡ true = ground arith in
    (ground arith, ground arith, rw e at h')

labels_ok_of :
    (l : Text) (ls : List Text) (top : Text)
    → last (l ∷ ls) ≡ some top
    → 1 ≤ length ls
    → all label_ok (l ∷ ls) ≡ true
    → not (all is_ascii_digit top) ≡ true
    → labels_ok (l ∷ ls) ≡ true
unfolding labels_ok
labels_ok_of l ls top e two each numeric =
    let h : last_not_numeric (last (l ∷ ls)) ≡ true = rw e numeric in ground arith

IsTrustDomain-of_labels :
    (s l : Text) (ls : List Text)
    → split s ≡ l ∷ ls
    → length s ≤ 253
    → labels_ok (l ∷ ls) ≡ true
    → IsTrustDomain s
IsTrustDomain-of_labels s l ls e short h =
    let (top, is_last) = last-cons l ls in
    let (two, each, numeric) = labels_ok_split l ls top is_last h in
    record {
      first = l;
      others = ls;
      joined = sym (join-split s) ∙ ap join e;
      two_labels = two;
      labels = (labels_iff (l ∷ ls)).0 each;
      top = top;
      top_last = is_last;
      top_not_numeric = not_numeric top numeric;
      bounded = short;
    }

valid-IsTrustDomain :
    (s : Text) (ls : List Text) → split s ≡ ls → is_valid_trust_domain s ≡ true → IsTrustDomain s
unfolding is_valid_trust_domain
valid-IsTrustDomain s [] e h = absurd (split-ne-nil s e)
valid-IsTrustDomain s (l ∷ ls) e h =
    IsTrustDomain-of_labels s l ls e (ground arith)
      (subst (λ t. labels_ok t ≡ true) e (ground arith))

not_empty_of_split : (s l k : Text) (ls : List Text) → split s ≡ l ∷ k ∷ ls → is_empty s ≡ false
unfolding split
not_empty_of_split [] l k ls e = cc
not_empty_of_split (c ∷ s) l k ls e = refl

not_empty_of_two :
    (s l : Text) (ls : List Text) → split s ≡ l ∷ ls → 1 ≤ length ls → is_empty s ≡ false
not_empty_of_two s l [] e two = absurd (omega arith)
not_empty_of_two s l (k ∷ ls) e two = not_empty_of_split s l k ls e

IsTrustDomain-valid : (s : Text) → IsTrustDomain s → is_valid_trust_domain s ≡ true
unfolding is_valid_trust_domain
IsTrustDomain-valid s d =
    let pieces : split s ≡ d.first ∷ d.others =
      ap split d.joined
      ∙ split-join d.first d.others (All-mono _ _ (d.first ∷ d.others) IsLabel-HasNoDot d.labels) in
    let labels_pass : labels_ok (split s) ≡ true = rw pieces (
      labels_ok_of d.first d.others d.top d.top_last d.two_labels
        ((labels_iff (d.first ∷ d.others)).1 d.labels) (numeric_false d.top d.top_not_numeric)) in
    let filled = not_empty_of_two s d.first d.others pieces d.two_labels in
    let short = d.bounded in ground (arith, filled, labels_pass, short)

-- The validator accepts a text exactly if the grammar of ADR-0004 does: at most 253 bytes, at
-- least two labels joined by dots, each of 1 to 63 lowercase letters, digits and hyphens with no
-- hyphen at either end, and a last label that is not all digits.
pub is_valid_trust_domain_iff : (s : Text) → (is_valid_trust_domain s ≡ true) ↔ IsTrustDomain s
is_valid_trust_domain_iff s = (valid-IsTrustDomain s (split s) refl, IsTrustDomain-valid s)
