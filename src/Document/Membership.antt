-- ===== src/Document/Membership.antt =====
-- Which members an object has, beside the ones that a document knows.
use vaid.Prelude.{
  ◌⊎◌, ◌≡◌, refl, sym, ◌∙◌, true, false, Option, none, some, Text, text, text_eq, text_eq_iff, All,
  arith, Bool-cases, inl, inr,
}
use vaid.Json.{Members, end, member, get, put}
use vaid.Json.Objects.{has, get-put}
use vaid.Document.{PresentedUuid, Vaid, put_all, known_members}
use vaid.Document.Reading.{is_known, unknown_of}
use vaid.Document.Unknown.{get-put_all_other, named_in, IsUnknown}

-- No object names a member twice.
abbrev pub NoRepeats : Members → Type 0
NoRepeats end = Unit
NoRepeats (member k j rest) = (has k rest ≡ false) × NoRepeats rest

-- Every member of the one object is in the other, with the same value.
abbrev pub AllIn : Members → Members → Type 0
AllIn m end = Unit
AllIn m (member k j rest) = (get k m ≡ some j) × AllIn m rest

pub get-AllIn :
    (k : Text) (m known : Members) → AllIn m known → has k known ≡ true → get k known ≡ get k m
get-AllIn k m end a h = cc
get-AllIn k m (member j x rest) (a, as') h = elim (Bool-cases (text_eq j k)) [
  | inl same ↦ let e = (text_eq_iff j k).0 same in rw same (sym (rw (← e) a))
  | inr other ↦ let h' : has k rest ≡ true = ground arith in rw other (get-AllIn k m rest as' h')
]

pub get-has : (k : Text) (m : Members) → has k m ≡ false → get k m ≡ none
get-has k end h = refl
get-has k (member j x rest) h = ground (arith, get-has k rest)

pub has-none : (k : Text) (m : Members) → get k m ≡ none → has k m ≡ false
has-none k end h = refl
has-none k (member j x rest) h = ground (arith, has-none k rest)

pub named_in-unknown_of :
    (k : Text) (m : Members) → has k m ≡ false → named_in k (unknown_of m) ≡ false
named_in-unknown_of k end h = refl
named_in-unknown_of k (member j x rest) h = elim (Bool-cases (text_eq j k)) [
  | inl same ↦ absurd (ground arith)
  | inr other ↦
      let h' : has k rest ≡ false = ground arith in
      elim (Bool-cases (is_known j)) [
        | inl known ↦ rw known (named_in-unknown_of k rest h')
        | inr free ↦ rw (free, other) (named_in-unknown_of k rest h')
      ]
]

pub unknown_of-IsUnknown : (m : Members) → All IsUnknown (unknown_of m)
unknown_of-IsUnknown end = tt
unknown_of-IsUnknown (member j x rest) = elim (Bool-cases (is_known j)) [
  | inl known ↦ rw known (unknown_of-IsUnknown rest)
  | inr free ↦ rw free ((free, unknown_of-IsUnknown rest))
]

-- An unknown member that is put back is there again.
pub get-put_all_unknown :
    (k : Text) (m known : Members)
    → is_known k ≡ false
    → NoRepeats m
    → get k known ≡ none
    → get k (put_all (unknown_of m) known) ≡ get k m
get-put_all_unknown k end known u d h = h
get-put_all_unknown k (member j w rest) known u (d, ds) h = elim (Bool-cases (text_eq j k)) [
  | inl same ↦
      let e = (text_eq_iff j k).0 same in
      let free : is_known j ≡ false = rw e u in
      let gone : named_in k (unknown_of rest) ≡ false = named_in-unknown_of k rest (rw (← e) d) in
      rw (free, same)
        (get-put_all_other k (unknown_of rest) (put j w known) gone
          ∙ (get-put j k w known ∙ rw same refl))
  | inr other ↦ elim (Bool-cases (is_known j)) [
    | inl kn ↦ rw (kn, other) (get-put_all_unknown k rest known u ds h)
    | inr free ↦
        rw (free, other)
          (get-put_all_unknown k rest (put j w known) u ds (get-put j k w known ∙ rw other h))
  ]
]

abbrev pub with_parent : Vaid → Option (Option PresentedUuid) → Vaid
with_parent v o = record v { parent_vaid_member = o }

-- A document has all names that it knows, save that of a parent that is absent.
pub has-known_members :
    (v : Vaid) (k : Text) (o : Option (Option PresentedUuid))
    → is_known k ≡ true
    → (has k (known_members (with_parent v o)) ≡ true) ⊎ ((k ≡ text "parent_vaid") × (o ≡ none))
unfolding known_members is_known
has-known_members v k (some none) h = inl h
has-known_members v k (some (some u)) h = inl h
has-known_members v k none h = elim (Bool-cases (text_eq (text "parent_vaid") k)) [
  | inl same ↦ inr (sym ((text_eq_iff (text "parent_vaid") k).0 same), refl)
  | inr other ↦ inl (rw other at h)
]

pub get-known_members_no_parent :
    (v : Vaid) (o : Option (Option PresentedUuid))
    → o ≡ none
    → get (text "parent_vaid") (known_members (with_parent v o)) ≡ none
unfolding known_members
get-known_members_no_parent v none h = refl
get-known_members_no_parent v (some u) h = cc
