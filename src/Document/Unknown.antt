-- ===== src/Document/Unknown.antt =====
-- Members that a document does not know, among those that it does: `#[serde(flatten)]` of
-- crates/vaid-mint/src/document.rs.
use mathlib.Core.List
use vaid.Prelude.{
  ◌≡◌, refl, ap, sym, ◌∙◌, Bool, true, false, none, some, List, [], ◌∷◌, ◌++◌, Text, text_eq,
  text_eq_iff, All, All-mono, arith, if◌then◌else◌, Bool-cases, inl, inr,
}
use vaid.Json.{Json, Members, end, member, get, put}
use vaid.Json.Objects.{has, get-put}
use vaid.Document.{Vaid, put_all, known_members}
use vaid.Document.Reading.{is_known, unknown_of}

-- An unknown member, and a list of them without a repeated name.
abbrev pub IsUnknown : Text × Json → Type 0
IsUnknown (k, j) = is_known k ≡ false

abbrev pub named_in : Text → List (Text × Json) → Bool
named_in k [] = false
named_in k ((j, w) ∷ rest) = if text_eq j k then true else named_in k rest

abbrev pub HasDistinctNames : List (Text × Json) → Type 0
HasDistinctNames [] = Unit
HasDistinctNames ((k, j) ∷ rest) = (named_in k rest ≡ false) × HasDistinctNames rest

-- Other members that are put in leave a member as it was.
pub get-put_all_other :
    (k : Text) (rest : List (Text × Json)) (m : Members)
    → named_in k rest ≡ false
    → get k (put_all rest m) ≡ get k m
get-put_all_other k [] m h = refl
get-put_all_other k ((j, w) ∷ rest) m h = elim (Bool-cases (text_eq j k)) [
  | inl same ↦ absurd (ground arith)
  | inr other ↦
      let h' : named_in k rest ≡ false = ground arith in
      get-put_all_other k rest (put j w m) h' ∙ (get-put j k w m ∙ (rw other refl))
]

pub named_in-known :
    (k : Text) (rest : List (Text × Json))
    → is_known k ≡ true
    → All IsUnknown rest
    → named_in k rest ≡ false
named_in-known k [] h u = refl
named_in-known k ((j, w) ∷ rest) h (u, us) = elim (Bool-cases (text_eq j k)) [
  | inl same ↦
      absurd (let e = (text_eq_iff j k).0 same in let h' : is_known j ≡ true = rw e h in cc)
  | inr other ↦ rw other (named_in-known k rest h us)
]

-- The unknown members of an object that others are put into.
unknown_of-put :
    (k : Text) (w : Json) (m : Members)
    → is_known k ≡ false
    → has k m ≡ false
    → unknown_of (put k w m) ≡ unknown_of m ++ ((k, w) ∷ [])
unknown_of-put k w end h n = rw h refl
unknown_of-put k w (member j x rest) h n = elim (Bool-cases (text_eq j k)) [
  | inl same ↦ absurd (ground arith)
  | inr other ↦
      let n' : has k rest ≡ false = ground arith in
      elim (Bool-cases (is_known j)) [
        | inl known ↦ rw (other, known) (unknown_of-put k w rest h n')
        | inr free ↦ rw (other, free) (ap (λ u. (j, x) ∷ u) (unknown_of-put k w rest h n'))
      ]
]

has-put_other :
    (k j : Text) (w : Json) (m : Members) → text_eq j k ≡ false → has k (put j w m) ≡ has k m
has-put_other k j w end h = rw h refl
has-put_other k j w (member i x rest) h =
    ground (arith, text_eq_iff i j, text_eq_iff j k, text_eq_iff i k, has-put_other k j w rest)

-- None of the members is in the object.
abbrev pub AreNew : List (Text × Json) → Members → Type 0
AreNew rest m = All (λ (entry : Text × Json). has entry.0 m ≡ false) rest

AreNew-put :
    (k : Text) (w : Json) (rest : List (Text × Json)) (m : Members)
    → named_in k rest ≡ false
    → AreNew rest m
    → AreNew rest (put k w m)
AreNew-put k w [] m d n = tt
AreNew-put k w ((j, x) ∷ rest) m d (n, ns) = elim (Bool-cases (text_eq j k)) [
  | inl same ↦ absurd (ground arith)
  | inr other ↦
      let d' : named_in k rest ≡ false = ground arith in
      (
        has-put_other j k w m (ground (arith, text_eq_iff j k, text_eq_iff k j)) ∙ n,
        AreNew-put k w rest m d' ns,
      )
]

pub unknown_of-put_all :
    (rest : List (Text × Json)) (m : Members)
    → All IsUnknown rest
    → HasDistinctNames rest
    → AreNew rest m
    → unknown_of (put_all rest m) ≡ unknown_of m ++ rest
unknown_of-put_all [] m u d n = sym (List.append-nil (unknown_of m))
unknown_of-put_all ((k, w) ∷ rest) m (u, us) (d, ds) (n, ns) =
    unknown_of-put_all rest (put k w m) us ds (AreNew-put k w rest m d ns)
    ∙ (ap (λ u. u ++ rest) (unknown_of-put k w m u n)
        ∙ List.append_assoc (unknown_of m) ((k, w) ∷ []) rest)

abbrev pub AreKnown : Members → Type 0
AreKnown end = Unit
AreKnown (member k j rest) = (is_known k ≡ true) × AreKnown rest

pub has-unknown : (k : Text) (m : Members) → is_known k ≡ false → AreKnown m → has k m ≡ false
has-unknown k end h a = refl
has-unknown k (member j x rest) h (a, as') = elim (Bool-cases (text_eq j k)) [
  | inl same ↦
      absurd (let e = (text_eq_iff j k).0 same in let h' : is_known j ≡ false = rw e h in cc)
  | inr other ↦ rw other (has-unknown k rest h as')
]

-- A document's own members have known names.
pub known_members-AreKnown : (v : Vaid) → AreKnown (known_members v)
unfolding known_members is_known
known_members-AreKnown v =
    elim v.parent_vaid_member
      as (λ o. AreKnown (known_members (record v { parent_vaid_member = o }))) [
        | none ↦ (
          refl,
          (
            refl,
            (
              refl,
              (
                refl,
                (
                  refl,
                  (
                    refl,
                    (refl, (refl, (refl, (refl, (refl, (refl, (refl, (refl, (refl, tt))))))))),
                  ),
                ),
              ),
            ),
          ),
        )
        | some none ↦ (
          refl,
          (
            refl,
            (
              refl,
              (
                refl,
                (
                  refl,
                  (
                    refl,
                    (
                      refl,
                      (refl, (refl, (refl, (refl, (refl, (refl, (refl, (refl, (refl, tt))))))))),
                    ),
                  ),
                ),
              ),
            ),
          ),
        )
        | some (some u) ↦ (
          refl,
          (
            refl,
            (
              refl,
              (
                refl,
                (
                  refl,
                  (
                    refl,
                    (
                      refl,
                      (refl, (refl, (refl, (refl, (refl, (refl, (refl, (refl, (refl, tt))))))))),
                    ),
                  ),
                ),
              ),
            ),
          ),
        )
      ]

pub known_members-AreNew :
    (v : Vaid) (rest : List (Text × Json)) → All IsUnknown rest → AreNew rest (known_members v)
known_members-AreNew v rest u =
    All-mono IsUnknown (λ (entry : Text × Json). has entry.0 (known_members v) ≡ false) rest
      (λ entry h. has-unknown entry.0 (known_members v) h (known_members-AreKnown v)) u

pub unknown_of-AreKnown : (m : Members) → AreKnown m → unknown_of m ≡ []
unknown_of-AreKnown end a = refl
unknown_of-AreKnown (member k j rest) (a, as') = rw a (unknown_of-AreKnown rest as')
