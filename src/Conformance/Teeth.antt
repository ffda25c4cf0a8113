-- ===== src/Conformance/Teeth.antt =====
-- That the scope vector has teeth: what an implementation must answer for `check_scope` of
-- crates/vaid-mint/src/bin/conformance.rs to pass it.
use vaid.Prelude.{
  ◌≤◌, ◌<◌, ◌≡◌, ◌≢◌, refl, sym, ◌∙◌, Bool, true, false, not, List, [], ◌∷◌, Text, text, is_empty,
  In, inl, inr, arith, Bool-cases, &&-split, ltb→lt, leb→le,
}
use vaid.Json.{Json}
use vaid.Scope.{ScopeBoundaryEntry}
use vaid.Conformance.{passed, same, count, cases_at}
use vaid.Conformance.Passing.{
  passed_value, passes, >>=-Passes, require-eq-passed, same_iff, same_refl, non_empty-eq-passed,
}
use vaid.Conformance.Scopes.{
  Matcher, ScopeCase, bare_prefix, disagrees, check_scope_cases, check_scope_with,
}

-- A case that is counted is there.
pub count-positive :
    {A : Type 0} (p : A → Bool) (xs : List A) → 0 < count p xs → (x : A) × In x xs × (p x ≡ true)
count-positive p [] h = absurd (omega arith)
count-positive p (x ∷ xs) h = elim (Bool-cases (p x)) [
  | inl here ↦ (x, inl refl, here)
  | inr other ↦ let (y, there, holds) = count-positive p xs (rw other at h) in (y, inr there, holds)
]

-- Every case that was read was answered as it expects.
check_scope_cases-answers :
    (matches : Matcher) (given : List Json) (cases : List ScopeCase)
    → check_scope_cases matches given ≡ passed cases
    → (c : ScopeCase) → In c cases
    → matches c.boundary c.resource ≡ c.expected
unfolding check_scope_cases
check_scope_cases-answers matches [] cases h c m =
    absurd (let none_there : [] ≡ cases = passed_value h in rw (← none_there) at m)
check_scope_cases-answers matches (j ∷ given) cases h c m = elim (>>=-Passes _ _ h) [
  | passes d read h1 ↦ elim (>>=-Passes _ _ h1) [
    | passes u answered h2 ↦ elim (>>=-Passes _ _ h2) [
      | passes rest later h3 ↦
          elim (let whole : d ∷ rest ≡ cases = passed_value h3 in rw (← whole) at m) [
            | inl e ↦ rw e (same_iff _ _ (require-eq-passed _ _ answered))
            | inr there ↦ check_scope_cases-answers matches given rest later c there
          ]
    ]
  ]
]

not-true : (b : Bool) → not b ≡ true → b ≡ false
not-true b h = ground arith

same_of : (a b : Bool) → a ≡ b → same a b ≡ true
same_of a b e = rw e (same_refl b)

-- What a vector that passes has in it.
record HasTeeth (matches : Matcher) (v : Json) : Type 0 where
  cases : List ScopeCase
  read : check_scope_cases matches (cases_at v (text "cases")) ≡ passed cases
  positive : ScopeCase
  positive_in : In positive cases
  accepts : positive.expected ≡ true
  negative : ScopeCase
  negative_in : In negative cases
  refuses : not negative.expected ≡ true
  sibling : ScopeCase
  sibling_in : In sibling cases
  differs : disagrees sibling ≡ true

HasTeeth-of_passed :
    (matches : Matcher) (v : Json) → check_scope_with matches v ≡ passed tt → HasTeeth matches v
unfolding check_scope_with
HasTeeth-of_passed matches v h = elim (>>=-Passes _ _ h) [
  | passes given there h1 ↦ elim (>>=-Passes _ _ h1) [
    | passes cases read h2 ↦ elim (>>=-Passes _ _ h2) [
      | passes u two h3 ↦ elim (>>=-Passes _ _ h3) [
        | passes w five h4 ↦
            let (some_true, some_false) = &&-split _ _ (require-eq-passed _ _ two) in
            let (pos, pos_in, pos_yes) =
              count-positive (λ c. c.expected) cases (ltb→lt _ _ some_true) in
            let (neg, neg_in, neg_no) =
              count-positive (λ c. not c.expected) cases (ltb→lt _ _ some_false) in
            let many : 5 ≤ count disagrees cases = leb→le _ _ (require-eq-passed _ _ five) in
            let (sib, sib_in, differs) = count-positive disagrees cases (omega arith) in
            record {
              cases = cases;
              read = rw (non_empty-eq-passed (cases_at v (text "cases")) there) read;
              positive = pos;
              positive_in = pos_in;
              accepts = pos_yes;
              negative = neg;
              negative_in = neg_in;
              refuses = neg_no;
              sibling = sib;
              sibling_in = sib_in;
              differs = differs;
            }
      ]
    ]
  ]
]

-- A matcher that the scope vector passes accepts something, refuses something, and differs from
-- bare prefix matching on a boundary that is not empty: the checker passes neither a constant
-- matcher nor the rule that lets a sibling resource through.
pub check_scope_with-teeth :
    (matches : Matcher) (v : Json)
    → check_scope_with matches v ≡ passed tt
    → ((boundary : List ScopeBoundaryEntry) × (resource : Text) × (matches boundary resource
          ≡ true))
      × ((boundary : List ScopeBoundaryEntry) × (resource : Text) × (matches boundary resource
            ≡ false))
      × ((boundary : List ScopeBoundaryEntry) × (resource : Text) × (is_empty boundary ≡ false)
          × (matches boundary resource ≢ bare_prefix boundary resource))
check_scope_with-teeth matches v h =
    let t = HasTeeth-of_passed matches v h in
    let answers = check_scope_cases-answers matches (cases_at v (text "cases")) t.cases t.read in
    let (bounded, differs) = &&-split _ _ t.differs in
    let answered = answers t.sibling t.sibling_in in
    (
      (t.positive.boundary, t.positive.resource, answers t.positive t.positive_in ∙ t.accepts),
      (
        t.negative.boundary,
        t.negative.resource,
        answers t.negative t.negative_in ∙ not-true _ t.refuses,
      ),
      (
        t.sibling.boundary,
        t.sibling.resource,
        not-true _ bounded,
        λ e. cc (same_of _ _ (sym e ∙ answered), not-true _ differs),
      ),
    )
