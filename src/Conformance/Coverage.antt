-- ===== src/Conformance/Coverage.antt =====
-- That the checker checks everything that it was given: `run` of
-- crates/vaid-mint/src/bin/conformance.rs.
use vaid.Prelude.{
  ◌≡◌, refl, sym, ap, ◌↔◌, Bool, true, false, not, Option, some, List, [], ◌∷◌, Text, text_eq_iff,
  text_key, contains, lookup, is_empty, all_iff, All-at, All-of_In, In, inl, inr, arith,
}
use vaid.Json.{Json}
use vaid.Platform.{Platform, Instant}
use vaid.Conformance.{
  Check, passed, require, or_block, or_panic, none_embedded, unchecked_vector, missing_vector,
}
use vaid.Conformance.Passing.{
  passed_value, passes, >>=-Passes, >>=-passed, require-eq-passed, or_block-eq-passed,
  or_panic-eq-passed,
}
use vaid.Conformance.Scopes.{included}
use vaid.Conformance.Refusals.{contains-In}
use vaid.Conformance.Running.{
  Digest, digest_of, Checks, Vectors, names, check_vector, check_vectors, run_with, vector_checks,
  run, Report, sort_lines,
}

In-contains : (t : Text) (ts : List Text) → In t ts → contains t ts ≡ true
In-contains t [] m = absurd m
In-contains t (u ∷ ts) m = elim m [
  | inl e ↦ let here = (text_eq_iff u t).1 (sym e) in rw here refl
  | inr there ↦ ground (arith, In-contains t ts there)
]

included_iff : (xs ys : List Text) → (included xs ys ≡ true) ↔ ((t : Text) → In t xs → In t ys)
included_iff xs ys = (
  λ h t m.
      contains-In t ys
        (All-at (λ x. contains x ys ≡ true) t xs ((all_iff (λ x. contains x ys) xs).0 h) m),
  λ f.
      (all_iff (λ x. contains x ys) xs).1
        (All-of_In (λ x. contains x ys ≡ true) xs (λ t m. In-contains t ys (f t m))),
)

module _ (parse_json : Text → Option Json) (report : Json → Digest) (checks : Checks) where
  -- A vector whose check passes, and its line of the report.
  pub record IsChecked (vector : Text × Text) (line : Text × Digest) : Type 0 where
    pub value : Json
    pub parses : parse_json vector.1 ≡ some value
    pub check : Json → Check
    pub known : lookup vector.0 checks ≡ some check
    pub passing : check value ≡ passed tt
    pub reported : line ≡ (vector.0, report value)

  abbrev pub AreChecked : Vectors → List (Text × Digest) → Type 0
  AreChecked [] [] = Unit
  AreChecked (vector ∷ vectors) (line ∷ lines) = IsChecked vector line × AreChecked vectors lines
  AreChecked _ _ = ⊥

  check_vector-IsChecked :
      (vector : Text × Text) (line : Text × Digest)
      → (check_vector parse_json report checks vector ≡ passed line) ↔ IsChecked vector line
  unfolding check_vector or_block or_panic
  check_vector-IsChecked vector line = (
    λ h. elim (>>=-Passes _ _ h) [
      | passes value parses h1 ↦ elim (>>=-Passes _ _ h1) [
        | passes check known h2 ↦ elim (>>=-Passes _ _ h2) [
          | passes u passing reported ↦ record {
            value = value;
            parses = or_block-eq-passed _ _ parses;
            check = check;
            known = or_panic-eq-passed _ known;
            passing = passing;
            reported = sym (passed_value reported);
          }
        ]
      ]
    ],
    λ c. >>=-passed _ _ c.value _ (rw c.parses refl) (
        >>=-passed _ _ c.check _ (rw c.known refl)
          (>>=-passed _ _ tt _ c.passing (ap (λ l. passed l) (sym c.reported)))),
  )

  AreChecked-of_passed :
      (vectors : Vectors) (lines : List (Text × Digest))
      → check_vectors parse_json report checks vectors ≡ passed lines
      → AreChecked vectors lines
  unfolding check_vectors
  AreChecked-of_passed [] lines h =
      let none_left : [] ≡ lines = passed_value h in rw (← none_left) tt
  AreChecked-of_passed (vector ∷ vectors) lines h = elim (>>=-Passes _ _ h) [
    | passes line now h1 ↦ elim (>>=-Passes _ _ h1) [
      | passes rest later h2 ↦
          let whole : line ∷ rest ≡ lines = passed_value h2 in
          rw (← whole)
            (((check_vector-IsChecked vector line).0 now, AreChecked-of_passed vectors rest later))
    ]
  ]

  AreChecked-passed :
      (vectors : Vectors) (lines : List (Text × Digest))
      → AreChecked vectors lines
      → check_vectors parse_json report checks vectors ≡ passed lines
  unfolding check_vectors
  AreChecked-passed [] [] c = refl
  AreChecked-passed [] (line ∷ lines) c = absurd c
  AreChecked-passed (vector ∷ vectors) [] c = absurd c
  AreChecked-passed (vector ∷ vectors) (line ∷ lines) (c, cs) =
      >>=-passed _ _ line _ ((check_vector-IsChecked vector line).1 c)
        (>>=-passed _ _ lines _ (AreChecked-passed vectors lines cs) refl)

  -- What a run covers.
  pub record Covers (embedded : Vectors) (given : List (Text × Digest)) : Type 0 where
    pub some_vector : is_empty embedded ≡ false
    pub checked : (t : Text) → In t (names embedded) → In t (names checks)
    pub present : (t : Text) → In t (names checks) → In t (names embedded)
    pub found : Report
    pub lines : AreChecked embedded found
    pub sorted : sort_lines found ≡ given

  not-false : (b : Bool) → not b ≡ true → b ≡ false
  not-false b h = ground arith

  -- The same for any table of checks.
  pub run_with_iff :
      (embedded : Vectors) (given : List (Text × Digest))
      → (run_with parse_json report checks embedded ≡ passed given) ↔ Covers embedded given
  unfolding run_with require
  run_with_iff embedded given = (
    λ h. elim (>>=-Passes _ _ h) [
      | passes u1 some_vector h1 ↦ elim (>>=-Passes _ _ h1) [
        | passes u2 checked h2 ↦ elim (>>=-Passes _ _ h2) [
          | passes u3 present h3 ↦ elim (>>=-Passes _ _ h3) [
            | passes found each h4 ↦ record {
              some_vector = not-false _ (require-eq-passed _ none_embedded some_vector);
              checked = (included_iff _ _).0 (require-eq-passed _ unchecked_vector checked);
              present = (included_iff _ _).0 (require-eq-passed _ missing_vector present);
              found = found;
              lines = AreChecked-of_passed embedded found each;
              sorted = passed_value h4;
            }
          ]
        ]
      ]
    ],
    λ c. >>=-passed _ _ tt _ (rw (c.some_vector) refl) (
        >>=-passed _ _ tt _ (rw ((included_iff (names embedded) (names checks)).1 c.checked) refl) (
          >>=-passed _ _ tt _ (rw ((included_iff (names checks) (names embedded)).1 c.present) refl)
            (>>=-passed _ _ c.found _ (AreChecked-passed embedded c.found c.lines)
              (ap (λ l. passed l) c.sorted)))),
  )

-- The run passes, with a report, exactly if at least one vector is embedded, the names of the
-- vectors are exactly those of the nine checks, and every vector parses and passes the check of
-- its name; the report has a line for each vector, sorted.
pub run_iff :
    (p : Platform) (parse_json : Text → Option Json) (read_datetime : Text → Option Instant)
    (now : Instant)
    → (embedded : Vectors) (given : List (Text × Digest))
    → (run p parse_json read_datetime now embedded ≡ passed given)
      ↔ Covers parse_json
          (λ v. digest_of v)
          (vector_checks p parse_json read_datetime now)
          embedded
          given
unfolding run
run_iff p parse_json read_datetime now embedded given =
    run_with_iff parse_json (λ v. digest_of v) (vector_checks p parse_json read_datetime now)
      embedded given
