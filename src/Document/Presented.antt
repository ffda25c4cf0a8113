-- ===== src/Document/Presented.antt =====
-- A document that was read is written as it was presented: requirement 3 of ADR-0006, which the
-- module comments of crates/vaid-mint/src/document.rs cite.
use mathlib.Core.Path.{subst}
use mathlib.Core.Option
use vaid.Prelude.{
  ℕ, ◌≡◌, refl, ap, sym, ◌∙◌, true, Option, none, some, List, Text, text, Bool-cases, Option-cases,
  inl, inr,
}
use vaid.Json.{
  Json, null, boolean, uint, number, object, string, array, Items, Members, get, as_str, items_of,
  byte_items, text_items,
}
use vaid.Json.Objects.{has}
use vaid.Json.Reading.{
  >>=-eq-some, read_u8, read_vec, read_member, as_str-string, read_u8-uint, array-read_vec,
}
use vaid.Platform.{Platform}
use vaid.Scope.{ScopeBoundaryEntry}
use vaid.Document.{
  PresentedUuid, Vaid, presented_of_text, known_members, to_members, entry_value, presented_value,
  parent_member,
}
use vaid.Document.Reading.{
  read_entry, is_known, unknown_of, read_version, read_presented, deserialize_present, read_parent,
  read_members,
}
use vaid.Document.Reads.{Reads, read_members-Reads}
use vaid.Document.Unknown.{known_members-AreKnown, has-unknown, get-put_all_other, named_in-known}
use vaid.Document.Membership.{
  NoRepeats, AllIn, get-AllIn, get-has, has-none, unknown_of-IsUnknown, get-put_all_unknown,
  has-known_members, get-known_members_no_parent,
}
use vaid.Document.Entries.{AreEntryObjects, entries-objects}

-- What a parent member stands for in an object.
abbrev parent_json : Option (Option PresentedUuid) → Option Json
parent_json none = none
parent_json (some none) = some null
parent_json (some (some u)) = some (presented_value u)

module _ (p : Platform) where
  presented_value-read_presented :
      (j : Json) (u : PresentedUuid) → read_presented p j ≡ some u → j ≡ presented_value u
  unfolding presented_of_text
  presented_value-read_presented j u h =
      let (raw, text_of, later) = >>=-eq-some (as_str j) _ h in
      let (id, parsed, same) = (Option.map-eq-some_iff _ (p.uuid_parse_str raw)).0 later in
      as_str-string j raw text_of ∙ ap (λ (w : PresentedUuid). string w.raw) same

  parent_json-deserialize_present :
      (j : Json) (o : Option (Option PresentedUuid))
      → deserialize_present p j ≡ some o
      → some j ≡ parent_json o
  unfolding deserialize_present
  parent_json-deserialize_present null o h = rw (← Option.some-injective (some none) o h) refl
  parent_json-deserialize_present (string s) o h =
      let (u, reads, same) = >>=-eq-some (read_presented p (string s)) _ h in
      rw (← Option.some-injective (some (some u)) o same)
        (ap (λ j. some j) (presented_value-read_presented (string s) u reads))
  parent_json-deserialize_present (boolean b) o h = cc
  parent_json-deserialize_present (uint n) o h = cc
  parent_json-deserialize_present (number s) o h = cc
  parent_json-deserialize_present (array is) o h = cc
  parent_json-deserialize_present (object ms) o h = cc

  parent_json-read_parent :
      (g : Option Json) (o : Option (Option PresentedUuid))
      → read_parent p g ≡ some o
      → g ≡ parent_json o
  parent_json-read_parent none o h = rw (← Option.some-injective none o h) refl
  parent_json-read_parent (some j) o h = parent_json-deserialize_present j o h

  AllIn-parent_member :
      (m rest : Members) (o : Option (Option PresentedUuid))
      → get (text "parent_vaid") m ≡ parent_json o
      → AllIn m rest
      → AllIn m (parent_member o rest)
  AllIn-parent_member m rest none h a = a
  AllIn-parent_member m rest (some none) h a = (h, a)
  AllIn-parent_member m rest (some (some u)) h a = (h, a)

  -- A member is there as the value that it was read from.
  get-read_member :
      {A : Type 0} (read : Json → Option A) (write : A → Json) (k : Text) (m : Members) (a : A)
      → ((j : Json) (a : A) → read j ≡ some a → j ≡ write a)
      → read_member read k m ≡ some a
      → get k m ≡ some (write a)
  get-read_member read write k m a back h =
      let (j, there, reads) = >>=-eq-some (get k m) read h in
      there ∙ ap (λ w. some w) (back j a reads)

  get-scope :
      (m : Members) (items : Items) (es : List ScopeBoundaryEntry)
      → get (text "scope_boundary") m ≡ some (array items)
      → AreEntryObjects items
      → read_member (read_vec read_entry) (text "scope_boundary") m ≡ some es
      → get (text "scope_boundary") m ≡ some (array (items_of (λ e. entry_value e) es))
  get-scope m items es there objects h =
      let (j, found, reads) = >>=-eq-some (get (text "scope_boundary") m) (read_vec read_entry) h in
      let same : j ≡ array items = Option.some-injective j (array items) (sym found ∙ there) in
      there ∙ ap (λ is. some (array is)) (entries-objects items es objects (rw same at reads))

  get-version :
      (m : Members) (n : ℕ)
      → has (text "sig_version") m ≡ true
      → read_version (get (text "sig_version") m) ≡ some n
      → get (text "sig_version") m ≡ some (uint n)
  get-version m n there h = elim (Option-cases (get (text "sig_version") m)) [
    | inl absent ↦ absurd (let gone = has-none (text "sig_version") m absent in cc)
    | inr (j, found) ↦ found ∙ ap (λ w. some w) (read_u8-uint j n (rw found at h)).0
  ]

  known_members-AllIn :
      (m : Members) (v : Vaid) (items : Items)
      → Reads p m v
      → has (text "sig_version") m ≡ true
      → get (text "scope_boundary") m ≡ some (array items)
      → AreEntryObjects items
      → AllIn m (known_members v)
  unfolding known_members
  known_members-AllIn m v items h versioned there objects = (
    get-version m v.sig_version versioned h.version,
    (
      get-read_member (read_presented p) presented_value (text "vaid_id") m v.vaid_id_presented
          presented_value-read_presented h.vaid_id,
      (
        get-read_member (read_presented p) presented_value (text "agent_id") m v.agent_id_presented
            presented_value-read_presented h.agent_id,
        (
          get-read_member as_str string (text "agent_class") m v.agent_class as_str-string
              h.agent_class,
          (
            get-read_member as_str string (text "version") m v.version as_str-string h.release,
            (
              get-read_member as_str string (text "tenant_id") m v.tenant_id as_str-string
                  h.tenant_id,
              (
                get-read_member as_str string (text "issued_at") m v.issued_at_presented
                    as_str-string h.issued_at,
                (
                  get-read_member as_str string (text "expires_at") m v.expires_at_presented
                      as_str-string h.expires_at,
                  (
                    get-read_member (read_vec read_u8) (λ bs. array (byte_items bs))
                        (text "public_key_der") m v.public_key_der
                        (λ j bs h.
                          array-read_vec read_u8 uint (λ j b r. (read_u8-uint j b r).0) j bs h)
                        h.key,
                    (
                      get-read_member (read_vec read_u8) (λ bs. array (byte_items bs))
                          (text "kernel_signature") m v.kernel_signature
                          (λ j bs h.
                            array-read_vec read_u8 uint (λ j b r. (read_u8-uint j b r).0) j bs h)
                          h.signature,
                      AllIn-parent_member m _ v.parent_vaid_member
                          (parent_json-read_parent _ v.parent_vaid_member h.parent)
                          (
                            get-scope m items v.scope_boundary there objects h.scope,
                            (
                              get-read_member as_str string (text "lineage_hash") m v.lineage_hash
                                  as_str-string h.lineage,
                              (
                                get-read_member (read_vec as_str) (λ ts. array (text_items ts))
                                    (text "capability_set") m v.capability_set
                                    (λ j ts h. array-read_vec as_str string as_str-string j ts h)
                                    h.capabilities,
                                (
                                  get-read_member as_str string (text "trust_domain") m
                                      v.trust_domain as_str-string h.domain,
                                  (
                                    get-read_member as_str string (text "kernel_key_thumbprint") m
                                        v.kernel_key_thumbprint as_str-string h.thumbprint,
                                    tt,
                                  ),
                                ),
                              ),
                            ),
                          ),
                    ),
                  ),
                ),
              ),
            ),
          ),
        ),
      ),
    ),
  )

  -- A document that was read from an object is written with the members that the object had, and no
  -- other, each with the value it had. The object names no member twice, states its version, and
  -- lists its scope entries as objects.
  pub get-to_members-read_members :
      (m : Members) (v : Vaid) (items : Items)
      → read_members p m ≡ some v
      → NoRepeats m
      → has (text "sig_version") m ≡ true
      → get (text "scope_boundary") m ≡ some (array items)
      → AreEntryObjects items
      → (k : Text) → get k (to_members v) ≡ get k m
  unfolding to_members
  get-to_members-read_members m v items read once versioned there objects k =
      let h = read_members-Reads p m v read in
      let within = known_members-AllIn m v items h versioned there objects in
      rw (← h.unknown) (elim (Bool-cases (is_known k)) [
        | inr free ↦ get-put_all_unknown k m (known_members v) free once (
            get-has k (known_members v)
              (has-unknown k (known_members v) free (known_members-AreKnown v)))
        | inl known ↦
            get-put_all_other k (unknown_of m) (known_members v)
              (named_in-known k (unknown_of m) known (unknown_of-IsUnknown m))
            ∙ (elim (has-known_members v k v.parent_vaid_member known) [
              | inl has_it ↦ get-AllIn k m (known_members v) within has_it
              | inr (named, absent) ↦
                  subst (λ (k1 : Text). get k1 (known_members v) ≡ get k1 m) (sym named)
                    (get-known_members_no_parent v v.parent_vaid_member absent
                      ∙ sym (
                          parent_json-read_parent (get (text "parent_vaid") m) none
                            (h.parent ∙ ap (λ o. some o) absent)))
            ])
      ])
