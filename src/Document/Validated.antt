-- ===== src/Document/Validated.antt =====
-- What `Deserialize` of crates/vaid-mint/src/document.rs checks of a document.
use mathlib.Core.Option
use vaid.Prelude.{
  ℕ, ◌≡◌, refl, true, Option, none, some, List, Text, text, leb, All, ok, Bool-cases, inl, inr,
}
use vaid.Json.{
  Json, null, boolean, uint, number, object, string, array, Items, nil, item, Members, end, member,
  get, as_str,
}
use vaid.Json.Reading.{>>=-eq-some, read_u8, read_vec, read_member, read_u8-uint, All-read_vec}
use vaid.Platform.{Platform}
use vaid.Scope.{ScopeBoundaryEntry, validate_scope_entry, new_entry}
use vaid.Document.{PresentedUuid, Vaid, presented_of_text}
use vaid.Document.Reading.{
  entry_of, visit_member, read_raw, read_raw_seq, read_entry, is_known, unknown_of, read_version,
  read_presented, deserialize_present, read_parent, read_members,
}
use vaid.Document.Reads.{read_members-Reads}
use vaid.Document.RoundTrip.{IsReadable, ParentIsReadable, IsPresentable}
use vaid.Document.Unknown.{HasDistinctNames}
use vaid.Document.Membership.{NoRepeats, named_in-unknown_of, unknown_of-IsUnknown}
use vaid.Document.Entries.{entry_of-new_entry}

abbrev IsValidEntry : ScopeBoundaryEntry → Type 0
IsValidEntry e = validate_scope_entry e.kind e.value ≡ ok tt

new_entry-IsValidEntry :
    (kind : Text) (value : Json) (e : ScopeBoundaryEntry)
    → entry_of (new_entry kind value) ≡ some e
    → IsValidEntry e
new_entry-IsValidEntry kind value e h =
    let (same, valid) = entry_of-new_entry kind value e h in rw (← same) valid

read_raw-IsValidEntry :
    (m : Members) (kind : Option Text) (value : Option Json) (e : ScopeBoundaryEntry)
    → read_raw m kind value ≡ some e
    → IsValidEntry e
unfolding read_raw
read_raw-IsValidEntry end (some kind) (some value) e h = new_entry-IsValidEntry kind value e h
read_raw-IsValidEntry end none value e h = cc
read_raw-IsValidEntry end (some kind) none e h = cc
read_raw-IsValidEntry (member name j rest) kind value e h =
    let (r, first, later) = >>=-eq-some (visit_member name j kind value) _ h in
    read_raw-IsValidEntry rest r.0 r.1 e later

read_raw_seq-IsValidEntry :
    (is : Items) (e : ScopeBoundaryEntry) → read_raw_seq is ≡ some e → IsValidEntry e
unfolding read_raw_seq
read_raw_seq-IsValidEntry (item kind (item value nil)) e h =
    let (k, first, later) = >>=-eq-some (as_str kind) _ h in new_entry-IsValidEntry k value e later
read_raw_seq-IsValidEntry nil e h = cc
read_raw_seq-IsValidEntry (item kind nil) e h = cc
read_raw_seq-IsValidEntry (item kind (item value (item j rest))) e h = cc

read_entry-IsValidEntry :
    (j : Json) (e : ScopeBoundaryEntry) → read_entry j ≡ some e → IsValidEntry e
unfolding read_entry
read_entry-IsValidEntry (object m) e h = read_raw-IsValidEntry m none none e h
read_entry-IsValidEntry (array is) e h = read_raw_seq-IsValidEntry is e h
read_entry-IsValidEntry null e h = cc
read_entry-IsValidEntry (boolean b) e h = cc
read_entry-IsValidEntry (uint n) e h = cc
read_entry-IsValidEntry (number s) e h = cc
read_entry-IsValidEntry (string s) e h = cc

read_version-small : (g : Option Json) (n : ℕ) → read_version g ≡ some n → leb n 255 ≡ true
read_version-small none n h = rw (← Option.some-injective 0 n h) refl
read_version-small (some j) n h = (read_u8-uint j n h).1

unknown_of-HasDistinctNames : (m : Members) → NoRepeats m → HasDistinctNames (unknown_of m)
unknown_of-HasDistinctNames end d = tt
unknown_of-HasDistinctNames (member k j rest) (d, ds) = elim (Bool-cases (is_known k)) [
  | inl known ↦ rw known (unknown_of-HasDistinctNames rest ds)
  | inr free ↦ rw free ((named_in-unknown_of k rest d, unknown_of-HasDistinctNames rest ds))
]

module _ (p : Platform) where
  read_presented-IsReadable :
      (j : Json) (u : PresentedUuid) → read_presented p j ≡ some u → IsReadable p u
  unfolding presented_of_text
  read_presented-IsReadable j u h =
      let (raw, text_of, later) = >>=-eq-some (as_str j) _ h in
      let (id, parsed, same) = (Option.map-eq-some_iff _ (p.uuid_parse_str raw)).0 later in
      rw (← same) parsed

  deserialize_present-ParentIsReadable :
      (j : Json) (o : Option (Option PresentedUuid))
      → deserialize_present p j ≡ some o
      → ParentIsReadable p o
  unfolding deserialize_present
  deserialize_present-ParentIsReadable null o h = rw (← Option.some-injective (some none) o h) tt
  deserialize_present-ParentIsReadable (string s) o h =
      let (u, reads, same) = >>=-eq-some (read_presented p (string s)) _ h in
      rw (← Option.some-injective (some (some u)) o same)
        (read_presented-IsReadable (string s) u reads)
  deserialize_present-ParentIsReadable (boolean b) o h = cc
  deserialize_present-ParentIsReadable (uint n) o h = cc
  deserialize_present-ParentIsReadable (number s) o h = cc
  deserialize_present-ParentIsReadable (array is) o h = cc
  deserialize_present-ParentIsReadable (object ms) o h = cc

  read_parent-ParentIsReadable :
      (g : Option Json) (o : Option (Option PresentedUuid))
      → read_parent p g ≡ some o
      → ParentIsReadable p o
  read_parent-ParentIsReadable none o h = rw (← Option.some-injective none o h) tt
  read_parent-ParentIsReadable (some j) o h = deserialize_present-ParentIsReadable j o h

  -- What is read from a member is what the reader gives.
  of_read_member :
      {A : Type 0} (read : Json → Option A) (P : A → Type 0) (k : Text) (m : Members) (a : A)
      → ((j : Json) (a : A) → read j ≡ some a → P a)
      → read_member read k m ≡ some a
      → P a
  of_read_member read P k m a each h =
      let (j, there, reads) = >>=-eq-some (get k m) read h in each j a reads

  -- A document that is read from an object whose names are distinct is presentable: its version
  -- and its bytes fit in eight bits, its identifiers are UUIDs that are kept as presented, its
  -- scope entries pass the entry rule, and its unknown members have other names than the known.
  pub read_members-IsPresentable :
      (m : Members) (v : Vaid) → NoRepeats m → read_members p m ≡ some v → IsPresentable p v
  read_members-IsPresentable m v once read =
      let h = read_members-Reads p m v read in
      let bytes = λ (k : Text) (bs : List ℕ).
        of_read_member (read_vec read_u8) (λ bs. All (λ b. leb b 255 ≡ true) bs) k m bs
          (λ j bs r.
            All-read_vec read_u8 (λ b. leb b 255 ≡ true) (λ j b s. (read_u8-uint j b s).1) j bs
              r) in
      record {
        version = read_version-small (get (text "sig_version") m) v.sig_version h.version;
        vaid_id =
            of_read_member (read_presented p) (λ u. IsReadable p u) (text "vaid_id") m
              v.vaid_id_presented read_presented-IsReadable h.vaid_id;
        agent_id =
            of_read_member (read_presented p) (λ u. IsReadable p u) (text "agent_id") m
              v.agent_id_presented read_presented-IsReadable h.agent_id;
        key = bytes (text "public_key_der") v.public_key_der h.key;
        signature = bytes (text "kernel_signature") v.kernel_signature h.signature;
        parent =
            read_parent-ParentIsReadable (get (text "parent_vaid") m) v.parent_vaid_member h.parent;
        scope =
            of_read_member (read_vec read_entry) (λ es. All (λ e. IsValidEntry e) es)
              (text "scope_boundary") m v.scope_boundary
              (λ j es r.
                All-read_vec read_entry (λ e. IsValidEntry e) read_entry-IsValidEntry j es r)
              h.scope;
        unknown = rw (← h.unknown) (unknown_of-IsUnknown m);
        distinct = rw (← h.unknown) (unknown_of-HasDistinctNames m once);
      }
