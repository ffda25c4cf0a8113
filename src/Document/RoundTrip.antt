-- ===== src/Document/RoundTrip.antt =====
-- Reading back a document that was written: `Serialize` and `Deserialize` of
-- crates/vaid-mint/src/document.rs.
use vaid.Prelude.{
  ℕ, ◌≡◌, refl, ◌∙◌, true, false, Option, none, some, List, [], ◌∷◌, Text, text, text_eq, leb, All,
  All-mono, ok,
}
use vaid.Json.{Json, string, uint, Members, get, as_str}
use vaid.Json.Reading.{read_u8, read_vec, read_member, read_items-items_of}
use vaid.Platform.{Platform}
use vaid.Scope.{ScopeBoundaryEntry, validate_scope_entry, new_entry}
use vaid.Document.{
  PresentedUuid, Vaid, presented_of_text, known_members, to_members, entry_value, presented_value,
  parent_member,
}
use vaid.Document.Reading.{
  read_raw, read_entry, is_known, unknown_of, read_presented, deserialize_present, read_parent,
  read_members,
}
use vaid.Document.Reads.{read_members_of}
use vaid.Document.Unknown.{
  IsUnknown, HasDistinctNames, get-put_all_other, named_in-known, unknown_of-put_all,
  known_members-AreKnown, known_members-AreNew, unknown_of-AreKnown,
}

read_u8-uint_of : (n : ℕ) → leb n 255 ≡ true → read_u8 (uint n) ≡ some n
read_u8-uint_of n h = rw h refl

read_entry-entry_value :
    (e : ScopeBoundaryEntry)
    → validate_scope_entry e.kind e.value ≡ ok tt
    → read_entry (entry_value e) ≡ some e
unfolding read_entry read_raw new_entry
read_entry-entry_value e h = rw h refl

get-parent_member :
    (o : Option (Option PresentedUuid)) (rest : Members) (k : Text)
    → text_eq (text "parent_vaid") k ≡ false
    → get k (parent_member o rest) ≡ get k rest
get-parent_member none rest k h = refl
get-parent_member (some none) rest k h = rw h refl
get-parent_member (some (some u)) rest k h = rw h refl

-- The items of a document's vectors read back.
byte_items-readable :
    (bs : List ℕ) → All (λ b. leb b 255 ≡ true) bs → All (λ b. read_u8 (uint b) ≡ some b) bs
byte_items-readable bs h =
    All-mono (λ b. leb b 255 ≡ true) (λ b. read_u8 (uint b) ≡ some b) bs
      (λ b small. read_u8-uint_of b small) h

text_items-readable : (ts : List Text) → All (λ t. as_str (string t) ≡ some t) ts
text_items-readable [] = tt
text_items-readable (t ∷ ts) = (refl, text_items-readable ts)

entry_items-readable :
    (es : List ScopeBoundaryEntry)
    → All (λ (e : ScopeBoundaryEntry). validate_scope_entry e.kind e.value ≡ ok tt) es
    → All (λ (e : ScopeBoundaryEntry). read_entry (entry_value e) ≡ some e) es
entry_items-readable [] h = tt
entry_items-readable (e ∷ es) (h, hs) = (read_entry-entry_value e h, entry_items-readable es hs)

module _ (p : Platform) where
  abbrev pub IsReadable : PresentedUuid → Type 0
  IsReadable u = p.uuid_parse_str u.raw ≡ some u.uuid

  abbrev pub ParentIsReadable : Option (Option PresentedUuid) → Type 0
  ParentIsReadable (some (some u)) = IsReadable u
  ParentIsReadable _ = Unit

  -- What a document must be for its JSON form to be one that can be read.
  pub record IsPresentable (v : Vaid) : Type 0 where
    pub version : leb v.sig_version 255 ≡ true
    pub vaid_id : IsReadable v.vaid_id_presented
    pub agent_id : IsReadable v.agent_id_presented
    pub key : All (λ b. leb b 255 ≡ true) v.public_key_der
    pub signature : All (λ b. leb b 255 ≡ true) v.kernel_signature
    pub parent : ParentIsReadable v.parent_vaid_member
    pub scope :
        All
          (λ (e : ScopeBoundaryEntry). validate_scope_entry e.kind e.value ≡ ok tt)
          v.scope_boundary
    pub unknown : All IsUnknown v.unknown_fields
    pub distinct : HasDistinctNames v.unknown_fields

  read_presented-presented_value :
      (u : PresentedUuid) → IsReadable u → read_presented p (presented_value u) ≡ some u
  unfolding presented_of_text
  read_presented-presented_value u h = rw h refl

  -- Of a member that a document knows, the unknown ones change nothing.
  get-to_members :
      (v : Vaid) (k : Text)
      → IsPresentable v
      → is_known k ≡ true
      → get k (to_members v) ≡ get k (known_members v)
  unfolding to_members
  get-to_members v k h known =
      get-put_all_other k v.unknown_fields (known_members v)
        (named_in-known k v.unknown_fields known h.unknown)

  read_at :
      {A : Type 0} (read : Json → Option A) (k : Text) (v : Vaid) (j : Json) (a : A)
      → IsPresentable v
      → is_known k ≡ true
      → get k (known_members v) ≡ some j
      → read j ≡ some a
      → read_member read k (to_members v) ≡ some a
  read_at read k v j a h known there reads = rw (get-to_members v k h known, there) reads

  unknown_of-to_members :
      (v : Vaid) → IsPresentable v → unknown_of (to_members v) ≡ v.unknown_fields
  unfolding to_members
  unknown_of-to_members v h =
      unknown_of-put_all v.unknown_fields (known_members v) h.unknown h.distinct
        (known_members-AreNew v v.unknown_fields h.unknown)
      ∙ (rw (unknown_of-AreKnown (known_members v) (known_members-AreKnown v)) refl)

  read_parent-parent_member :
      (o : Option (Option PresentedUuid)) (rest : Members)
      → get (text "parent_vaid") rest ≡ none
      → ParentIsReadable o
      → read_parent p (get (text "parent_vaid") (parent_member o rest)) ≡ some o
  unfolding deserialize_present presented_of_text
  read_parent-parent_member none rest absent h = rw absent refl
  read_parent-parent_member (some none) rest absent h = refl
  read_parent-parent_member (some (some u)) rest absent h = rw h refl

  -- A presentable document that is written and read back is the same document, its unknown
  -- members included.
  pub read_members-to_members :
      (v : Vaid) → IsPresentable v → read_members p (to_members v) ≡ some v
  unfolding known_members is_known
  read_members-to_members v h = read_members_of p (to_members v) v (record {
    version =
        rw (get-to_members v (text "sig_version") h refl) (read_u8-uint_of v.sig_version h.version);
    vaid_id =
        read_at (read_presented p) (text "vaid_id") v _ v.vaid_id_presented h refl refl
          (read_presented-presented_value v.vaid_id_presented h.vaid_id);
    agent_id =
        read_at (read_presented p) (text "agent_id") v _ v.agent_id_presented h refl refl
          (read_presented-presented_value v.agent_id_presented h.agent_id);
    agent_class = read_at as_str (text "agent_class") v _ v.agent_class h refl refl refl;
    release = read_at as_str (text "version") v _ v.version h refl refl refl;
    tenant_id = read_at as_str (text "tenant_id") v _ v.tenant_id h refl refl refl;
    issued_at = read_at as_str (text "issued_at") v _ v.issued_at_presented h refl refl refl;
    expires_at = read_at as_str (text "expires_at") v _ v.expires_at_presented h refl refl refl;
    key = read_at (read_vec read_u8) (text "public_key_der") v _ v.public_key_der h refl refl (
        read_items-items_of read_u8 (λ b. uint b) v.public_key_der
          (byte_items-readable v.public_key_der h.key));
    signature =
        read_at (read_vec read_u8) (text "kernel_signature") v _ v.kernel_signature h refl refl (
          read_items-items_of read_u8 (λ b. uint b) v.kernel_signature
            (byte_items-readable v.kernel_signature h.signature));
    parent =
        rw (get-to_members v (text "parent_vaid") h refl)
          (read_parent-parent_member v.parent_vaid_member _ refl h.parent);
    scope =
        read_at (read_vec read_entry) (text "scope_boundary") v _ v.scope_boundary h refl
          (get-parent_member v.parent_vaid_member _ (text "scope_boundary") refl)
          (read_items-items_of read_entry (λ e. entry_value e) v.scope_boundary
            (entry_items-readable v.scope_boundary h.scope));
    lineage =
        read_at as_str (text "lineage_hash") v _ v.lineage_hash h refl
          (get-parent_member v.parent_vaid_member _ (text "lineage_hash") refl) refl;
    capabilities =
        read_at (read_vec as_str) (text "capability_set") v _ v.capability_set h refl
          (get-parent_member v.parent_vaid_member _ (text "capability_set") refl)
          (read_items-items_of as_str (λ t. string t) v.capability_set
            (text_items-readable v.capability_set));
    domain =
        read_at as_str (text "trust_domain") v _ v.trust_domain h refl
          (get-parent_member v.parent_vaid_member _ (text "trust_domain") refl) refl;
    thumbprint =
        read_at as_str (text "kernel_key_thumbprint") v _ v.kernel_key_thumbprint h refl
          (get-parent_member v.parent_vaid_member _ (text "kernel_key_thumbprint") refl) refl;
    unknown = unknown_of-to_members v h;
  })
