-- ===== src/Document/Reading.antt =====
-- How a document is read from JSON: the `Deserialize` impls of crates/vaid-mint/src/document.rs, the
-- derived ones included. An object's names are distinct, as those of a `serde_json::Map` are.
use vaid.Prelude.{
  ℕ, Bool, Option, none, some, List, [], ◌∷◌, Text, text, text_eq, contains, text_key,
  if◌then◌else◌, Result, ok, err,
}
use vaid.Json.{Json, null, array, object, Items, nil, item, Members, end, member, get, as_str}
use vaid.Json.Reading.{◌>>=◌, read_u8, read_vec, read_member}
use vaid.Platform.{Platform}
use vaid.Scope.{ScopeBoundaryEntry, ScopeEntryError, new_entry}
use vaid.Document.{PresentedUuid, Vaid, presented_of_text}

abbrev pub entry_of : Result ScopeEntryError ScopeBoundaryEntry → Option ScopeBoundaryEntry
entry_of (ok e) = some e
entry_of (err e) = none

-- `Raw` from an object: one more member, where `kind` and `value` are what was read so far
abbrev pub visit_member :
    Text → Json → Option Text → Option Json → Option (Option Text × Option Json)
visit_member name j kind value =
    if text_eq name (text "kind")
    then (elim kind [ none ↦ as_str j >>= (λ k. some (some k, value)) | some k ↦ none ])
    else if text_eq name (text "value")
    then (elim value [ none ↦ some (kind, some j) | some v ↦ none ])
    else none

unfoldable pub read_raw : Members → Option Text → Option Json → Option ScopeBoundaryEntry
unfolding new_entry
read_raw end (some kind) (some value) = entry_of (new_entry kind value)
read_raw end _ _ = none
read_raw (member name j rest) kind value =
    visit_member name j kind value >>= λ r. read_raw rest r.0 r.1

-- `Raw` from an array: a derived `Deserialize` also reads the fields by position.
unfoldable pub read_raw_seq : Items → Option ScopeBoundaryEntry
unfolding new_entry
read_raw_seq (item kind (item value nil)) = as_str kind >>= λ k. entry_of (new_entry k value)
read_raw_seq _ = none

-- `Deserialize for ScopeBoundaryEntry`
unfoldable pub read_entry : Json → Option ScopeBoundaryEntry
unfolding read_raw read_raw_seq
read_entry (object members) = read_raw members none none
read_entry (array items) = read_raw_seq items
read_entry _ = none

-- The members that `Vaid` names.
abbrev pub known_names : List Text
known_names =
    text "sig_version"
    ∷ text "vaid_id"
    ∷ text "agent_id"
    ∷ text "agent_class"
    ∷ text "version"
    ∷ text "tenant_id"
    ∷ text "issued_at"
    ∷ text "expires_at"
    ∷ text "public_key_der"
    ∷ text "kernel_signature"
    ∷ text "parent_vaid"
    ∷ text "scope_boundary"
    ∷ text "lineage_hash"
    ∷ text "capability_set"
    ∷ text "trust_domain"
    ∷ text "kernel_key_thumbprint"
    ∷ []

unfoldable pub is_known : Text → Bool
is_known k = contains k known_names

-- Every other member is flattened into `unknown_fields`.
abbrev pub unknown_of : Members → List (Text × Json)
unknown_of end = []
unknown_of (member k j rest) =
    let others = unknown_of rest in if is_known k then others else (k, j) ∷ others

-- `#[serde(default)] sig_version`
abbrev pub read_version : Option Json → Option ℕ
read_version none = some 0
read_version (some j) = read_u8 j

module _ (p : Platform) where
  abbrev pub read_presented : Json → Option PresentedUuid
  read_presented j = as_str j >>= λ raw. presented_of_text p raw

  -- `deserialize_present`, and `#[serde(default)]` where there is no member
  unfoldable pub deserialize_present : Json → Option (Option (Option PresentedUuid))
  deserialize_present null = some (some none)
  deserialize_present j = read_presented j >>= λ u. some (some (some u))

  abbrev pub read_parent : Option Json → Option (Option (Option PresentedUuid))
  read_parent none = some none
  read_parent (some j) = deserialize_present j

  -- The derived `Deserialize for Vaid`, from an object's members
  unfoldable pub read_members : Members → Option Vaid
  unfolding read_entry
  read_members m = do
    sig_version ← read_version (get (text "sig_version") m)
    vaid_id ← read_member read_presented (text "vaid_id") m
    agent_id ← read_member read_presented (text "agent_id") m
    agent_class ← read_member as_str (text "agent_class") m
    version ← read_member as_str (text "version") m
    tenant_id ← read_member as_str (text "tenant_id") m
    issued_at ← read_member as_str (text "issued_at") m
    expires_at ← read_member as_str (text "expires_at") m
    public_key_der ← read_member (read_vec read_u8) (text "public_key_der") m
    kernel_signature ← read_member (read_vec read_u8) (text "kernel_signature") m
    parent_vaid ← read_parent (get (text "parent_vaid") m)
    scope_boundary ← read_member (read_vec read_entry) (text "scope_boundary") m
    lineage_hash ← read_member as_str (text "lineage_hash") m
    capability_set ← read_member (read_vec as_str) (text "capability_set") m
    trust_domain ← read_member as_str (text "trust_domain") m
    kernel_key_thumbprint ← read_member as_str (text "kernel_key_thumbprint") m
    some (record {
      sig_version = sig_version;
      vaid_id_presented = vaid_id;
      agent_id_presented = agent_id;
      agent_class = agent_class;
      version = version;
      tenant_id = tenant_id;
      issued_at_presented = issued_at;
      expires_at_presented = expires_at;
      public_key_der = public_key_der;
      kernel_signature = kernel_signature;
      parent_vaid_member = parent_vaid;
      scope_boundary = scope_boundary;
      lineage_hash = lineage_hash;
      capability_set = capability_set;
      trust_domain = trust_domain;
      kernel_key_thumbprint = kernel_key_thumbprint;
      unknown_fields = unknown_of m;
    })

  unfoldable pub read_vaid : Json → Option Vaid
  read_vaid (object members) = read_members members
  read_vaid _ = none
