-- ===== src/Document/Reads.antt =====
-- A document is read from an object exactly if each of its fields is read from its own member.
use mathlib.Core.Option
use vaid.Prelude.{◌≡◌, refl, ap, ◌∙◌, some, text}
use vaid.Json.{Members, get, as_str}
use vaid.Json.Reading.{four, >>=-Four, read_u8, read_vec, read_member}
use vaid.Platform.{Platform}
use vaid.Document.{Vaid}
use vaid.Document.Reading.{
  read_entry, unknown_of, read_version, read_presented, read_parent, read_members,
}

module _ (p : Platform) where
  pub record Reads (m : Members) (v : Vaid) : Type 0 where
    pub version : read_version (get (text "sig_version") m) ≡ some v.sig_version
    pub vaid_id : read_member (read_presented p) (text "vaid_id") m ≡ some v.vaid_id_presented
    pub agent_id : read_member (read_presented p) (text "agent_id") m ≡ some v.agent_id_presented
    pub agent_class : read_member as_str (text "agent_class") m ≡ some v.agent_class
    pub release : read_member as_str (text "version") m ≡ some v.version
    pub tenant_id : read_member as_str (text "tenant_id") m ≡ some v.tenant_id
    pub issued_at : read_member as_str (text "issued_at") m ≡ some v.issued_at_presented
    pub expires_at : read_member as_str (text "expires_at") m ≡ some v.expires_at_presented
    pub key : read_member (read_vec read_u8) (text "public_key_der") m ≡ some v.public_key_der
    pub signature :
        read_member (read_vec read_u8) (text "kernel_signature") m ≡ some v.kernel_signature
    pub parent : read_parent p (get (text "parent_vaid") m) ≡ some v.parent_vaid_member
    pub scope : read_member (read_vec read_entry) (text "scope_boundary") m ≡ some v.scope_boundary
    pub lineage : read_member as_str (text "lineage_hash") m ≡ some v.lineage_hash
    pub capabilities :
        read_member (read_vec as_str) (text "capability_set") m ≡ some v.capability_set
    pub domain : read_member as_str (text "trust_domain") m ≡ some v.trust_domain
    pub thumbprint :
        read_member as_str (text "kernel_key_thumbprint") m ≡ some v.kernel_key_thumbprint
    pub unknown : unknown_of m ≡ v.unknown_fields

  pub read_members_of : (m : Members) (v : Vaid) → Reads m v → read_members p m ≡ some v
  unfolding read_members
  read_members_of m v h =
      rw
        (
          h.version, h.vaid_id, h.agent_id, h.agent_class, h.release, h.tenant_id, h.issued_at,
          h.expires_at, h.key, h.signature, h.parent, h.scope, h.lineage, h.capabilities, h.domain,
          h.thumbprint, h.unknown,
        )
        refl

  pub read_members-Reads : (m : Members) (v : Vaid) → read_members p m ≡ some v → Reads m v
  unfolding read_members
  read_members-Reads m v h = elim (>>=-Four _ _ _ _ _ h) [
    | four a0 a1 a2 a3 e0 e1 e2 e3 h0 ↦ elim (>>=-Four _ _ _ _ _ h0) [
      | four a4 a5 a6 a7 e4 e5 e6 e7 h1 ↦ elim (>>=-Four _ _ _ _ _ h1) [
        | four a8 a9 a10 a11 e8 e9 e10 e11 h2 ↦ elim (>>=-Four _ _ _ _ _ h2) [
          | four a12 a13 a14 a15 e12 e13 e14 e15 h3 ↦
              let same = Option.some-injective _ v h3 in
              record {
                version = e0 ∙ ap (λ (w : Vaid). some w.sig_version) same;
                vaid_id = e1 ∙ ap (λ (w : Vaid). some w.vaid_id_presented) same;
                agent_id = e2 ∙ ap (λ (w : Vaid). some w.agent_id_presented) same;
                agent_class = e3 ∙ ap (λ (w : Vaid). some w.agent_class) same;
                release = e4 ∙ ap (λ (w : Vaid). some w.version) same;
                tenant_id = e5 ∙ ap (λ (w : Vaid). some w.tenant_id) same;
                issued_at = e6 ∙ ap (λ (w : Vaid). some w.issued_at_presented) same;
                expires_at = e7 ∙ ap (λ (w : Vaid). some w.expires_at_presented) same;
                key = e8 ∙ ap (λ (w : Vaid). some w.public_key_der) same;
                signature = e9 ∙ ap (λ (w : Vaid). some w.kernel_signature) same;
                parent = e10 ∙ ap (λ (w : Vaid). some w.parent_vaid_member) same;
                scope = e11 ∙ ap (λ (w : Vaid). some w.scope_boundary) same;
                lineage = e12 ∙ ap (λ (w : Vaid). some w.lineage_hash) same;
                capabilities = e13 ∙ ap (λ (w : Vaid). some w.capability_set) same;
                domain = e14 ∙ ap (λ (w : Vaid). some w.trust_domain) same;
                thumbprint = e15 ∙ ap (λ (w : Vaid). some w.kernel_key_thumbprint) same;
                unknown = ap (λ (w : Vaid). w.unknown_fields) same;
              }
        ]
      ]
    ]
  ]
