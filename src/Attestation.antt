-- ===== src/Attestation.antt =====
-- Consent attestations: crates/vaid-mint/src/attestation.rs.
pub mod Consent
pub mod Reading
use vaid.Prelude.{
  ℕ, ◌+◌, ◌-◌, ◌*◌, Bool, true, false, ◌&&◌, not, Option, none, some, List, [], ◌∷◌, Bytes, Text,
  text, text_eq, leb, ltb, ◌==◌, if◌then◌else◌, Eq, lookup, insert, arith, ◌↔◌, ◌≡◌, ==_iff,
}
use vaid.Json.{null, uint, string, array, object, Members, end, member, put, byte_items, text_items}
use vaid.Platform.{Platform, VaidId, Instant, second}
use vaid.TrustDomain.{is_valid_trust_domain, kernel_key_thumbprint}
use vaid.Scope.{ScopeBoundaryEntry}
use vaid.Document.{entry_items}

-- `ATTESTATION_VERSION`, and `MINT_POP_FRESHNESS_SECS` of mint.rs
abbrev pub attestation_version : ℕ
attestation_version = 1

abbrev pub mint_pop_freshness_secs : ℕ
mint_pop_freshness_secs = 300

pub record ConsentAttestation : Type 0 where
  pub att_version : ℕ
  pub parent_vaid : VaidId
  pub child_vaid : VaidId
  pub child_trust_domain : Text
  pub child_tenant_id : Text
  pub issued_at : Instant
  pub expires_at : Instant
  pub scope_boundary : List ScopeBoundaryEntry
  pub capability_set : List Text
  pub trust_domain : Text
  pub kernel_key_thumbprint : Text
  pub signature : Bytes

-- `ConsentAttestation::new`: this version, and no signature yet.
abbrev pub new_attestation :
    VaidId
    → VaidId
    → Text
    → Text
    → Instant
    → Instant
    → List ScopeBoundaryEntry
    → List Text
    → Text
    → Text
    → ConsentAttestation
new_attestation parent child child_domain child_tenant issued expires scope caps domain thumbprint =
    record {
      att_version = attestation_version;
      parent_vaid = parent;
      child_vaid = child;
      child_trust_domain = child_domain;
      child_tenant_id = child_tenant;
      issued_at = issued;
      expires_at = expires;
      scope_boundary = scope;
      capability_set = caps;
      trust_domain = domain;
      kernel_key_thumbprint = thumbprint;
      signature = [];
    }

abbrev pub with_signature : ConsentAttestation → Bytes → ConsentAttestation
with_signature a signature = record a { signature = signature }

abbrev pub hop : ConsentAttestation → VaidId × VaidId
hop a = (a.parent_vaid, a.child_vaid)

abbrev skew : Instant
skew = mint_pop_freshness_secs * second

-- Is the consent in its window? `none` is the panic of chrono's subtraction where `issued_at` is
-- within the allowance of the earliest instant.
unfoldable pub is_current : ConsentAttestation → Instant → Option Bool
is_current a now =
    if leb a.expires_at a.issued_at
    then some false
    else if ltb a.expires_at now
    then some false
    else if ltb a.issued_at skew
    then none
    else some (leb (a.issued_at - skew) now)

-- The derived `Serialize for ConsentAttestation`.
unfoldable pub attestation_members : Platform → ConsentAttestation → Members
attestation_members p a = member (text "att_version") (uint a.att_version) (
    member (text "parent_vaid") (string (p.uuid_to_string a.parent_vaid)) (
      member (text "child_vaid") (string (p.uuid_to_string a.child_vaid)) (
        member (text "child_trust_domain") (string a.child_trust_domain) (
          member (text "child_tenant_id") (string a.child_tenant_id) (
            member (text "issued_at") (string (p.datetime_to_json a.issued_at)) (
              member (text "expires_at") (string (p.datetime_to_json a.expires_at)) (
                member (text "scope_boundary") (array (entry_items a.scope_boundary)) (
                  member (text "capability_set") (array (text_items a.capability_set)) (
                    member (text "trust_domain") (string a.trust_domain) (
                      member (text "kernel_key_thumbprint") (string a.kernel_key_thumbprint)
                        (member (text "signature") (array (byte_items a.signature)) end)))))))))))

unfoldable pub canonical_attestation_signing_bytes : Platform → ConsentAttestation → Bytes
unfolding attestation_members
canonical_attestation_signing_bytes p a =
    p.sha256 (p.jcs (object (put (text "signature") null (attestation_members p a))))

unfoldable pub verify_attestation_authenticity : Platform → Bytes → ConsentAttestation → Bool
verify_attestation_authenticity p key a =
    if not (a.att_version == attestation_version)
    then false
    else if not (is_valid_trust_domain a.trust_domain)
    then false
    else if not (text_eq a.kernel_key_thumbprint (kernel_key_thumbprint p key))
    then false
    else p.ed25519_verify key (canonical_attestation_signing_bytes p a) a.signature

abbrev pub hop_beq : VaidId × VaidId → VaidId × VaidId → Bool
hop_beq (a, b) (c, d) = (a == c) && (b == d)

hop_beq_iff : (x y : VaidId × VaidId) → (hop_beq x y ≡ true) ↔ (x ≡ y)
hop_beq_iff (a, b) (c, d) = ground arith

instance abbrev pub hop_eq : Eq (VaidId × VaidId)
unfolding hop_beq_iff
hop_eq = record { beq = hop_beq; beq_iff = hop_beq_iff }

-- `AttestationBundle`: at most one attestation for each hop, the last one presented.
abbrev pub AttestationBundle : Type 0
AttestationBundle = List ((VaidId × VaidId) × ConsentAttestation)

collect_attestations : AttestationBundle → List ConsentAttestation → AttestationBundle
collect_attestations bundle [] = bundle
collect_attestations bundle (a ∷ rest) = collect_attestations (insert (hop a) a bundle) rest

unfoldable pub new_attestation_bundle : List ConsentAttestation → AttestationBundle
unfolding collect_attestations
new_attestation_bundle attestations = collect_attestations [] attestations

abbrev pub empty_attestations : AttestationBundle
empty_attestations = []

unfoldable pub get_attestation : AttestationBundle → VaidId → VaidId → Option ConsentAttestation
get_attestation bundle parent child = lookup (parent, child) bundle
