-- ===== src/Chain.antt =====
-- Third-party chain verification: crates/vaid-mint/src/chain.rs.
pub mod Consents
pub mod Hops
pub mod Soundness
pub mod EndToEnd
use mathlib.Core.Option
use vaid.Prelude.{
  ℕ, Bool, true, false, ◌&&◌, ◌||◌, not, Option, none, some, List, [], ◌∷◌, Bytes, Text, text_eq,
  text_eq_iff, all, any, ◌==◌, if◌then◌else◌, Eq, text_key, lookup, insert,
}
use vaid.Platform.{Platform, VaidId, Instant}
use vaid.TrustDomain.{kernel_key_thumbprint}
use vaid.Document.{Vaid, vaid_id, parent_vaid, is_expired_at}
use vaid.Attenuation.{
  scope_attenuates, scope_attenuates_within, tenant_attenuates, caps_attenuate,
  caps_attenuate_within, expiry_attenuates,
}
use vaid.Revocation.{
  vaid_id_eq, ParentResolution, LineageResolver, LineageAssembly, complete, incomplete,
  assemble_lineage,
}
use vaid.Verify.{verify_vaid_authenticity}
use vaid.Attestation.{
  ConsentAttestation, AttestationBundle, empty_attestations, get_attestation, is_current,
  verify_attestation_authenticity,
}

-- `PresentedBundle`: the documents by their identifiers, the last one presented.
abbrev pub PresentedBundle : Type 0
PresentedBundle = List (VaidId × Vaid)

collect_documents : PresentedBundle → List Vaid → PresentedBundle
collect_documents bundle [] = bundle
collect_documents bundle (v ∷ rest) = collect_documents (insert (vaid_id v) v bundle) rest

unfoldable pub new_bundle : List Vaid → PresentedBundle
unfolding collect_documents
new_bundle documents = collect_documents [] documents

abbrev resolution_of_document : Option Vaid → ParentResolution
resolution_of_document none = ParentResolution.unknown
resolution_of_document (some v) = elim (parent_vaid v) [
  | none ↦ ParentResolution.root
  | some id ↦ ParentResolution.parent id
]

unfoldable pub bundle_resolver : PresentedBundle → LineageResolver
bundle_resolver bundle id = resolution_of_document (lookup id bundle)

pub data ChainVerification : Type 0 where
  attenuated inauthentic unverifiable not_attenuated expired consent_expired : ChainVerification

unfoldable pub is_attenuated : ChainVerification → Bool
is_attenuated attenuated = true
is_attenuated _ = false

-- A `KernelKeyResolver`, as its `resolve_key`.
abbrev pub KernelKeyResolver : Type 0
KernelKeyResolver = Text → Option Bytes

-- `SingleKernelKey` and `KernelKeyMap`
unfoldable pub single_kernel_key : Platform → Bytes → KernelKeyResolver
single_kernel_key p public_key thumbprint =
    if text_eq thumbprint (kernel_key_thumbprint p public_key) then some public_key else none

collect_keys : Platform → List (Text × Bytes) → List Bytes → List (Text × Bytes)
collect_keys p keys [] = keys
collect_keys p keys (k ∷ rest) = collect_keys p (insert (kernel_key_thumbprint p k) k keys) rest

unfoldable pub kernel_key_map : Platform → List Bytes → KernelKeyResolver
unfolding collect_keys
kernel_key_map p public_keys thumbprint = lookup thumbprint (collect_keys p [] public_keys)

-- All but the last, as the slice `[..len - 1]`.
abbrev pub init {ℓ} : {A : Type ℓ} → List A → List A
init [] = []
init (x ∷ []) = []
init (x ∷ y ∷ xs) = x ∷ init (y ∷ xs)

-- The loop that reads the documents of the chain; `none` is its early return.
unfoldable pub chain_documents : Vaid → PresentedBundle → List VaidId → Option (List Vaid)
chain_documents leaf bundle [] = some []
chain_documents leaf bundle (id ∷ ids) =
    let rest = chain_documents leaf bundle ids in
    elim (if id == vaid_id leaf then some leaf else lookup id bundle) [
      | none ↦ none
      | some doc ↦ Option.map (λ docs. doc ∷ docs) rest
    ]

-- How one round over a pair of documents ends: it goes on, it returns, or it panics.
pub data Hop : Type 0 where
  pass : Hop
  refuse : ChainVerification → Hop
  panic : Hop

infixl 5 ◌>>◌
abbrev pub ◌>>◌ : Hop → Hop → Hop
pass >> next = next
refuse v >> next = refuse v
panic >> next = panic

abbrev pub require : Bool → ChainVerification → Hop
require true v = pass
require false v = refuse v

abbrev require_current : Option Bool → Hop
require_current none = panic
require_current (some current) = require current consent_expired

module _ (p : Platform) (keys : KernelKeyResolver) where
  abbrev key_verifies : Option Bytes → ConsentAttestation → Bool
  key_verifies none a = false
  key_verifies (some key) a = verify_attestation_authenticity p key a

  -- The rest of the round where the hop crosses from one kernel key to another.
  unfoldable pub check_attestation : Option ConsentAttestation → Vaid → Vaid → Instant → Hop
  check_attestation none parent child now = refuse inauthentic
  check_attestation (some a) parent child now = do
    require
        (text_eq a.kernel_key_thumbprint parent.kernel_key_thumbprint
          && text_eq a.trust_domain parent.trust_domain)
        inauthentic
    require
        (text_eq a.child_trust_domain child.trust_domain
          && text_eq a.child_tenant_id child.tenant_id)
        not_attenuated
    require (key_verifies (keys a.kernel_key_thumbprint) a) inauthentic
    require_current (is_current a now)
    require
        (scope_attenuates_within a.scope_boundary child.scope_boundary
          && caps_attenuate_within a.capability_set child.capability_set)
        not_attenuated
    require (scope_attenuates parent a.scope_boundary && caps_attenuate parent a.capability_set)
        not_attenuated

  unfoldable pub same_key : Vaid → Vaid → Bool
  same_key parent child = text_eq parent.kernel_key_thumbprint child.kernel_key_thumbprint

  unfoldable pub check_hop : AttestationBundle → Vaid → Vaid → Instant → Hop
  check_hop attestations parent child now = do
    require
        (not (same_key parent child) || tenant_attenuates parent child.trust_domain child.tenant_id)
        not_attenuated
    require (scope_attenuates parent child.scope_boundary) not_attenuated
    require (caps_attenuate parent child.capability_set) not_attenuated
    require (expiry_attenuates p parent (some child.expires_at_presented)) not_attenuated
    (if same_key parent child
        then pass
        else check_attestation (get_attestation attestations (vaid_id parent) (vaid_id child))
            parent child now)

  -- The loop over `windows(2)`.
  unfoldable pub check_hops : AttestationBundle → List Vaid → Instant → Hop
  check_hops attestations [] now = pass
  check_hops attestations (v ∷ []) now = pass
  check_hops attestations (v ∷ w ∷ rest) now =
      check_hop attestations v w now >> check_hops attestations (w ∷ rest) now

  abbrev key_authenticates : Option Bytes → Vaid → Bool
  key_authenticates none v = false
  key_authenticates (some key) v = verify_vaid_authenticity p key v

  unfoldable pub authenticate : Vaid → Bool
  authenticate v = key_authenticates (keys v.kernel_key_thumbprint) v

  -- The loops over the assembled documents.
  unfoldable pub check_documents : AttestationBundle → Option (List Vaid) → Instant → Hop
  check_documents attestations none now = refuse unverifiable
  check_documents attestations (some docs) now =
      if any (λ v. is_expired_at p v now) (init docs)
      then refuse expired
      else check_hops attestations docs now

  unfoldable pub check_assembly :
      Vaid → PresentedBundle → AttestationBundle → LineageAssembly → Instant → Hop
  check_assembly leaf bundle attestations incomplete now = refuse unverifiable
  check_assembly leaf bundle attestations (complete ids) now =
      check_documents attestations (chain_documents leaf bundle ids) now

  abbrev verdict_of : Hop → Option ChainVerification
  verdict_of pass = some attenuated
  verdict_of (refuse v) = some v
  verdict_of panic = none

  -- `none` is a panic.
  unfoldable pub verify_chain_at :
      Vaid → PresentedBundle → AttestationBundle → Instant → Option ChainVerification
  verify_chain_at leaf bundle attestations now =
      if not (authenticate leaf)
      then some inauthentic
      else if not (all (λ entry. authenticate entry.1) bundle)
      then some inauthentic
      else verdict_of (
          check_assembly leaf bundle attestations (assemble_lineage leaf (bundle_resolver bundle))
            now)

-- `verify_chain`, at the instant that its caller's clock shows.
unfoldable pub verify_chain :
    Platform → Bytes → Vaid → PresentedBundle → Instant → Option ChainVerification
verify_chain p kernel_public_key leaf bundle now =
    verify_chain_at p (single_kernel_key p kernel_public_key) leaf bundle empty_attestations now
