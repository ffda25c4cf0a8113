-- ===== src/Chain/Soundness.antt =====
-- What an attenuated chain guarantees, hop by hop and from end to end.
use vaid.Prelude.{
  ◌≡◌, ◌≢◌, refl, ◌↔◌, true, false, Option, none, some, List, [], ◌∷◌, Bytes, arith, All, all,
  all_iff, any, All-mono,
}
use vaid.Platform.{Platform, VaidId, Instant}
use vaid.Document.{Vaid, is_expired_at}
use vaid.Revocation.{vaid_id_eq, LineageAssembly, complete, incomplete, assemble_lineage}
use vaid.Revocation.Ancestry.{IsAncestry, assemble_lineage_iff}
use vaid.Verify.Graded.{IsAuthentic, verify_vaid_authenticity_iff}
use vaid.Attestation.{AttestationBundle}
use vaid.Chain.{
  PresentedBundle, bundle_resolver, attenuated, KernelKeyResolver, init, chain_documents, Hop, pass,
  refuse, panic, ◌>>◌, check_hops, key_authenticates, authenticate, check_documents, check_assembly,
  verdict_of, verify_chain_at,
}
use vaid.Chain.Hops.{IsAttenuatedHop, check_hop_iff, check_hop-ne-attenuated}

-- Every two neighbours are related.
abbrev pub Hops : (Vaid → Vaid → Type 0) → List Vaid → Type 0
Hops R [] = Unit
Hops R (v ∷ []) = Unit
Hops R (v ∷ w ∷ rest) = R v w × Hops R (w ∷ rest)

then_pass : (h k : Hop) → (h >> k) ≡ pass → (h ≡ pass) × (k ≡ pass)
then_pass pass k e = (refl, e)
then_pass (refuse v) k e = cc
then_pass panic k e = cc

module _ (p : Platform) (keys : KernelKeyResolver) where
  -- A trusted document: authentic under the key that its thumbprint resolves to.
  pub record IsTrusted (v : Vaid) : Type 0 where
    pub key : Bytes
    pub resolved : keys v.kernel_key_thumbprint ≡ some key
    pub authentic : IsAuthentic p key v

  IsTrusted-of_key :
      (o : Option Bytes) (v : Vaid)
      → keys v.kernel_key_thumbprint ≡ o
      → key_authenticates p keys o v ≡ true
      → IsTrusted v
  IsTrusted-of_key none v e h = cc
  IsTrusted-of_key (some key) v e h = record {
    key = key;
    resolved = e;
    authentic = (verify_vaid_authenticity_iff p key v).0 h;
  }

  authenticate_iff : (v : Vaid) → (authenticate p keys v ≡ true) ↔ IsTrusted v
  unfolding authenticate
  authenticate_iff v = (
    IsTrusted-of_key (keys v.kernel_key_thumbprint) v refl,
    λ h. rw h.resolved ((verify_vaid_authenticity_iff p h.key v).1 h.authentic),
  )

  module _ (attestations : AttestationBundle) (now : Instant) where
    check_hops_iff :
        (docs : List Vaid)
        → (check_hops p keys attestations docs now ≡ pass)
          ↔ Hops (λ v w. IsAttenuatedHop p keys attestations now v w) docs
    unfolding check_hops
    check_hops_iff [] = ((λ _. tt), (λ _. refl))
    check_hops_iff (v ∷ []) = ((λ _. tt), (λ _. refl))
    check_hops_iff (v ∷ w ∷ rest) = (
      (λ h.
          let (now_passes, later) = then_pass _ _ h in
          (
            (check_hop_iff p keys attestations v w now).0 now_passes,
            (check_hops_iff (w ∷ rest)).0 later,
          )),
      (λ h.
          rw ((check_hop_iff p keys attestations v w now).1 h.0)
            ((check_hops_iff (w ∷ rest)).1 h.1)),
    )

    check_hops-ne-attenuated :
        (docs : List Vaid) → check_hops p keys attestations docs now ≢ refuse attenuated
    unfolding check_hops
    check_hops-ne-attenuated [] = cc
    check_hops-ne-attenuated (v ∷ []) = cc
    check_hops-ne-attenuated (v ∷ w ∷ rest) = ground (
      arith,
      check_hop-ne-attenuated p keys attestations v w now,
      check_hops-ne-attenuated (w ∷ rest),
    )

    -- The chain from the root to the leaf, as the verifier reads it from the bundle.
    pub record IsVerifiedChain (leaf : Vaid) (bundle : PresentedBundle) (docs : List Vaid)
        : Type 0 where
      pub leaf_trusted : IsTrusted leaf
      pub bundle_trusted : All (λ entry. IsTrusted entry.1) bundle
      pub ids : List VaidId
      pub ancestry : IsAncestry leaf (bundle_resolver bundle) ids
      pub read : chain_documents leaf bundle ids ≡ some docs
      pub unexpired : All (λ v. is_expired_at p v now ≡ false) (init docs)
      pub hops : Hops (λ v w. IsAttenuatedHop p keys attestations now v w) docs

    any_expired_iff :
        (docs : List Vaid)
        → (any (λ v. is_expired_at p v now) docs ≡ false)
          ↔ All (λ v. is_expired_at p v now ≡ false) docs
    any_expired_iff [] = ((λ _. tt), (λ _. refl))
    any_expired_iff (v ∷ docs) = ground (arith, any_expired_iff docs)

    check_documents_pass :
        (o : Option (List Vaid))
        → verdict_of p keys (check_documents p keys attestations o now) ≡ some attenuated
        → (docs : List Vaid) × (o ≡ some docs)
          × All (λ v. is_expired_at p v now ≡ false) (init docs)
          × Hops (λ v w. IsAttenuatedHop p keys attestations now v w) docs
    unfolding check_documents
    check_documents_pass none h = cc
    check_documents_pass (some docs) h = (
      docs,
      refl,
      (any_expired_iff (init docs)).0 (ground arith),
      (check_hops_iff docs).0 (ground (arith, check_hops-ne-attenuated docs)),
    )

    documents_pass :
        (docs : List Vaid)
        → All (λ v. is_expired_at p v now ≡ false) (init docs)
        → Hops (λ v w. IsAttenuatedHop p keys attestations now v w) docs
        → check_documents p keys attestations (some docs) now ≡ pass
    unfolding check_documents
    documents_pass docs fresh hops =
        rw ((any_expired_iff (init docs)).1 fresh) ((check_hops_iff docs).1 hops)

    IsTrusted-bundle_iff :
        (bundle : PresentedBundle)
        → (all (λ entry. authenticate p keys entry.1) bundle ≡ true)
          ↔ All (λ entry. IsTrusted entry.1) bundle
    IsTrusted-bundle_iff bundle = (
      (λ h. All-mono _ _ bundle (λ entry. (authenticate_iff entry.1).0) ((all_iff _ bundle).0 h)),
      (λ h. (all_iff _ bundle).1 (All-mono _ _ bundle (λ entry. (authenticate_iff entry.1).1) h)),
    )

    check_assembly_pass :
        (leaf : Vaid) (bundle : PresentedBundle) (assembly : LineageAssembly)
        → verdict_of p keys (check_assembly p keys leaf bundle attestations assembly now)
          ≡ some attenuated
        → (ids : List VaidId) × (docs : List Vaid) × (assembly ≡ complete ids)
          × (chain_documents leaf bundle ids ≡ some docs)
          × All (λ v. is_expired_at p v now ≡ false) (init docs)
          × Hops (λ v w. IsAttenuatedHop p keys attestations now v w) docs
    unfolding check_assembly
    check_assembly_pass leaf bundle incomplete h = cc
    check_assembly_pass leaf bundle (complete ids) h =
        let (docs, read, fresh, hops) = check_documents_pass (chain_documents leaf bundle ids) h in
        (ids, docs, refl, read, fresh, hops)

    verified_chain :
        (leaf : Vaid) (bundle : PresentedBundle)
        → verify_chain_at p keys leaf bundle attestations now ≡ some attenuated
        → (docs : List Vaid) × IsVerifiedChain leaf bundle docs
    unfolding verify_chain_at
    verified_chain leaf bundle h =
        let leaf_ok : authenticate p keys leaf ≡ true = ground arith in
        let bundle_ok : all (λ entry. authenticate p keys entry.1) bundle ≡ true = ground arith in
        let assembly = assemble_lineage leaf (bundle_resolver bundle) in
        let (ids, docs, assembled, read, fresh, hops) =
          check_assembly_pass leaf bundle assembly (rw (leaf_ok, bundle_ok) at h) in
        (
          docs,
          record {
            leaf_trusted = (authenticate_iff leaf).0 leaf_ok;
            bundle_trusted = (IsTrusted-bundle_iff bundle).0 bundle_ok;
            ids = ids;
            ancestry = (assemble_lineage_iff leaf (bundle_resolver bundle) ids).0 assembled;
            read = read;
            unexpired = fresh;
            hops = hops;
          },
        )

    attenuated_chain :
        (leaf : Vaid) (bundle : PresentedBundle) (docs : List Vaid)
        → IsVerifiedChain leaf bundle docs
        → verify_chain_at p keys leaf bundle attestations now ≡ some attenuated
    unfolding verify_chain_at check_assembly
    attenuated_chain leaf bundle docs h = rw (
      (authenticate_iff leaf).1 h.leaf_trusted,
      (IsTrusted-bundle_iff bundle).1 h.bundle_trusted,
      (assemble_lineage_iff leaf (bundle_resolver bundle) h.ids).1 h.ancestry,
      h.read,
      documents_pass docs h.unexpired h.hops,
    )

    -- The verifier answers `Attenuated` exactly for a verified chain: the leaf and every
    -- presented document authentic under a known key, an ancestry from a presented root to the
    -- leaf, no expired ancestor, and an attenuated hop between any two neighbours.
    pub verify_chain_at_iff :
        (leaf : Vaid) (bundle : PresentedBundle)
        → (verify_chain_at p keys leaf bundle attestations now ≡ some attenuated)
          ↔ ((docs : List Vaid) × IsVerifiedChain leaf bundle docs)
    verify_chain_at_iff leaf bundle =
        (verified_chain leaf bundle, λ h. attenuated_chain leaf bundle h.0 h.1)
