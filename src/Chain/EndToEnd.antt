-- ===== src/Chain/EndToEnd.antt =====
-- From the root to the leaf: what the leaf may do is within what every ancestor may.
use mathlib.Core.Path.{subst}
use vaid.Prelude.{
  ◌≡◌, sym, inl, inr, true, false, Option, none, some, List, [], ◌∷◌, Text, arith, All, last,
  lookup, lookup-All, ◌==◌, ==_iff, Bool-cases, Option-cases, if◌then◌else◌, All-mono,
}
use vaid.Platform.{Platform, VaidId, Instant}
use vaid.Document.{Vaid, vaid_id, is_expired_at, is_in_scope, has_capability}
use vaid.Attenuation.{scope_attenuates_within, caps_attenuate_within, expiry_attenuates_within}
use vaid.Attenuation.Authority.{scope_attenuates_sound, caps_attenuate_within_iff, caps_contain_iff}
use vaid.Attenuation.Order.{scope_attenuates_trans, caps_attenuate_trans, expiry_attenuates_trans}
use vaid.Revocation.{vaid_id_eq, LineageResolver, complete, assemble_lineage}
use vaid.Revocation.Ancestry.{Linked, assemble_lineage_iff}
use vaid.Attestation.{AttestationBundle}
use vaid.Chain.{
  PresentedBundle, bundle_resolver, attenuated, KernelKeyResolver, init, chain_documents,
  verify_chain_at,
}
use vaid.Chain.Soundness.{Hops, IsTrusted, IsVerifiedChain, verify_chain_at_iff}

-- One round of the loop that reads the documents.
documents_cons :
    (leaf : Vaid) (bundle : PresentedBundle) (id : VaidId) (ids : List VaidId) (docs : List Vaid)
    → chain_documents leaf bundle (id ∷ ids) ≡ some docs
    → (d : Vaid) × (rest : List Vaid) × (docs ≡ d ∷ rest)
      × ((if id == vaid_id leaf then some leaf else lookup id bundle) ≡ some d)
      × (chain_documents leaf bundle ids ≡ some rest)
unfolding chain_documents
documents_cons leaf bundle id ids docs h =
    elim (Option-cases (if id == vaid_id leaf then some leaf else lookup id bundle)) [
      | inl missing ↦ absurd (ground arith)
      | inr (d, found) ↦ elim (Option-cases (chain_documents leaf bundle ids)) [
        | inl missing ↦ absurd (ground arith)
        | inr (rest, read) ↦ (d, rest, ground arith, found, read)
      ]
    ]

documents_nil :
    (leaf : Vaid) (bundle : PresentedBundle) (docs : List Vaid)
    → chain_documents leaf bundle [] ≡ some docs
    → docs ≡ []
unfolding chain_documents
documents_nil leaf bundle docs h = cc

last-cons : (d : Vaid) (rest : List Vaid) (v : Vaid) → last rest ≡ some v → last (d ∷ rest) ≡ some v
last-cons d [] v h = cc
last-cons d (e ∷ rest) v h = h

-- The last document is the leaf.
documents_last :
    (leaf : Vaid) (bundle : PresentedBundle) (resolve : LineageResolver) (ids : List VaidId)
    (above : Option VaidId) (docs : List Vaid)
    → Linked leaf resolve ids above
    → chain_documents leaf bundle ids ≡ some docs
    → last docs ≡ some leaf
documents_last leaf bundle resolve [] above docs l h = absurd l
documents_last leaf bundle resolve (x ∷ []) above docs l h =
    let (d, rest, e, found, read) = documents_cons leaf bundle x [] docs h in
    let is_leaf = (==_iff x (vaid_id leaf)).1 l.0 in
    let empty = documents_nil leaf bundle rest read in rw (e, empty) (sym (rw is_leaf at found))
documents_last leaf bundle resolve (x ∷ y ∷ ids) above docs l h =
    let (d, rest, e, found, read) = documents_cons leaf bundle x (y ∷ ids) docs h in
    rw e
      (last-cons d rest leaf (documents_last leaf bundle resolve (y ∷ ids) (some x) rest l.1 read))

-- What every document of the list is, given what the leaf and the bundle are.
documents-All :
    (P : Vaid → Type 0) (leaf : Vaid) (bundle : PresentedBundle) (ids : List VaidId)
    (docs : List Vaid)
    → P leaf
    → All (λ entry. P entry.1) bundle
    → chain_documents leaf bundle ids ≡ some docs
    → All P docs
documents-All P leaf bundle [] docs on_leaf on_bundle h = rw (documents_nil leaf bundle docs h) tt
documents-All P leaf bundle (x ∷ ids) docs on_leaf on_bundle h =
    let (d, rest, e, found, read) = documents_cons leaf bundle x ids docs h in
    let here : P d = elim (Bool-cases (x == vaid_id leaf)) [
      | inl is_leaf ↦ subst P (cc (rw is_leaf at found)) on_leaf
      | inr other ↦ lookup-All P x bundle d on_bundle (rw other at found)
    ] in
    rw e (here, documents-All P leaf bundle ids rest on_leaf on_bundle read)

All-init : (P : Vaid → Type 0) (docs : List Vaid) → All P docs → All P (init docs)
All-init P [] h = tt
All-init P (v ∷ []) h = tt
All-init P (v ∷ w ∷ docs) h = (h.0, All-init P (w ∷ docs) h.1)

All-three :
    (P Q R : Vaid → Type 0) (docs : List Vaid)
    → All P docs
    → All Q docs
    → All R docs
    → All (λ v. P v × Q v × R v) docs
All-three P Q R [] h k l = tt
All-three P Q R (v ∷ docs) h k l = ((h.0, k.0, l.0), All-three P Q R docs h.1 k.1 l.1)

-- A transitive relation between neighbours holds from every document to the last.
Hops-last :
    (R : Vaid → Vaid → Type 0)
    → ((a b c : Vaid) → R a b → R b c → R a c)
    → (docs : List Vaid) (leaf : Vaid) → last docs ≡ some leaf
    → Hops R docs
    → All (λ a. R a leaf) (init docs)
Hops-last R trans [] leaf e h = tt
Hops-last R trans (v ∷ []) leaf e h = tt
Hops-last R trans (v ∷ w ∷ []) leaf e h = (subst (λ x. R v x) (cc) h.0, tt)
Hops-last R trans (v ∷ w ∷ x ∷ docs) leaf e h =
    let later = Hops-last R trans (w ∷ x ∷ docs) leaf e h.1 in (trans v w leaf h.0 later.0, later)

-- The three attenuations that the verifier checks at every hop.
record Narrows (p : Platform) (upper lower : Vaid) : Type 0 where
  scope : scope_attenuates_within upper.scope_boundary lower.scope_boundary ≡ true
  caps : caps_attenuate_within upper.capability_set lower.capability_set ≡ true
  expiry :
      expiry_attenuates_within p upper.expires_at_presented (some lower.expires_at_presented) ≡ true

Narrows-trans : (p : Platform) (a b c : Vaid) → Narrows p a b → Narrows p b c → Narrows p a c
Narrows-trans p a b c h k = record {
  scope = scope_attenuates_trans a.scope_boundary b.scope_boundary c.scope_boundary h.scope k.scope;
  caps = caps_attenuate_trans a.capability_set b.capability_set c.capability_set h.caps k.caps;
  expiry =
      expiry_attenuates_trans p a.expires_at_presented b.expires_at_presented c.expires_at_presented
        h.expiry k.expiry;
}

Hops-mono :
    (R S : Vaid → Vaid → Type 0)
    → ((a b : Vaid) → R a b → S a b)
    → (docs : List Vaid) → Hops R docs
    → Hops S docs
Hops-mono R S f [] h = tt
Hops-mono R S f (v ∷ []) h = tt
Hops-mono R S f (v ∷ w ∷ docs) h = (f v w h.0, Hops-mono R S f (w ∷ docs) h.1)

-- The leaf may do nothing that the ancestor may not, and does not outlive it.
pub record IsWithin (p : Platform) (ancestor leaf : Vaid) : Type 0 where
  pub scope : (r : Text) → is_in_scope leaf r ≡ true → is_in_scope ancestor r ≡ true
  pub caps : (c : Text) → has_capability leaf c ≡ true → has_capability ancestor c ≡ true
  pub expiry :
      (now : Instant) → is_expired_at p ancestor now ≡ true → is_expired_at p leaf now ≡ true

Narrows-IsWithin : (p : Platform) (a b : Vaid) → Narrows p a b → IsWithin p a b
unfolding is_in_scope has_capability is_expired_at expiry_attenuates_within
Narrows-IsWithin p a b h =
    let expiry = h.expiry in
    record {
      scope = λ r. scope_attenuates_sound a.scope_boundary b.scope_boundary r h.scope;
      caps = λ c k. (caps_contain_iff a.capability_set c).1 (
          (caps_attenuate_within_iff a.capability_set b.capability_set).0 h.caps c
            ((caps_contain_iff b.capability_set c).0 k));
      expiry = λ now k. ground arith;
    }

module _ (p : Platform) (keys : KernelKeyResolver) (attestations : AttestationBundle)
    (now : Instant) (leaf : Vaid) (bundle : PresentedBundle) where
  chain-IsWithin :
      (docs : List Vaid)
      → IsVerifiedChain p keys attestations now leaf bundle docs
      → (last docs ≡ some leaf)
        × All
            (λ a. IsTrusted p keys a × (is_expired_at p a now ≡ false) × IsWithin p a leaf)
            (init docs)
  chain-IsWithin docs chain =
      let ends =
        documents_last leaf bundle (bundle_resolver bundle) chain.ids none docs
          chain.ancestry.linked chain.read in
      let trusted =
        documents-All (λ v. IsTrusted p keys v) leaf bundle chain.ids docs chain.leaf_trusted
          chain.bundle_trusted chain.read in
      let narrow =
        Hops-last (λ a b. Narrows p a b) (Narrows-trans p) docs leaf ends
          (Hops-mono _ _
            (λ a b hop. record { scope = hop.scope; caps = hop.caps; expiry = hop.expiry }) docs
            chain.hops) in
      (
        ends,
        All-three _ _ _ (init docs) (All-init _ docs trusted) chain.unexpired
            (All-mono _ _ (init docs) (λ a n. Narrows-IsWithin p a leaf n) narrow),
      )

  -- If the verifier answers `Attenuated` and `docs` are the documents of the assembled chain,
  -- then the last one is the leaf, and every other one is authentic under a known key, has not
  -- expired, and holds all authority of the leaf: each resource in the leaf's scope and each of
  -- its capabilities is that ancestor's too, and the leaf is expired whenever the ancestor is.
  pub verify_chain_at-IsWithin :
      (ids : List VaidId) (docs : List Vaid)
      → verify_chain_at p keys leaf bundle attestations now ≡ some attenuated
      → assemble_lineage leaf (bundle_resolver bundle) ≡ complete ids
      → chain_documents leaf bundle ids ≡ some docs
      → (last docs ≡ some leaf)
        × All
            (λ a. IsTrusted p keys a × (is_expired_at p a now ≡ false) × IsWithin p a leaf)
            (init docs)
  verify_chain_at-IsWithin ids docs h assembled read =
      let (docs', chain) = (verify_chain_at_iff p keys attestations now leaf bundle).0 h in
      let assembled' =
        (assemble_lineage_iff leaf (bundle_resolver bundle) chain.ids).1 chain.ancestry in
      let same_ids : chain.ids ≡ ids = cc in
      let read' : chain_documents leaf bundle ids ≡ some docs' = rw (← same_ids) chain.read in
      let same : docs' ≡ docs = cc in
      subst
        (λ ds.
          (last ds ≡ some leaf)
          × All (λ a. IsTrusted p keys a × (is_expired_at p a now ≡ false) × IsWithin p a leaf)
              (init ds))
        same (chain-IsWithin docs' chain)
