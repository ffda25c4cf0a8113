-- ===== src/Issuer/Revoked.antt =====
-- That a revocation lasts: `revoke` of crates/vaid-mint/src/issuer.rs, and every run after it.
use vaid.Prelude.{
  ◌≡◌, ◌≢◌, refl, sym, ap, ◌∙◌, true, false, Option, none, some, List, [], ◌∷◌, All, In, contains,
  add, ◌⊎◌, inl, inr, arith, any, any_of_In, ==_refl,
}
use vaid.Platform.{Platform, VaidId, Instant}
use vaid.Document.{Vaid, vaid_id, parent_vaid}
use vaid.Revocation.{
  vaid_id_eq, LineageAssembly, complete, incomplete, LineageResolver, not_revoked, revoke,
  get_or_empty, check_lineage, assemble_lineage,
}
use vaid.Revocation.Ancestry.{Linked, assemble_lineage_iff}
use vaid.Revocation.Stores.{contains-add}
use vaid.Issuer.{
  revocation_status, status_of_assembly, issuer_resolver, build_and_sign_vaid, issue_vaid_with_key,
  issue_vaid_with_lineage, verify_vaid,
}
use vaid.Issuer.State.{RevocationBackend, own, ReferenceIssuer, revoke_issued}
use vaid.Issuer.Verifying.{refused_of_status}
use vaid.Issuer.Running.{
  Operation, issue_with_key, issue_with_lineage, revoke_id, clear, use_backend, assume_none_revoked,
  Kept, build_and_sign_vaid-Keeps, issue_vaid_with_lineage-Keeps, perform, run,
}
use vaid.Issuer.Histories.{issued_state}

-- An operation of an issuer that is shared: it does not replace a store.
abbrev pub IsShared : {S : Type 0} → Operation S → Type 0
IsShared (use_backend s) = ⊥
IsShared assume_none_revoked = ⊥
IsShared _ = Unit

-- The issuer consults its own list, and the list has the identifier.
record HasRevoked {S : Type 0} (id : VaidId) (i : ReferenceIssuer S) : Type 0 where
  source : i.revocation_source ≡ own
  ids : List VaidId
  listed : i.default_store ≡ some ids
  there : contains id ids ≡ true

contains-add_kept :
    (id j : VaidId) (ids : List VaidId) → contains id ids ≡ true → contains id (add j ids) ≡ true
contains-add_kept id j ids h = ground (arith, contains-add j id ids)

contains-add_same : (id : VaidId) (ids : List VaidId) → contains id (add id ids) ≡ true
contains-add_same id ids = ground (arith, contains-add id id ids, ==_refl id)

-- A leaf and its parent stand in the leaf's ancestry.
In-Linked_leaf :
    (leaf : Vaid) (resolve : LineageResolver) (ids : List VaidId) (above : Option VaidId)
    → Linked leaf resolve ids above
    → In (vaid_id leaf) ids
In-Linked_leaf leaf resolve [] above l = absurd l
In-Linked_leaf leaf resolve (x ∷ []) above l = inl (sym l.0)
In-Linked_leaf leaf resolve (x ∷ y ∷ rest) above l =
    inr (In-Linked_leaf leaf resolve (y ∷ rest) (some x) l.1)

In-Linked_parent :
    (leaf : Vaid) (resolve : LineageResolver) (ids : List VaidId) (above : Option VaidId)
    (id : VaidId)
    → parent_vaid leaf ≡ some id
    → Linked leaf resolve ids above
    → (above ≡ some id) ⊎ In id ids
In-Linked_parent leaf resolve [] above id e l = absurd l
In-Linked_parent leaf resolve (x ∷ []) above id e l = inl (sym l.1 ∙ e)
In-Linked_parent leaf resolve (x ∷ y ∷ rest) above id e l =
    elim (In-Linked_parent leaf resolve (y ∷ rest) (some x) id e l.1) [
      | inl same ↦ inr (inl (ground arith))
      | inr later ↦ inr (inr later)
    ]

-- The document bears the identifier, or names it as its parent's.
abbrev pub Bears : VaidId → Vaid → Type 0
Bears id v = (vaid_id v ≡ id) ⊎ (parent_vaid v ≡ some id)

In-assemble_lineage :
    (id : VaidId) (v : Vaid) (resolve : LineageResolver) (ids : List VaidId)
    → Bears id v
    → assemble_lineage v resolve ≡ complete ids
    → In id ids
In-assemble_lineage id v resolve ids bears h =
    let linked = ((assemble_lineage_iff v resolve ids).0 h).linked in
    elim bears [
      | inl same ↦ rw (← same) (In-Linked_leaf v resolve ids none linked)
      | inr above ↦ elim (In-Linked_parent v resolve ids none id above linked) [
        | inl never ↦ cc
        | inr there ↦ there
      ]
    ]

module _ (p : Platform) {S : Type 0} (b : RevocationBackend S) where
  Kept-HasRevoked :
      (id : VaidId) (i j : ReferenceIssuer S) → Kept i j → HasRevoked id i → HasRevoked id j
  Kept-HasRevoked id i j k h = record {
    source = k.source ∙ h.source;
    ids = h.ids;
    listed = k.store ∙ h.listed;
    there = h.there;
  }

  revoke_issued-HasRevoked :
      (id : VaidId) (i : ReferenceIssuer S)
      → i.revocation_source ≡ own
      → HasRevoked id (revoke_issued id i)
  unfolding revoke
  revoke_issued-HasRevoked id i source = record {
    source = source;
    ids = add id (get_or_empty i.default_store);
    listed = refl;
    there = contains-add_same id (get_or_empty i.default_store);
  }

  perform-HasRevoked :
      (id : VaidId) (op : Operation S) (i : ReferenceIssuer S)
      → IsShared op
      → HasRevoked id i
      → HasRevoked id (perform p b op i).1
  unfolding perform issue_vaid_with_key revoke
  perform-HasRevoked id (issue_with_key args key fresh) i _ h =
      rw (issued_state p b (build_and_sign_vaid p b args key fresh i))
        (Kept-HasRevoked id i _ (build_and_sign_vaid-Keeps p b args key fresh i) h)
  perform-HasRevoked id (issue_with_lineage args fresh) i _ h =
      rw (issued_state p b (issue_vaid_with_lineage p b args fresh i))
        (Kept-HasRevoked id i _ (issue_vaid_with_lineage-Keeps p b args fresh i) h)
  perform-HasRevoked id (revoke_id j) i _ h = record {
    source = h.source;
    ids = add j h.ids;
    listed = ap (λ l. some (add j (get_or_empty l))) h.listed;
    there = contains-add_kept id j h.ids h.there;
  }
  perform-HasRevoked id clear i _ h = record {
    source = h.source;
    ids = h.ids;
    listed = h.listed;
    there = h.there;
  }
  perform-HasRevoked id (use_backend s) i shared h = absurd shared
  perform-HasRevoked id assume_none_revoked i shared h = absurd shared

  run-HasRevoked :
      (id : VaidId) (ops : List (Operation S)) (i : ReferenceIssuer S)
      → All (λ op. IsShared op) ops
      → HasRevoked id i
      → HasRevoked id (run p b ops i).1
  unfolding run
  run-HasRevoked id [] i shared h = h
  run-HasRevoked id (op ∷ ops) i (now, later) h =
      run-HasRevoked id ops (perform p b op i).1 later (perform-HasRevoked id op i now h)

  HasRevoked-status :
      (id : VaidId) (i : ReferenceIssuer S) (v : Vaid) (a : LineageAssembly)
      → HasRevoked id i
      → Bears id v
      → assemble_lineage v (issuer_resolver p b i) ≡ a
      → status_of_assembly p b i a ≢ not_revoked
  unfolding check_lineage
  HasRevoked-status id i v incomplete h bears e same = cc
  HasRevoked-status id i v (complete ids) h bears e same =
      let caught : any (λ x. contains x h.ids) ids ≡ true =
        any_of_In (λ x. contains x h.ids) id ids
          (In-assemble_lineage id v (issuer_resolver p b i) ids bears e) h.there in
      cc (rw (h.source, h.listed, caught) at same)

  -- Once an issuer that consults its own list has revoked an identifier, it never accepts a document
  -- again that bears it or names it as its parent's, at any instant, whatever it issues, revokes and
  -- clears in between.
  pub verify_vaid-run_revoked :
      (id : VaidId) (ops : List (Operation S)) (i : ReferenceIssuer S) (v : Vaid) (now : Instant)
      → i.revocation_source ≡ own
      → All (λ op. IsShared op) ops
      → Bears id v
      → verify_vaid p b (run p b ops (revoke_issued id i)).1 v now ≡ false
  unfolding revocation_status
  verify_vaid-run_revoked id ops i v now source shared bears =
      let after = (run p b ops (revoke_issued id i)).1 in
      refused_of_status p b after v now (
        HasRevoked-status id after v _
          (run-HasRevoked id ops (revoke_issued id i) shared (revoke_issued-HasRevoked id i source))
          bears refl)
