-- ===== src/Issuer/Histories.antt =====
-- What stays true through every run of a reference issuer, crates/vaid-mint/src/issuer.rs.
use vaid.Prelude.{◌≡◌, refl, ◌∙◌, true, List, [], ◌∷◌, Bytes, All, All-append}
use vaid.Platform.{Platform, PlatformLaws}
use vaid.TrustDomain.{is_valid_trust_domain}
use vaid.Document.{Vaid}
use vaid.Revocation.{vaid_id_eq}
use vaid.Verify.Graded.{IsAuthentic}
use vaid.Errors.{Outcome, done, failed, panicked}
use vaid.Errors.Calls.{returned, >>=-Returned, lift_pair}
use vaid.Issuer.{
  kernel_public_key, build_and_sign_vaid, issue_vaid_with_key, issue_vaid_with_lineage,
}
use vaid.Issuer.State.{RevocationBackend, ReferenceIssuer, IssueArgs, Fresh}
use vaid.Issuer.Issuing.{build_and_sign_vaid-IsAuthentic}
use vaid.Issuer.Running.{
  Operation, issue_with_key, issue_with_lineage, revoke_id, clear, use_backend, assume_none_revoked,
  issued, Kept, build_and_sign_vaid-Keeps, issue_vaid_with_lineage-Keeps, perform, run,
}

module _ (p : Platform) {S : Type 0} (b : RevocationBackend S) where
  -- An issuer's key and trust domain are what they were.
  record SameIssuer (i j : ReferenceIssuer S) : Type 0 where
    key : j.kernel_key_pair ≡ i.kernel_key_pair
    domain : j.trust_domain ≡ i.trust_domain

  pub issued_state : (r : Outcome Vaid × ReferenceIssuer S) → (issued r).1 ≡ r.1
  issued_state (done v, i) = refl
  issued_state (failed e, i) = refl
  issued_state (panicked, i) = refl

  SameIssuer-of_Kept :
      (i : ReferenceIssuer S) (r : Outcome Vaid × ReferenceIssuer S)
      → Kept i r.1
      → SameIssuer i (issued r).1
  SameIssuer-of_Kept i r h = rw (issued_state r) (record { key = h.key; domain = h.domain })

  perform-SameIssuer :
      (op : Operation S) (i : ReferenceIssuer S) → SameIssuer i (perform p b op i).1
  unfolding perform issue_vaid_with_key
  perform-SameIssuer (issue_with_key args key fresh) i =
      SameIssuer-of_Kept i (build_and_sign_vaid p b args key fresh i)
        (build_and_sign_vaid-Keeps p b args key fresh i)
  perform-SameIssuer (issue_with_lineage args fresh) i =
      SameIssuer-of_Kept i (issue_vaid_with_lineage p b args fresh i)
        (issue_vaid_with_lineage-Keeps p b args fresh i)
  perform-SameIssuer (revoke_id id) i = record { key = refl; domain = refl }
  perform-SameIssuer clear i = record { key = refl; domain = refl }
  perform-SameIssuer (use_backend s) i = record { key = refl; domain = refl }
  perform-SameIssuer assume_none_revoked i = record { key = refl; domain = refl }

  run-SameIssuer :
      (ops : List (Operation S)) (i : ReferenceIssuer S) → SameIssuer i (run p b ops i).1
  unfolding run
  run-SameIssuer [] i = record { key = refl; domain = refl }
  run-SameIssuer (op ∷ ops) i =
      let first = perform-SameIssuer op i in
      let later = run-SameIssuer ops (perform p b op i).1 in
      record { key = later.key ∙ first.key; domain = later.domain ∙ first.domain }

  -- The documents that one operation returns.
  AreAuthentic : ReferenceIssuer S → List Vaid → Type 0
  AreAuthentic i docs = All (λ v. IsAuthentic p (kernel_public_key p b i) v) docs

  AreAuthentic-same :
      (i j : ReferenceIssuer S) (docs : List Vaid)
      → j.kernel_key_pair ≡ i.kernel_key_pair
      → AreAuthentic i docs
      → AreAuthentic j docs
  unfolding AreAuthentic
  AreAuthentic-same i j docs same h = rw same h

  build-AreAuthentic :
      PlatformLaws p
      → (args : IssueArgs) (key : Bytes) (fresh : Fresh) (i : ReferenceIssuer S)
      → is_valid_trust_domain i.trust_domain ≡ true
      → (r : Outcome Vaid × ReferenceIssuer S) → build_and_sign_vaid p b args key fresh i ≡ r
      → AreAuthentic i (issued r).0
  unfolding AreAuthentic
  build-AreAuthentic laws args key fresh i domain (done v, j) h =
      (build_and_sign_vaid-IsAuthentic p b laws args key fresh i j v domain h, tt)
  build-AreAuthentic laws args key fresh i domain (failed e, j) h = tt
  build-AreAuthentic laws args key fresh i domain (panicked, j) h = tt

  generated-AreAuthentic :
      PlatformLaws p
      → (args : IssueArgs) (fresh : Fresh) (i : ReferenceIssuer S)
      → is_valid_trust_domain i.trust_domain ≡ true
      → (r : Outcome Vaid × ReferenceIssuer S) → issue_vaid_with_lineage p b args fresh i ≡ r
      → AreAuthentic i (issued r).0
  unfolding AreAuthentic issue_vaid_with_lineage
  generated-AreAuthentic laws args fresh i domain (done v, j) h = elim (>>=-Returned _ _ i h) [
    | returned key i1 made h1 ↦
        let (made', same) = lift_pair _ key made in
        (
          build_and_sign_vaid-IsAuthentic p b laws args key fresh i j v domain (rw (← same) at h1),
          tt,
        )
  ]
  generated-AreAuthentic laws args fresh i domain (failed e, j) h = tt
  generated-AreAuthentic laws args fresh i domain (panicked, j) h = tt

  perform-AreAuthentic :
      PlatformLaws p
      → (op : Operation S) (i : ReferenceIssuer S) → is_valid_trust_domain i.trust_domain ≡ true
      → AreAuthentic i (perform p b op i).0
  unfolding perform issue_vaid_with_key AreAuthentic
  perform-AreAuthentic laws (issue_with_key args key fresh) i domain =
      build-AreAuthentic laws args key fresh i domain _ refl
  perform-AreAuthentic laws (issue_with_lineage args fresh) i domain =
      generated-AreAuthentic laws args fresh i domain _ refl
  perform-AreAuthentic laws (revoke_id id) i domain = tt
  perform-AreAuthentic laws clear i domain = tt
  perform-AreAuthentic laws (use_backend s) i domain = tt
  perform-AreAuthentic laws assume_none_revoked i domain = tt

  -- Whatever operations an issuer performs, in whatever order and with whatever outcomes, every
  -- document that it has returned on the way is authentic under the key that it holds at the end,
  -- if the platform's laws hold and its trust domain was well formed at the start.
  pub run-IsAuthentic :
      PlatformLaws p
      → (ops : List (Operation S)) (i : ReferenceIssuer S)
      → is_valid_trust_domain i.trust_domain ≡ true
      → All (λ v. IsAuthentic p (kernel_public_key p b (run p b ops i).1) v) (run p b ops i).0
  unfolding run AreAuthentic
  run-IsAuthentic laws [] i domain = tt
  run-IsAuthentic laws (op ∷ ops) i domain =
      let j = (perform p b op i).1 in
      let first = perform-SameIssuer op i in
      let domain' : is_valid_trust_domain j.trust_domain ≡ true = rw first.domain domain in
      let whole = run-SameIssuer (op ∷ ops) i in
      All-append _ (perform p b op i).0 (run p b ops j).0
        (AreAuthentic-same i (run p b (op ∷ ops) i).1 (perform p b op i).0 whole.key
          (perform-AreAuthentic laws op i domain))
        (run-IsAuthentic laws ops j domain')
