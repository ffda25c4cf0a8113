-- ===== src/Issuer/Running.antt =====
-- Runs of a reference issuer, crates/vaid-mint/src/issuer.rs: its operations in any order, each with
-- any outcome.
use vaid.Prelude.{◌≡◌, refl, ◌∙◌, Option, List, [], ◌∷◌, ◌++◌, Bytes, Text, Result, ok, err}
use vaid.Platform.{Platform, VaidId}
use vaid.Document.{Vaid, vaid_id}
use vaid.Errors.{Outcome, done, failed, panicked}
use vaid.Errors.Calls.{Call, continue, ◌>>=◌}
use vaid.Issuer.{
  try_record, try_record_at, recorded, build_and_sign_vaid, issue_vaid_with_key,
  issue_vaid_with_lineage,
}
use vaid.Issuer.State.{
  RevocationBackend, Source, own, injected, ReferenceIssuer, IssueArgs, Fresh,
  with_revocation_backend, assuming_nothing_revoked, revoke_issued, clear_lineage,
}

-- The operations that change an issuer. The last two take the issuer by value, before it is shared.
pub data Operation (S : Type 0) : Type 0 where
  issue_with_key : IssueArgs → Bytes → Fresh → Operation S
  issue_with_lineage : IssueArgs → Fresh → Operation S
  revoke_id : VaidId → Operation S
  clear : Operation S
  use_backend : S → Operation S
  assume_none_revoked : Operation S

abbrev pub issued : {S : Type 0} → Outcome Vaid × ReferenceIssuer S → List Vaid × ReferenceIssuer S
issued (done v, i) = (v ∷ [], i)
issued (failed e, i) = ([], i)
issued (panicked, i) = ([], i)

-- What an issuer keeps whatever it issues.
pub record Kept {S : Type 0} (i j : ReferenceIssuer S) : Type 0 where
  pub key : j.kernel_key_pair ≡ i.kernel_key_pair
  pub domain : j.trust_domain ≡ i.trust_domain
  pub source : j.revocation_source ≡ i.revocation_source
  pub store : j.default_store ≡ i.default_store

module _ {S : Type 0} where
  Kept-refl : (i : ReferenceIssuer S) → Kept i i
  Kept-refl i = record { key = refl; domain = refl; source = refl; store = refl }

  Kept-trans : (i j k : ReferenceIssuer S) → Kept i j → Kept j k → Kept i k
  Kept-trans i j k h l = record {
    key = l.key ∙ h.key;
    domain = l.domain ∙ h.domain;
    source = l.source ∙ h.source;
    store = l.store ∙ h.store;
  }

  -- A call that changes nothing else, however it ends.
  abbrev pub Keeps : {A : Type 0} → Call (ReferenceIssuer S) A → Type 0
  Keeps m = (i : ReferenceIssuer S) → Kept i (m i).1

  continue-Kept :
      {A B : Type 0} (o : Outcome A) (f : A → Call (ReferenceIssuer S) B) (i : ReferenceIssuer S)
      → ((a : A) → Keeps (f a))
      → Kept i (continue o f i).1
  continue-Kept (done a) f i h = h a i
  continue-Kept (failed e) f i h = Kept-refl i
  continue-Kept panicked f i h = Kept-refl i

  >>=-Keeps :
      {A B : Type 0} (m : Call (ReferenceIssuer S) A) (f : A → Call (ReferenceIssuer S) B)
      → Keeps m
      → ((a : A) → Keeps (f a))
      → Keeps (m >>= f)
  unfolding ◌>>=◌
  >>=-Keeps m f h l i =
      Kept-trans i (m i).1 (continue (m i).0 f (m i).1).1 (h i) (continue-Kept (m i).0 f (m i).1 l)

module _ (p : Platform) {S : Type 0} (b : RevocationBackend S) where
  recorded-Kept :
      (r : Result Text (Unit {0}) × S) (i : ReferenceIssuer S) → Kept i (recorded p b r i).1
  recorded-Kept (ok u, s) i = record { key = refl; domain = refl; source = refl; store = refl }
  recorded-Kept (err e, s) i = record { key = refl; domain = refl; source = refl; store = refl }

  try_record_at-Keeps :
      (source : Source) (id : VaidId) (parent_id : Option VaidId)
      → Keeps (try_record_at p b source id parent_id)
  try_record_at-Keeps own id parent_id i = record {
    key = refl;
    domain = refl;
    source = refl;
    store = refl;
  }
  try_record_at-Keeps injected id parent_id i =
      recorded-Kept (b.try_record id parent_id i.backend_state) i

  try_record-Keeps : (id : VaidId) (parent_id : Option VaidId) → Keeps (try_record p b id parent_id)
  unfolding try_record
  try_record-Keeps id parent_id i = try_record_at-Keeps i.lineage_source id parent_id i

  pub build_and_sign_vaid-Keeps :
      (args : IssueArgs) (key : Bytes) (fresh : Fresh)
      → Keeps (build_and_sign_vaid p b args key fresh)
  unfolding build_and_sign_vaid
  build_and_sign_vaid-Keeps args key fresh =
      >>=-Keeps _ _ (λ i. Kept-refl i)
        λ latest.
          >>=-Keeps _ _ (λ i. Kept-refl i)
            λ expires.
              >>=-Keeps _ _ (λ i. Kept-refl i)
                λ v.
                  >>=-Keeps _ _ (try_record-Keeps (vaid_id v) args.parent_vaid) λ u i. Kept-refl i

  pub issue_vaid_with_lineage-Keeps :
      (args : IssueArgs) (fresh : Fresh) → Keeps (issue_vaid_with_lineage p b args fresh)
  unfolding issue_vaid_with_lineage
  issue_vaid_with_lineage-Keeps args fresh =
      >>=-Keeps _ _ (λ i. Kept-refl i) λ key. build_and_sign_vaid-Keeps args key fresh

  unfoldable pub perform : Operation S → ReferenceIssuer S → List Vaid × ReferenceIssuer S
  perform (issue_with_key args key fresh) i = issued (issue_vaid_with_key p b args key fresh i)
  perform (issue_with_lineage args fresh) i = issued (issue_vaid_with_lineage p b args fresh i)
  perform (revoke_id id) i = ([], revoke_issued id i)
  perform clear i = ([], clear_lineage i)
  perform (use_backend s) i = ([], with_revocation_backend s i)
  perform assume_none_revoked i = ([], assuming_nothing_revoked i)

  -- The documents that a run returns, in order, and the issuer after it.
  unfoldable pub run : List (Operation S) → ReferenceIssuer S → List Vaid × ReferenceIssuer S
  unfolding perform
  run [] i = ([], i)
  run (op ∷ ops) i = let (docs, j) = perform op i in let (more, k) = run ops j in (docs ++ more, k)
