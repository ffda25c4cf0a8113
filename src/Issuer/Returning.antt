-- ===== src/Issuer/Returning.antt =====
-- That issuing ends with a document: `build_and_sign_vaid` of crates/vaid-mint/src/issuer.rs.
use vaid.Prelude.{◌≡◌, refl, some, Bytes}
use vaid.Platform.{Platform, Instant, trunc_second}
use vaid.Document.{Vaid, vaid_id}
use vaid.Revocation.{record_lineage}
use vaid.Errors.{done}
use vaid.Errors.Calls.{>>=-returned}
use vaid.Issuer.{try_record, sign_document, build_and_sign_vaid}
use vaid.Issuer.State.{
  RevocationBackend, own, ReferenceIssuer, IssueArgs, Fresh, add_hours, bound_expiry,
}

module _ (p : Platform) {S : Type 0} (b : RevocationBackend S) where
  -- The document that is signed, and the issuer after it.
  abbrev pub signed_at : IssueArgs → Bytes → Fresh → Instant → ReferenceIssuer S → Vaid
  signed_at args key fresh expires i =
      sign_document p b args key fresh.agent_id (trunc_second fresh.now) expires i

  abbrev pub having_recorded : IssueArgs → Vaid → ReferenceIssuer S → ReferenceIssuer S
  having_recorded args v i = record i {
    default_lineage = record_lineage (vaid_id v) args.parent_vaid i.default_lineage;
  }

  pub build_and_sign_vaid-returns :
      (args : IssueArgs) (key : Bytes) (fresh : Fresh) (i : ReferenceIssuer S)
      (latest expires : Instant)
      → i.lineage_source ≡ own
      → add_hours (trunc_second fresh.now) i.vaid_ttl_hours ≡ some latest
      → bound_expiry p args.not_after latest ≡ done expires
      → build_and_sign_vaid p b args key fresh i ≡ (
        done (signed_at args key fresh expires i),
        having_recorded args (signed_at args key fresh expires i) i,
      )
  unfolding build_and_sign_vaid try_record
  build_and_sign_vaid-returns args key fresh i latest expires source ranged bounded =
      >>=-returned _ _ i i latest _ (rw ranged refl) (
        >>=-returned _ _ i i expires _ (rw bounded refl) (
          >>=-returned _ _ i i (signed_at args key fresh expires i) _ refl (
            >>=-returned _ _ i (having_recorded args (signed_at args key fresh expires i) i) tt _
              (rw source refl) refl)))
