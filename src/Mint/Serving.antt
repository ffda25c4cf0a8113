-- ===== src/Mint/Serving.antt =====
-- That a mint over the reference issuer ends with a child: `mint_child` of crates/vaid-mint/src/mint.rs
-- and the ports of issuer.rs and audit.rs.
use vaid.Prelude.{◌≡◌, refl, ap, ==_refl, ℕ, some, Bytes, text, text_eq}
use vaid.Platform.{Platform, PlatformLaws, Instant, trunc_second, IsFourDigitYear}
use vaid.Document.{Vaid, vaid_id, parse_rfc3339}
use vaid.Revocation.{parent}
use vaid.Errors.{done}
use vaid.Errors.Calls.{Call}
use vaid.Issuer.{issuer_resolver, build_and_sign_vaid, issue_vaid_with_key}
use vaid.Issuer.State.{
  RevocationBackend, own, ReferenceIssuer, Fresh, add_hours, min_instant, bound_expiry,
}
use vaid.Issuer.Expiry.{build_and_sign_vaid-expiry_attenuates}
use vaid.Issuer.Returning.{signed_at, having_recorded, build_and_sign_vaid-returns}
use vaid.Issuer.Verifying.{issuer_resolver-build_and_sign_vaid}
use vaid.MintTypes.{MintVaidRequest, MintVaidResponse}
use vaid.Mint.{child_details, mint_child}
use vaid.Mint.State.{MintState, args_of_seed}
use vaid.Mint.Possession.{Possesses}
use vaid.Mint.Delegation.{MayDelegate}
use vaid.Mint.Returning.{mint_child_iff}
use vaid.Mint.Reference.{MintWorld, reference_ports, push_entry, in_issuer}

module _ (p : Platform) {S : Type 0} (b : RevocationBackend S) where
  ceiling_bounds :
      (upper : Vaid) (cap latest : Instant)
      → parse_rfc3339 p upper.expires_at_presented ≡ some cap
      → bound_expiry p (some upper.expires_at_presented) latest ≡ done (min_instant latest cap)
  unfolding bound_expiry
  ceiling_bounds upper cap latest h = rw h refl

  in_issuer-returns :
      {A : Type 0} (m : Call (ReferenceIssuer S) A) (w : MintWorld S) (i : ReferenceIssuer S)
      (a : A)
      → m w.issuer ≡ (done a, i)
      → in_issuer m w ≡ (done a, record w { issuer = i })
  in_issuer-returns m w i a h = rw h refl

  -- A mint over a reference issuer that records in its own store answers every good request: where
  -- the parent passes the checks, the seed's key is proved, the parent's expiry is readable and the
  -- issuer's lifetime is in range, both in years of four digits, and the platform's laws hold,
  -- `mint_child` returns a response, and the issuer resolves the document to the parent.
  pub mint_child-serves :
      PlatformLaws p
      → (fresh : Fresh) (max_depth : ℕ) (request : MintVaidRequest) (upper : Vaid) (key : Bytes)
      → (checked_at pop_at cap latest : Instant) (s t : MintState (MintWorld S))
      → s.world.issuer.lineage_source ≡ own
      → add_hours (trunc_second fresh.now) s.world.issuer.vaid_ttl_hours ≡ some latest
      → parse_rfc3339 p upper.expires_at_presented ≡ some cap
      → IsFourDigitYear cap
      → IsFourDigitYear latest
      → request.seed.public_key_der ≡ some key
      → MayDelegate p (reference_ports p b fresh) max_depth request.seed upper checked_at s
      → Possesses p request.seed key request.pop pop_at s t
      → (r : MintVaidResponse) × (s' : MintState (MintWorld S)) × (mint_child p
            (reference_ports p b fresh)
            max_depth
            request
            (some upper)
            checked_at
            pop_at
            s
          ≡ (done r, s'))
        × (issuer_resolver p b s'.world.issuer (vaid_id r.vaid) ≡ parent (vaid_id upper))
  unfolding reference_ports issue_vaid_with_key
  mint_child-serves laws fresh max_depth request upper key checked_at pop_at cap latest s t source
        ranged read cap_year year registered may possessed =
      let args = args_of_seed request.seed (some upper.expires_at_presented) in
      let i = s.world.issuer in
      let expires = min_instant latest cap in
      let v = signed_at p b args key fresh expires i in
      let call =
        build_and_sign_vaid-returns p b args key fresh i latest expires source ranged
          (ceiling_bounds upper cap latest read) in
      let bounded = text_eq v.expires_at_presented upper.expires_at_presented in
      let details = child_details p request.seed upper v bounded in
      let issuer = having_recorded p b args v i in
      let middle : MintState (MintWorld S) = record t {
        world = record s.world { issuer = issuer };
      } in
      let final : MintState (MintWorld S) = record t {
        world = record {
          issuer = issuer;
          entries = push_entry (text "vaid_minted") details s.world.entries;
        };
      } in
      let r : MintVaidResponse = record {
        vaid = v;
        expiry_bounded_by_parent = bounded;
        parent_expires_at = some upper.expires_at_presented;
      } in
      (
        r,
        final,
        (mint_child_iff p (reference_ports p b fresh) max_depth request (some upper) checked_at
              pop_at s final r).1
            (
              upper,
              refl,
              record {
                may = may;
                before_audit = middle;
                child = record {
                  key = key;
                  registered = registered;
                  between = t;
                  possessed = possessed;
                  issued = rw (ap (λ q. q.world) possessed.after) (
                      in_issuer-returns (build_and_sign_vaid p b args key fresh) s.world issuer v
                        call);
                  nonces = refl;
                  contained =
                      build_and_sign_vaid-expiry_attenuates p b laws args key fresh i issuer v
                        upper.expires_at_presented cap latest refl read ranged cap_year year call;
                };
                recorded = refl;
                nonces = refl;
                bounded = refl;
                ceiling = refl;
              },
            ),
        rw
            (
              issuer_resolver-build_and_sign_vaid p b args key fresh i issuer v (vaid_id v) source
                  call,
              ==_refl (vaid_id v),
              may.names,
            )
            refl,
      )
