-- ===== src/Issuer/Issuing.antt =====
-- What the reference issuer puts into a document, and when it returns one.
use mathlib.Core.Path.{subst}
use mathlib.Core.Option
use vaid.Prelude.{◌≡◌, refl, sym, ap, true, Option, none, some, Bytes}
use vaid.Platform.{Platform, PlatformLaws, VaidId, AgentId, Instant, trunc_second}
use vaid.TrustDomain.{is_valid_trust_domain}
use vaid.Document.{Vaid, vaid_id, parent_of_member, presented, with_lineage, compute_lineage_hash}
use vaid.Document.Signing.{canonical_vaid_signing_bytes-with_kernel_signature}
use vaid.Verify.Graded.{IsAuthentic}
use vaid.Errors.{done}
use vaid.Errors.Calls.{returned, >>=-Returned, done_pair, lift_pair}
use vaid.Issuer.{kernel_public_key, try_record, sign_document, build_and_sign_vaid}
use vaid.Issuer.State.{
  RevocationBackend, ReferenceIssuer, IssueArgs, Fresh, add_hours, or_panic, bound_expiry,
}

-- The parent that a document states is the one that it was built with.
pub presented_parent :
    (q : Platform) (o : Option VaidId)
    → o ≡ parent_of_member (some (Option.map (λ u. presented q u) o))
presented_parent q none = refl
presented_parent q (some id) = refl

in_range_of : (o : Option Instant) (t : Instant) → or_panic o ≡ done t → o ≡ some t
in_range_of none t h = cc
in_range_of (some u) t h = cc

module _ (p : Platform) {S : Type 0} (b : RevocationBackend S) where
  -- A returned document is the signed one, for an expiry that was bounded, and it was recorded.
  pub record IsIssued (args : IssueArgs) (key : Bytes) (fresh : Fresh) (i i' : ReferenceIssuer S)
      (v : Vaid) : Type 0 where
    pub latest : Instant
    pub in_range : add_hours (trunc_second fresh.now) i.vaid_ttl_hours ≡ some latest
    pub expires : Instant
    pub bounded : bound_expiry p args.not_after latest ≡ done expires
    pub signed : v ≡ sign_document p b args key fresh.agent_id (trunc_second fresh.now) expires i
    pub recorded : try_record p b (vaid_id v) args.parent_vaid i ≡ (done tt, i')

  pub build_and_sign_vaid-IsIssued :
      (args : IssueArgs) (key : Bytes) (fresh : Fresh) (i i' : ReferenceIssuer S) (v : Vaid)
      → build_and_sign_vaid p b args key fresh i ≡ (done v, i')
      → IsIssued args key fresh i i' v
  unfolding build_and_sign_vaid
  build_and_sign_vaid-IsIssued args key fresh i i' v h = elim (>>=-Returned _ _ i h) [
    | returned latest i1 ranged h1 ↦ elim (>>=-Returned _ _ i1 h1) [
      | returned expires i2 bounded h2 ↦ elim (>>=-Returned _ _ i2 h2) [
        | returned vaid i3 made h3 ↦ elim (>>=-Returned _ _ i3 h3) [
          | returned u i4 stored h4 ↦
              let (ranged', same1) = lift_pair _ latest ranged in
              let (bounded', same2) = lift_pair _ expires bounded in
              let (made', same3) = done_pair _ vaid made in
              let (value, same4) = done_pair vaid v h4 in
              record {
                latest = latest;
                in_range = in_range_of _ latest ranged';
                expires = expires;
                bounded = bounded';
                signed = cc;
                recorded = cc;
              }
        ]
      ]
    ]
  ]

  sign_document-IsAuthentic :
      PlatformLaws p
      → (args : IssueArgs) (key : Bytes) (agent : AgentId) (now expires : Instant)
      → (i : ReferenceIssuer S) → is_valid_trust_domain i.trust_domain ≡ true
      → IsAuthentic p (kernel_public_key p b i) (sign_document p b args key agent now expires i)
  unfolding sign_document with_lineage
  sign_document-IsAuthentic laws args key agent now expires i domain = record {
    version = refl;
    domain = domain;
    issuer = refl;
    lineage = ap (λ o. compute_lineage_hash p o agent) (presented_parent p args.parent_vaid);
    signed =
        rw canonical_vaid_signing_bytes-with_kernel_signature
          (laws.sign_verifies i.kernel_key_pair _);
  }

  -- What `build_and_sign_vaid` returns is authentic under the issuer's key, if the platform's
  -- laws hold and the issuer's trust domain is well formed, as its constructors make sure.
  pub build_and_sign_vaid-IsAuthentic :
      PlatformLaws p
      → (args : IssueArgs) (key : Bytes) (fresh : Fresh) (i i' : ReferenceIssuer S) (v : Vaid)
      → is_valid_trust_domain i.trust_domain ≡ true
      → build_and_sign_vaid p b args key fresh i ≡ (done v, i')
      → IsAuthentic p (kernel_public_key p b i) v
  build_and_sign_vaid-IsAuthentic laws args key fresh i i' v domain h =
      let issued = build_and_sign_vaid-IsIssued args key fresh i i' v h in
      subst (λ w. IsAuthentic p (kernel_public_key p b i) w) (sym issued.signed)
        (sign_document-IsAuthentic laws args key fresh.agent_id (trunc_second fresh.now)
          issued.expires i domain)
