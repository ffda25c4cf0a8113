-- ===== src/Issuer/Starting.antt =====
-- What an issuer is like when it has just been constructed.
use vaid.Prelude.{◌≡◌, refl, true, false, Option, none, some, Bytes, Text, Bool-cases, inl, inr}
use vaid.Platform.{Platform, Instant, KeyPair}
use vaid.TrustDomain.{is_valid_trust_domain}
use vaid.Document.{Vaid}
use vaid.Revocation.{
  unavailable, LineageAssembly, complete, incomplete, assemble_lineage, check_lineage,
}
use vaid.Errors.{done}
use vaid.Issuer.{status_of_assembly, issuer_resolver, revocation_status, verify_vaid}
use vaid.Issuer.State.{
  ℤ, RevocationBackend, ReferenceIssuer, with_key, checked, keyed, checked_trust_domain, from_pkcs8,
  from_seed,
}
use vaid.Issuer.Verifying.{refused_of_status}

module _ (p : Platform) {S : Type 0} where
  keyed-done :
      (s : S) (key : Option KeyPair) (ttl : ℤ) (d : Text) (i : ReferenceIssuer S)
      → keyed p s key ttl d ≡ done i
      → (pair : KeyPair) × (i ≡ with_key p s pair ttl d)
  keyed-done s none ttl d i h = cc
  keyed-done s (some pair) ttl d i h = (pair, cc)

  checked-done :
      (s : S) (key : Option KeyPair) (ttl : ℤ) (d : Text) (i : ReferenceIssuer S)
      → checked p s key ttl (checked_trust_domain p d) ≡ done i
      → (is_valid_trust_domain d ≡ true) × (pair : KeyPair) × (i ≡ with_key p s pair ttl d)
  unfolding checked_trust_domain
  checked-done s key ttl d i h = elim (Bool-cases (is_valid_trust_domain d)) [
    | inl ok_domain ↦
        let (pair, e) = keyed-done s key ttl d i (rw ok_domain at h) in (ok_domain, pair, e)
    | inr malformed ↦ cc (rw malformed at h)
  ]

  new_status :
      (b : RevocationBackend S) (s : S) (pair : KeyPair) (ttl : ℤ) (d : Text) (a : LineageAssembly)
      → status_of_assembly p b (with_key p s pair ttl d) a ≡ unavailable
  unfolding check_lineage
  new_status b s pair ttl d incomplete = refl
  new_status b s pair ttl d (complete ids) = refl

  new_refuses :
      (b : RevocationBackend S) (s : S) (pair : KeyPair) (ttl : ℤ) (d : Text) (v : Vaid)
      (now : Instant)
      → verify_vaid p b (with_key p s pair ttl d) v now ≡ false
  unfolding revocation_status
  new_refuses b s pair ttl d v now = refused_of_status p b (with_key p s pair ttl d) v now λ h. cc (
      new_status b s pair ttl d
        (assemble_lineage v (issuer_resolver p b (with_key p s pair ttl d))))

  -- An issuer that a seed starts has a well-formed trust domain, and as it stands, without a
  -- store that vouches for anything, it accepts no document at all.
  pub from_seed-fail_closed :
      (b : RevocationBackend S) (s : S) (seed : Bytes) (ttl : ℤ) (d : Text) (i : ReferenceIssuer S)
      → from_seed p s seed ttl d ≡ done i
      → (is_valid_trust_domain i.trust_domain ≡ true)
        × ((v : Vaid) (now : Instant) → verify_vaid p b i v now ≡ false)
  unfolding from_seed
  from_seed-fail_closed b s seed ttl d i h =
      let (domain, pair, e) = checked-done s (p.key_of_seed seed) ttl d i h in
      rw e (domain, new_refuses b s pair ttl d)

  -- The same of an issuer that a PKCS#8 key starts.
  pub from_pkcs8-fail_closed :
      (b : RevocationBackend S) (s : S) (pkcs8 : Bytes) (ttl : ℤ) (d : Text) (i : ReferenceIssuer S)
      → from_pkcs8 p s pkcs8 ttl d ≡ done i
      → (is_valid_trust_domain i.trust_domain ≡ true)
        × ((v : Vaid) (now : Instant) → verify_vaid p b i v now ≡ false)
  unfolding from_pkcs8
  from_pkcs8-fail_closed b s pkcs8 ttl d i h =
      let (domain, pair, e) = checked-done s (p.key_of_pkcs8 pkcs8) ttl d i h in
      rw e (domain, new_refuses b s pair ttl d)
