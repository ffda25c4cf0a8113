-- ===== src/Issuer/Attesting.antt =====
-- The consent attestations that an issuer signs.
use vaid.Prelude.{◌≡◌, refl, true, List, Bytes, Text, text_eq_iff}
use vaid.Platform.{Platform, PlatformLaws, VaidId, Instant}
use vaid.TrustDomain.{is_valid_trust_domain}
use vaid.Scope.{ScopeBoundaryEntry}
use vaid.Attestation.{
  ConsentAttestation, with_signature, attestation_members, canonical_attestation_signing_bytes,
  verify_attestation_authenticity,
}
use vaid.Issuer.{kernel_public_key, attest_delegation}
use vaid.Issuer.State.{RevocationBackend, ReferenceIssuer}

canonical_attestation_signing_bytes-with_signature :
    (p : Platform) (a : ConsentAttestation) (s : Bytes)
    → canonical_attestation_signing_bytes p (with_signature a s)
      ≡ canonical_attestation_signing_bytes p a
unfolding canonical_attestation_signing_bytes attestation_members
canonical_attestation_signing_bytes-with_signature p a s = refl

module _ (p : Platform) {S : Type 0} (b : RevocationBackend S) where
  -- An attestation that an issuer makes verifies under the issuer's key, if the platform's laws
  -- hold and the issuer's trust domain is well formed, as its constructors make sure.
  pub attest_delegation-authentic :
      PlatformLaws p
      → (upper child : VaidId) (child_domain child_tenant : Text) (expires : Instant)
      → (scope : List ScopeBoundaryEntry) (caps : List Text) (now : Instant) (i : ReferenceIssuer S)
      → is_valid_trust_domain i.trust_domain ≡ true
      → verify_attestation_authenticity p
          (kernel_public_key p b i)
          (attest_delegation p b upper child child_domain child_tenant expires scope caps now i)
        ≡ true
  unfolding verify_attestation_authenticity attest_delegation
  attest_delegation-authentic laws upper child child_domain child_tenant expires scope caps now i
        domain =
      rw (domain, (text_eq_iff _ _).1 refl, canonical_attestation_signing_bytes-with_signature p)
        (laws.sign_verifies i.kernel_key_pair _)
