-- ===== src/Client/Signing.antt =====
-- What a server can rebuild from the headers of a signed request.
use mathlib.Core.Path.{subst}
use vaid.Prelude.{◌≡◌, refl, ap, sym, ◌∙◌, true, Option, some, Bytes, Text, Result, ok, arith}
use vaid.Platform.{Platform, PlatformLaws, VaidId, Instant, trunc_second, IsFourDigitYear}
use vaid.Pop.{sign_payload, verify_signed_payload, verify_signed_payload-sign_payload}
use vaid.RequestAuth.{request_value}
use vaid.Client.{PopError, PopHeaders, RequestSigner, request_payload, sign_headers_at}

trunc_twice : (t : Instant) → trunc_second (trunc_second t) ≡ trunc_second t
trunc_twice t = omega arith

trunc_year : (t : Instant) → IsFourDigitYear t → IsFourDigitYear (trunc_second t)
trunc_year t (low, high) = (omega arith, omega arith)

result_value : (a b : PopHeaders) → ◌≡◌ {A = Result PopError PopHeaders} (ok a) (ok b) → a ≡ b
result_value a b h = cc

module _ (p : Platform) (read : Bytes → Option (VaidId × Text)) (to_uppercase : Text → Text) where
  -- If the platform's laws hold and the clock shows a year of four digits, then the timestamp in the
  -- headers of a signed request reads as the clock's instant with the fraction of the second cut
  -- off, the document is the signer's, the nonce is the given one, and the signature verifies, under the signer's public key, for
  -- the payload that a server rebuilds from the request, the identity, that nonce and that instant.
  pub sign_headers_at-verifies :
      PlatformLaws p
      → (signer : RequestSigner) (method path : Text) (body : Bytes) (now : Instant) (nonce : Text)
      → (h : PopHeaders) → IsFourDigitYear now
      → sign_headers_at p read to_uppercase signer method path body now nonce ≡ ok h
      → (signature : Bytes) × (h.vaid ≡ signer.identity.vaid_header)
        × (p.parse_from_rfc3339 h.timestamp ≡ some (trunc_second now))
        × (h.signature ≡ p.base64 signature)
        × (h.nonce ≡ nonce)
        × (verify_signed_payload p
              (request_value p (
                request_payload p read to_uppercase signer.identity method path body
                  (trunc_second now)
                  h.nonce))
              (p.ed25519_public_key signer.key)
              signature
            ≡ true)
  unfolding sign_headers_at
  sign_headers_at-verifies laws signer method path body now nonce h year signed =
      let payload =
        request_payload p read to_uppercase signer.identity method path body now nonce in
      let rebuilt =
        ap (λ u. request_value p (record payload { timestamp = u })) (trunc_twice now) in
      let signature = sign_payload p (request_value p payload) signer.key in
      rw (← result_value _ h signed) (
        signature,
        refl,
        laws.parse_format (trunc_second now) (trunc_year now year)
            ∙ ap (λ u. some u) (trunc_twice now),
        refl,
        refl,
        subst (λ v. verify_signed_payload p v (p.ed25519_public_key signer.key) signature ≡ true)
            (sym rebuilt)
            (verify_signed_payload-sign_payload p laws (request_value p payload) signer.key),
      )
