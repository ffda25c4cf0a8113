-- ===== src/Issuer/Expiry.antt =====
-- The ceiling that a delegated document's expiry is kept under.
use vaid.Prelude.{ℕ, ◌≤◌, ◌≡◌, refl, ap, ◌∙◌, true, some, Bytes, Text, arith}
use vaid.Platform.{Platform, PlatformLaws, Instant, trunc_second, IsFourDigitYear}
use vaid.Document.{Vaid, parse_rfc3339, format_e6, with_lineage}
use vaid.Attenuation.{expiry_attenuates_within}
use vaid.Attenuation.Order.{expiry_attenuates_iff}
use vaid.Errors.{done}
use vaid.Issuer.{sign_document, build_and_sign_vaid}
use vaid.Issuer.State.{
  RevocationBackend, ReferenceIssuer, IssueArgs, Fresh, add_hours, min_instant, bound_expiry,
}
use vaid.Issuer.Issuing.{build_and_sign_vaid-IsIssued}

trunc_le : (t : Instant) → trunc_second t ≤ t
trunc_le t = omega arith

min_le : (a c : Instant) → min_instant a c ≤ c
min_le a c = ground arith

min_four_digits :
    (a c : Instant) → IsFourDigitYear a → IsFourDigitYear c → IsFourDigitYear (min_instant a c)
min_four_digits a c ha hc = ground arith

module _ (p : Platform) where
  bound_of_ceiling :
      (ceiling : Text) (cap latest expires : Instant)
      → parse_rfc3339 p ceiling ≡ some cap
      → bound_expiry p (some ceiling) latest ≡ done expires
      → min_instant latest cap ≡ expires
  unfolding bound_expiry
  bound_of_ceiling ceiling cap latest expires read h = cc (rw read at h)

  module _ {S : Type 0} (b : RevocationBackend S) where
    presented_expiry :
        (args : IssueArgs) (key : Bytes) (agent : ℕ) (now expires : Instant) (i : ReferenceIssuer S)
        → (sign_document p b args key agent now expires i).expires_at_presented
          ≡ format_e6 p expires
    unfolding sign_document with_lineage
    presented_expiry args key agent now expires i = refl

    -- A document that is returned under a readable ceiling attenuates it: its own expiry is
    -- readable and not after the ceiling. The platform's laws hold, and the lifetime and the
    -- ceiling end in years of four digits.
    pub build_and_sign_vaid-expiry_attenuates :
        PlatformLaws p
        → (args : IssueArgs) (key : Bytes) (fresh : Fresh) (i i' : ReferenceIssuer S) (v : Vaid)
        → (ceiling : Text) (cap latest : Instant) → args.not_after ≡ some ceiling
        → parse_rfc3339 p ceiling ≡ some cap
        → add_hours (trunc_second fresh.now) i.vaid_ttl_hours ≡ some latest
        → IsFourDigitYear cap
        → IsFourDigitYear latest
        → build_and_sign_vaid p b args key fresh i ≡ (done v, i')
        → expiry_attenuates_within p ceiling (some v.expires_at_presented) ≡ true
    build_and_sign_vaid-expiry_attenuates laws args key fresh i i' v ceiling cap latest under read
          ranged cap_year year h =
        let issued = build_and_sign_vaid-IsIssued p b args key fresh i i' v h in
        let same : issued.latest ≡ latest = cc (issued.in_range, ranged) in
        let bounded =
          bound_of_ceiling ceiling cap latest issued.expires read
            (rw (← under, ← same) issued.bounded) in
        let digits : IsFourDigitYear issued.expires =
          rw (← bounded) (min_four_digits latest cap year cap_year) in
        let within : issued.expires ≤ cap = rw (← bounded) (min_le latest cap) in
        let stated : v.expires_at_presented ≡ format_e6 p issued.expires =
          ap (λ w. w.expires_at_presented) issued.signed
          ∙ presented_expiry args key fresh.agent_id (trunc_second fresh.now) issued.expires i in
        (expiry_attenuates_iff p ceiling v.expires_at_presented).1 (
          cap,
          trunc_second issued.expires,
          read,
          rw stated (laws.parse_format issued.expires digits),
          ground (arith, trunc_le issued.expires),
        )
