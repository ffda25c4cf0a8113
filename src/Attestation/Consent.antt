-- ===== src/Attestation/Consent.antt =====
-- What a bundle answers, and when an attestation is current.
use vaid.Prelude.{
  ◌+◌, ◌*◌, ◌≤◌, ◌<◌, ◌≡◌, refl, ◌↔◌, true, Option, none, some, List, [], ◌∷◌, if◌then◌else◌,
  lookup, insert, lookup-insert, arith,
}
use vaid.Platform.{VaidId, Instant, second}
use vaid.Attestation.{
  ConsentAttestation, hop, hop_beq, hop_eq, AttestationBundle, collect_attestations,
  new_attestation_bundle, get_attestation, is_current,
}

-- The last attestation of a list that is for a hop, or else `found`.
pub last_for :
    VaidId × VaidId
    → Option ConsentAttestation
    → List ConsentAttestation
    → Option ConsentAttestation
last_for wanted found [] = found
last_for wanted found (a ∷ rest) =
    last_for wanted (if hop_beq (hop a) wanted then some a else found) rest

collected :
    (wanted : VaidId × VaidId) (bundle : AttestationBundle) (attestations : List ConsentAttestation)
    → lookup wanted (collect_attestations bundle attestations)
      ≡ last_for wanted (lookup wanted bundle) attestations
unfolding collect_attestations last_for hop_eq
collected wanted bundle [] = refl
collected wanted bundle (a ∷ rest) =
    rw (collected wanted (insert (hop a) a bundle) rest, lookup-insert (hop a) wanted a bundle) refl

-- The bundle answers for a hop with the last attestation for it that was presented, and with none
-- if none was.
pub get_attestation-new_attestation_bundle :
    (attestations : List ConsentAttestation) (upper child : VaidId)
    → get_attestation (new_attestation_bundle attestations) upper child
      ≡ last_for (upper, child) none attestations
unfolding get_attestation new_attestation_bundle
get_attestation-new_attestation_bundle attestations upper child =
    collected (upper, child) [] attestations

-- For an attestation that was issued 300 seconds or more after the earliest instant, the window
-- test answers `true` exactly if the window is not empty, has not closed, and opens no later than
-- 300 seconds from now.
pub is_current_iff :
    (a : ConsentAttestation) (now : Instant)
    → 300 * second ≤ a.issued_at
    → (is_current a now ≡ some true)
      ↔ ((a.issued_at < a.expires_at) × (now ≤ a.expires_at) × (a.issued_at ≤ now + 300 * second))
unfolding is_current
is_current_iff a now h = ground arith
