-- ===== src/Verify/FromJson.antt =====
-- The verdict on a document's text.
use vaid.Prelude.{
  ◌≡◌, refl, ◌↔◌, false, Option, none, some, Bytes, Text, Bool-cases, inl, inr, arith,
}
use vaid.Platform.{Platform, Instant}
use vaid.Document.{Vaid}
use vaid.Document.Duplicates.{has_duplicate_member_names}
use vaid.Revocation.{RevocationStatus}
use vaid.Verify.{valid, verify_vaid_standing_from_json}
use vaid.Verify.Standing.{HasStanding, verify_vaid_standing_iff}

module _ (p : Platform) (parse : Text → Option Vaid) (key : Bytes) (json : Text) where
  from_json_of_parts :
      (status : RevocationStatus) (now : Instant) (o : Option Vaid)
      → parse json ≡ o
      → verify_vaid_standing_from_json p parse key json status now ≡ valid
      → (has_duplicate_member_names json ≡ false)
        × (v : Vaid) × (o ≡ some v)
        × HasStanding p key v status now
  unfolding verify_vaid_standing_from_json
  from_json_of_parts status now none e h = absurd (ground arith)
  from_json_of_parts status now (some v) e h = elim (Bool-cases (has_duplicate_member_names json)) [
    | inl twice ↦ absurd (ground arith)
    | inr once ↦
        (once, v, refl, (verify_vaid_standing_iff p key v status now).0 (rw (once, e) at h))
  ]

  -- A text gets the verdict `valid` exactly if no object in it repeats a member name, as far as the
  -- scanner reads it, it parses, and the document that it parses to is in good standing.
  pub verify_vaid_standing_from_json_iff :
      (status : RevocationStatus) (now : Instant)
      → (verify_vaid_standing_from_json p parse key json status now ≡ valid) ↔ (
          (has_duplicate_member_names json ≡ false)
          × (v : Vaid) × (parse json ≡ some v)
          × HasStanding p key v status now)
  unfolding verify_vaid_standing_from_json
  verify_vaid_standing_from_json_iff status now = (
    from_json_of_parts status now (parse json) refl,
    λ h.
        let (once, v, parsed, standing) = h in
        rw (once, parsed) ((verify_vaid_standing_iff p key v status now).1 standing),
  )
