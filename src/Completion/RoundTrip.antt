-- ===== src/Completion/RoundTrip.antt =====
-- Reading back a completion record that was written.
use vaid.Prelude.{◌≡◌, refl, Option, some, Text}
use vaid.Platform.{Platform, VaidId, Instant}
use vaid.Completion.{
  AssuranceTier, self_reported, counter_signed, third_party_attested, tier_text, tier_of_text,
  CompletionRecord, completion_value, read_completion_members, read_completion,
}

tier_of_text-tier_text : (t : AssuranceTier) → tier_of_text (tier_text t) ≡ some t
unfolding tier_of_text tier_text
tier_of_text-tier_text self_reported = refl
tier_of_text-tier_text counter_signed = refl
tier_of_text-tier_text third_party_attested = refl

-- A completion record that is written and read back is the same record, its declared tier
-- included, if the platform reads back the UUIDs and the instant that it writes.
pub read_completion-completion_value :
    (p : Platform) (read_datetime : Text → Option Instant)
    → ((id : VaidId) → p.uuid_parse_str (p.uuid_to_string id) ≡ some id)
    → ((t : Instant) → read_datetime (p.datetime_to_json t) ≡ some t)
    → (r : CompletionRecord) → read_completion p read_datetime (completion_value p r) ≡ some r
unfolding read_completion read_completion_members completion_value
read_completion-completion_value p read_datetime ids times r =
    rw
      (
        ids r.vaid_id,
        ids r.signer_vaid_id,
        times r.completed_at,
        tier_of_text-tier_text r.assurance_tier,
      )
      refl
