-- ===== src/Examples/Issuing.antt =====
-- What the issuer issues and verifies.
use vaid.Prelude.{◌≡◌, refl, ◌+◌, ◌*◌, arith, true, false, some, [], ◌∷◌, text}
use vaid.Platform.{Instant, hour, IsFourDigitYear, trunc_second}
use vaid.TrustDomain.{split, label_ok, labels_ok, is_valid_trust_domain}
use vaid.Document.{Vaid, parse_rfc3339, with_lineage}
use vaid.Attenuation.{expiry_attenuates_within}
use vaid.Revocation.{complete, assemble_lineage, climb}
use vaid.Verify.Graded.{IsAuthentic}
use vaid.Errors.{Outcome, done}
use vaid.Errors.Calls.{◌>>=◌}
use vaid.Issuer.Starting.{from_seed-fail_closed}
use vaid.Issuer.Attesting.{attest_delegation-authentic}
use vaid.Attestation.{verify_attestation_authenticity}
use vaid.Issuer.{
  attest_delegation, kernel_public_key, issuer_resolver, try_record, sign_document,
  build_and_sign_vaid, verify_vaid,
}
use vaid.Issuer.State.{pos, with_key, from_seed, ReferenceIssuer, add_hours, bound_expiry}
use vaid.Issuer.Issuing.{build_and_sign_vaid-IsAuthentic}
use vaid.Issuer.Expiry.{build_and_sign_vaid-expiry_attenuates}
use vaid.Examples.{toy, toy_laws}
use vaid.Examples.Documents.{key, no_backend, home, today, root_args, root_doc}
use vaid.Examples.Requests.{fresh, issuer, child_key, ceiled_args}

abbrev document_of : Outcome Vaid → Vaid
document_of (done v) = v
document_of _ = root_doc

abbrev made : Outcome Vaid × ReferenceIssuer (Unit {0})
made = build_and_sign_vaid toy no_backend ceiled_args child_key fresh issuer

made_done : made ≡ (done (document_of made.0), made.1)
unfolding build_and_sign_vaid ◌>>=◌ add_hours bound_expiry try_record sign_document with_lineage
made_done = refl

home_valid : is_valid_trust_domain home.trust_domain ≡ true
unfolding is_valid_trust_domain labels_ok label_ok split
home_valid = refl

build_and_sign_vaid-IsAuthentic_example :
    IsAuthentic toy (kernel_public_key toy no_backend issuer) (document_of made.0)
build_and_sign_vaid-IsAuthentic_example =
    build_and_sign_vaid-IsAuthentic toy no_backend toy_laws ceiled_args child_key fresh issuer
      made.1 (document_of made.0) home_valid made_done

read_ceiling : parse_rfc3339 toy root_doc.expires_at_presented ≡ some (today + 24 * hour)
unfolding sign_document with_lineage
read_ceiling = refl

in_range : add_hours (trunc_second today) issuer.vaid_ttl_hours ≡ some (today + 24 * hour)
unfolding add_hours
in_range = refl

year_zero : IsFourDigitYear (today + 24 * hour)
year_zero = (omega arith, omega arith)

build_and_sign_vaid-expiry_attenuates_example :
    expiry_attenuates_within toy root_doc.expires_at_presented
      (some (document_of made.0).expires_at_presented)
    ≡ true
build_and_sign_vaid-expiry_attenuates_example =
    build_and_sign_vaid-expiry_attenuates toy no_backend toy_laws ceiled_args child_key fresh issuer
      made.1 (document_of made.0) root_doc.expires_at_presented (today + 24 * hour)
      (today + 24 * hour) refl read_ceiling in_range year_zero year_zero made_done

root_known : assemble_lineage root_doc (issuer_resolver toy no_backend issuer) ≡ complete (1 ∷ [])
unfolding sign_document with_lineage assemble_lineage climb
root_known = refl

seeded :
    from_seed toy tt key (pos 24) (text "a.io") ≡ done (with_key toy tt key (pos 24) (text "a.io"))
unfolding from_seed is_valid_trust_domain labels_ok label_ok split
seeded = refl

from_seed-fail_closed_example :
    (is_valid_trust_domain (text "a.io") ≡ true)
    × ((v : Vaid) (now : Instant)
        → verify_vaid toy no_backend (with_key toy tt key (pos 24) (text "a.io")) v now ≡ false)
from_seed-fail_closed_example =
    from_seed-fail_closed toy no_backend tt key (pos 24) (text "a.io")
      (with_key toy tt key (pos 24) (text "a.io")) seeded

attest_delegation-authentic_example :
    verify_attestation_authenticity toy (kernel_public_key toy no_backend issuer) (
      attest_delegation toy no_backend 1 2
        (text "b.io")
        (text "beta")
        (today + hour)
        root_args.scope_boundary
        root_args.capability_set
        today
        issuer)
    ≡ true
attest_delegation-authentic_example =
    attest_delegation-authentic toy no_backend toy_laws 1 2 (text "b.io") (text "beta")
      (today + hour) root_args.scope_boundary root_args.capability_set today issuer home_valid
