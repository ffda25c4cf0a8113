-- ===== src/Examples/Runs.antt =====
-- An issuer that issues, revokes and forgets, and a mint that serves a good request.
use vaid.Prelude.{◌≡◌, refl, ◌+◌, ◌*◌, true, false, some, List, [], ◌∷◌, All, inl, arith}
use vaid.Platform.{hour, trunc_second, IsFourDigitYear}
use vaid.TrustDomain.{split, label_ok, labels_ok, is_valid_trust_domain}
use vaid.Scope.{
  prefix_contains, entry_contains, entry_claimed_resource, entry_is_evaluable,
  boundary_is_evaluable, scan, scope_contains,
}
use vaid.Document.{vaid_id, parse_rfc3339, caps_contain, with_lineage, is_expired_at}
use vaid.Attenuation.{
  scope_attenuation_reason, scope_attenuates_within, caps_attenuate_within, tenant_attenuates,
}
use vaid.Revocation.{parent, assemble_lineage, climb, resolve_parent}
use vaid.Verify.Graded.{IsAuthentic}
use vaid.Pop.{canonical_request_signing_bytes, sign_payload, verify_signed_payload}
use vaid.Errors.{done}
use vaid.Errors.Calls.{◌>>=◌}
use vaid.Issuer.{kernel_public_key, sign_document, verify_vaid, issuer_resolver}
use vaid.Issuer.State.{revoke_issued, add_hours}
use vaid.Issuer.Running.{Operation, issue_with_key, issue_with_lineage, revoke_id, clear, run}
use vaid.Issuer.Histories.{run-IsAuthentic}
use vaid.Issuer.Revoked.{verify_vaid-run_revoked}
use vaid.MintTypes.{MintVaidResponse, payload_value}
use vaid.Mint.{mint_child, check_child, verify_pop_at_mint}
use vaid.Mint.State.{MintState}
use vaid.Mint.Reference.{MintWorld, reference_ports}
use vaid.Mint.Serving.{mint_child-serves}
use vaid.Mint.Possession.{Possesses, verify_pop_at_mint_iff}
use vaid.Mint.Delegation.{MayDelegate, check_child_iff}
use vaid.Examples.{toy, toy_laws, write}
use vaid.Examples.Documents.{no_backend, home, today, root_args, child_args, root_doc}
use vaid.Examples.Requests.{fresh, issuer, start, child_key, seed, proof, request}

home_is_valid : is_valid_trust_domain home.trust_domain ≡ true
unfolding is_valid_trust_domain labels_ok label_ok split
home_is_valid = refl

abbrev work : List (Operation (Unit {0}))
work =
    issue_with_key root_args child_key fresh
    ∷ revoke_id 7
    ∷ issue_with_lineage child_args fresh
    ∷ clear
    ∷ []

run-IsAuthentic_example :
    All
      (λ v. IsAuthentic toy (kernel_public_key toy no_backend (run toy no_backend work issuer).1) v)
      (run toy no_backend work issuer).0
run-IsAuthentic_example = run-IsAuthentic toy no_backend toy_laws work issuer home_is_valid

verify_vaid-run_revoked_example :
    verify_vaid toy no_backend (run toy no_backend work (revoke_issued 1 issuer)).1 root_doc today
    ≡ false
unfolding sign_document with_lineage
verify_vaid-run_revoked_example =
    verify_vaid-run_revoked toy no_backend 1 work issuer root_doc today refl
      (tt, (tt, (tt, (tt, tt)))) (inl refl)

in_range : add_hours (trunc_second today) issuer.vaid_ttl_hours ≡ some (today + 24 * hour)
unfolding add_hours
in_range = refl

read_ceiling : parse_rfc3339 toy root_doc.expires_at_presented ≡ some (today + 24 * hour)
unfolding sign_document with_lineage
read_ceiling = refl

year_zero : IsFourDigitYear (today + 24 * hour)
year_zero = (omega arith, omega arith)

may_delegate : MayDelegate toy (reference_ports toy no_backend fresh) 1 seed root_doc today start
unfolding check_child reference_ports issuer_resolver sign_document with_lineage assemble_lineage
    climb resolve_parent is_expired_at tenant_attenuates scope_attenuates_within
    scope_attenuation_reason boundary_is_evaluable entry_is_evaluable entry_claimed_resource
    scope_contains scan entry_contains prefix_contains caps_attenuate_within caps_contain ◌>>=◌
may_delegate =
    (check_child_iff toy (reference_ports toy no_backend fresh) 1 seed root_doc today start).0 refl

abbrev proved : MintState (MintWorld (Unit {0}))
proved = (verify_pop_at_mint toy seed child_key (some proof) today start).1

possessed : Possesses toy seed child_key (some proof) today start proved
unfolding verify_pop_at_mint ◌>>=◌ verify_signed_payload canonical_request_signing_bytes
    sign_payload payload_value write
possessed = (verify_pop_at_mint_iff toy seed child_key (some proof) today start proved).0 refl

mint_child-serves_example :
    (r : MintVaidResponse) × (s' : MintState (MintWorld (Unit {0}))) × (mint_child toy
        (reference_ports toy no_backend fresh)
        1
        request
        (some root_doc)
        today
        today
        start
      ≡ (done r, s'))
    × (issuer_resolver toy no_backend s'.world.issuer (vaid_id r.vaid) ≡ parent (vaid_id root_doc))
mint_child-serves_example =
    mint_child-serves toy no_backend toy_laws fresh 1 request root_doc child_key today today
      (today + 24 * hour) (today + 24 * hour) start proved refl in_range read_ceiling year_zero
      year_zero refl may_delegate possessed
