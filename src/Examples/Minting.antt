-- ===== src/Examples/Minting.antt =====
-- A child that a parent of the same issuer mints.
use vaid.Prelude.{text, ◌≡◌, ◌≢◌, refl, ◌↔◌, true, false, none, some}
use vaid.Platform.{Instant}
use vaid.TrustDomain.{split, label_ok, labels_ok, is_valid_trust_domain}
use vaid.Scope.{
  prefix_contains, entry_contains, entry_claimed_resource, entry_is_evaluable,
  boundary_is_evaluable, scan, scope_contains,
}
use vaid.Document.{Vaid, vaid_id, parent_vaid, caps_contain, with_lineage, is_expired_at}
use vaid.Attenuation.{
  scope_attenuation_reason, scope_attenuates_within, caps_attenuate_within,
  expiry_attenuates_within, tenant_attenuates,
}
use vaid.Revocation.{assemble_lineage, climb, resolve_parent}
use vaid.Verify.Graded.{IsAuthentic}
use vaid.Attestation.{AttestationBundle}
use vaid.Chain.{KernelKeyResolver, check_hop, pass}
use vaid.Pop.{canonical_request_signing_bytes, sign_payload, verify_signed_payload}
use vaid.Errors.{Outcome, done}
use vaid.Errors.Calls.{◌>>=◌}
use vaid.Issuer.{
  kernel_public_key, issuer_resolver, try_record, sign_document, build_and_sign_vaid,
  issue_vaid_with_key,
}
use vaid.Issuer.State.{add_hours, bound_expiry}
use vaid.MintTypes.{
  pop_payload, payload_value, VaidSeed, MintVaidRequest, MintVaidResponse, payload_value,
}
use vaid.Mint.Rooting.{IsRooted, mint_root-IsRooted}
use vaid.Mint.{mint_root, verify_pop_at_mint, check_child, issue_child, mint_child}
use vaid.Mint.State.{MintState}
use vaid.Mint.Possession.{Possesses, consuming, verify_pop_at_mint_iff}
use vaid.Mint.Delegation.{MayDelegate, check_child_iff}
use vaid.Mint.Minting.{IsDelegated}
use vaid.Mint.Returning.{mint_child_iff}
use vaid.Mint.Nonces.{idle, then_child, verify_pop_at_mint-replay}
use vaid.Mint.Reference.{MintWorld, reference_ports}
use vaid.Mint.Delivered.{mint_child-check_hop}
use vaid.Examples.{toy, toy_laws, write}
use vaid.Examples.Documents.{no_backend, home, today, root_doc}
use vaid.Examples.Requests.{fresh, issuer, start, child_key, seed, proof, request}

abbrev ran : Outcome MintVaidResponse × MintState (MintWorld (Unit {0}))
ran =
    mint_child toy (reference_ports toy no_backend fresh) 1 request (some root_doc) today today
      start

abbrev response_of : Outcome MintVaidResponse → MintVaidResponse
response_of (done r) = r
response_of _ = record {
  vaid = root_doc;
  expiry_bounded_by_parent = false;
  parent_expires_at = none;
}

ran_done : ran ≡ (done (response_of ran.0), ran.1)
unfolding mint_child check_child issue_child verify_pop_at_mint reference_ports issue_vaid_with_key
    issuer_resolver build_and_sign_vaid ◌>>=◌ add_hours bound_expiry try_record sign_document
    with_lineage assemble_lineage climb resolve_parent is_expired_at tenant_attenuates
    scope_attenuates_within scope_attenuation_reason boundary_is_evaluable entry_is_evaluable
    entry_claimed_resource scope_contains scan entry_contains prefix_contains caps_attenuate_within
    caps_contain expiry_attenuates_within verify_signed_payload canonical_request_signing_bytes
    sign_payload payload_value write
ran_done = refl

home_is_valid : is_valid_trust_domain home.trust_domain ≡ true
unfolding is_valid_trust_domain labels_ok label_ok split
home_is_valid = refl

mint_child-check_hop_example :
    IsAuthentic toy (kernel_public_key toy no_backend issuer) (response_of ran.0).vaid
    × (parent_vaid (response_of ran.0).vaid ≡ some (vaid_id root_doc))
    × ((keys : KernelKeyResolver) (attestations : AttestationBundle) (now : Instant)
        → check_hop toy keys attestations root_doc (response_of ran.0).vaid now ≡ pass)
unfolding sign_document with_lineage
mint_child-check_hop_example =
    mint_child-check_hop toy no_backend toy_laws fresh 1 request root_doc today today start ran.1
      (response_of ran.0) home_is_valid refl refl ran_done

mint_child_iff_example : (ran ≡ (done (response_of ran.0), ran.1)) ↔ (
    (upper : Vaid) × (some root_doc ≡ some upper)
    × IsDelegated toy
        (reference_ports toy no_backend fresh)
        1
        request
        upper
        today
        today
        start
        ran.1
        (response_of ran.0))
mint_child_iff_example =
    mint_child_iff toy (reference_ports toy no_backend fresh) 1 request (some root_doc) today today
      start ran.1 (response_of ran.0)

check_child_iff_example :
    (check_child toy (reference_ports toy no_backend fresh) 1 seed root_doc today start
      ≡ (done tt, start))
    ↔ MayDelegate toy (reference_ports toy no_backend fresh) 1 seed root_doc today start
check_child_iff_example =
    check_child_iff toy (reference_ports toy no_backend fresh) 1 seed root_doc today start

verify_pop_at_mint_iff_example :
    (verify_pop_at_mint toy seed child_key (some proof) today start
      ≡ (done tt, consuming proof.nonce start))
    ↔ Possesses toy seed child_key (some proof) today start (consuming proof.nonce start)
verify_pop_at_mint_iff_example =
    verify_pop_at_mint_iff toy seed child_key (some proof) today start (consuming proof.nonce start)

abbrev proved : Outcome (Unit {0}) × MintState (MintWorld (Unit {0}))
proved = verify_pop_at_mint toy seed child_key (some proof) today start

proved_done : proved ≡ (done tt, proved.1)
unfolding verify_pop_at_mint ◌>>=◌ verify_signed_payload canonical_request_signing_bytes
    sign_payload payload_value write
proved_done = refl

verify_pop_at_mint-replay_example :
    verify_pop_at_mint toy seed child_key
      (some proof)
      today
      (mint_child toy
        (reference_ports toy no_backend fresh)
        1
        request
        (some root_doc)
        today
        today
        (mint_child toy
          (reference_ports toy no_backend fresh)
          1
          request
          none
          today
          today
          proved.1).1).1
    ≢ (done tt, start)
verify_pop_at_mint-replay_example =
    verify_pop_at_mint-replay (MintWorld (Unit {0})) toy (reference_ports toy no_backend fresh) seed
      seed child_key child_key proof proof today today start proved.1
      (mint_child toy (reference_ports toy no_backend fresh) 1 request (some root_doc) today today
        (mint_child toy (reference_ports toy no_backend fresh) 1 request none today today
          proved.1).1).1
      start proved_done
      (then_child 1 request (some root_doc) today today
        (then_child 1 request none today today idle))
      refl

-- A root for the same key, proved with the same kind of proof.
abbrev root_seed : VaidSeed
root_seed = record seed { parent_vaid = none }

abbrev root_request : MintVaidRequest
root_request = record {
  seed = root_seed;
  pop = some (record {
    nonce = text "n2";
    issued_at = today;
    signature =
        sign_payload toy (payload_value toy (pop_payload root_seed child_key (text "n2") today))
          child_key;
  });
}

abbrev rooted : Outcome MintVaidResponse × MintState (MintWorld (Unit {0}))
rooted = mint_root toy (reference_ports toy no_backend fresh) root_request today start

rooted_done : rooted ≡ (done (response_of rooted.0), rooted.1)
unfolding mint_root verify_pop_at_mint reference_ports issue_vaid_with_key build_and_sign_vaid ◌>>=◌
    add_hours bound_expiry try_record sign_document with_lineage verify_signed_payload
    canonical_request_signing_bytes sign_payload payload_value write
rooted_done = refl

mint_root-IsRooted_example :
    IsRooted toy
      (reference_ports toy no_backend fresh)
      root_request
      today
      start
      rooted.1
      (response_of rooted.0)
mint_root-IsRooted_example =
    mint_root-IsRooted toy (reference_ports toy no_backend fresh) root_request today start rooted.1
      (response_of rooted.0) rooted_done
