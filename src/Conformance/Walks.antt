-- ===== src/Conformance/Walks.antt =====
-- The checks that walk chains: `check_chain` and `check_chain_expiry` of
-- crates/vaid-mint/src/bin/conformance.rs.
use vaid.Prelude.{not, List, [], ◌∷◌, Text, text, text_eq, is_empty, last, any, if◌then◌else◌}
use vaid.Json.{Json, object, Members, end, member, as_str}
use vaid.Platform.{Platform, KeyPair}
use vaid.Document.{Vaid, to_hex, canonical_vaid_signing_bytes, with_kernel_signature}
use vaid.Attenuation.{expiry_attenuates_within}
use vaid.Attestation.{empty_attestations}
use vaid.Chain.{ChainVerification, new_bundle, single_kernel_key, verify_chain_at}
use vaid.Conformance.{
  Checked, Check, passed, ◌>>=◌, ◌>>◌, require, or_block, or_panic, check_each, at_key, text_at,
  same, cases_at, as_array, unhex, assert_hex, doc_from, seed_pair, instant_of, no_chain_array,
  empty_chain, no_instant, wrong_verdict, containment_mismatch, no_cases, no_positive_control,
}

abbrev pub verdict_name : ChainVerification → Text
verdict_name ChainVerification.attenuated = text "attenuated"
verdict_name ChainVerification.inauthentic = text "inauthentic"
verdict_name ChainVerification.unverifiable = text "unverifiable"
verdict_name ChainVerification.not_attenuated = text "not_attenuated"
verdict_name ChainVerification.expired = text "expired"
verdict_name ChainVerification.consent_expired = text "consent_expired"

-- `Map::remove`
abbrev remove_member : Text → Members → Members
remove_member k end = end
remove_member k (member j v rest) =
    let others = remove_member k rest in if text_eq j k then others else member j v others

abbrev pub without_comment : Json → Json
without_comment (object m) = object (remove_member (text "_comment") m)
without_comment j = j

module _ (p : Platform) where
  -- One entry of a chain, re-derived from the kernel key.
  unfoldable pub check_entry : KeyPair → Json → Checked Vaid
  check_entry kp entry = do
    unsigned ← doc_from p (at_key entry (text "document"))
    let digest = canonical_vaid_signing_bytes p unsigned
    assert_hex (to_hex digest) (text_at entry (text "digest_sha256_hex"))
    assert_hex (to_hex (p.ed25519_sign kp digest)) (text_at entry (text "signature_hex"))
    signature ← or_panic (unhex (text_at entry (text "signature_hex")))
    passed (with_kernel_signature unsigned signature)

  unfoldable pub check_entries : KeyPair → List Json → Checked (List Vaid)
  check_entries kp [] = passed []
  check_entries kp (entry ∷ rest) = do
    doc ← check_entry kp entry
    docs ← check_entries kp rest
    passed (doc ∷ docs)

  -- The walk of the documents, against the verdict that is stated.
  unfoldable pub check_walk : KeyPair → List Vaid → Json → Text → Check
  check_walk kp docs at want = do
    leaf ← or_block (last docs) empty_chain
    instant ← or_block (instant_of p at) no_instant
    let keys = single_kernel_key p (p.ed25519_public_key kp)
    verdict ← or_panic (verify_chain_at p keys leaf (new_bundle docs) empty_attestations instant)
    require (text_eq (verdict_name verdict) want) wrong_verdict

  unfoldable pub check_chain : Json → Check
  check_chain v = do
    kp ← seed_pair p (text_at (at_key v (text "ed25519")) (text "kernel_private_key_seed_hex"))
    entries ← or_block (as_array (at_key v (text "chain"))) no_chain_array
    docs ← check_entries kp entries
    let expected = at_key v (text "expected")
    let contract = object (
        member (text "chain") (at_key v (text "chain"))
          (member (text "expected") (without_comment expected) end))
    assert_hex (to_hex (p.sha256 (p.jcs contract))) (text_at v (text "digest_sha256_hex"))
    check_walk kp docs (at_key expected (text "verification_instant"))
        (text_at expected (text "verification"))

  -- The first surface of `check_chain_expiry`
  unfoldable pub check_containment : Json → Check
  check_containment case =
      let permitted =
        expiry_attenuates_within p (text_at case (text "parent_expires_at"))
          (as_str (at_key case (text "child_expires_at"))) in
      let want = text_eq (text_at case (text "expected")) (text "permitted") in
      require (same permitted want) containment_mismatch

  unfoldable pub check_expiry_case : Json → Json → Check
  check_expiry_case v case = do
    kp ← seed_pair p (text_at (at_key v (text "ed25519")) (text "kernel_private_key_seed_hex"))
    docs ← check_entries kp (cases_at case (text "chain"))
    check_walk kp docs (at_key case (text "verification_instant"))
        (text_at case (text "expected_verification"))

  -- The positive controls are seen in cases that have passed.
  unfoldable pub check_chain_expiry : Json → Check
  check_chain_expiry v = do
    let containment = cases_at v (text "expiry_containment")
    let cases = cases_at v (text "cases")
    check_each check_containment containment
    require (not (is_empty cases)) no_cases
    check_each (λ case. check_expiry_case v case) cases
    require
        (any (λ case. text_eq (text_at case (text "expected_verification")) (text "attenuated"))
          cases)
        no_positive_control
    require (any (λ case. text_eq (text_at case (text "expected")) (text "permitted")) containment)
        no_positive_control
