-- ===== src/Conformance/Frozen.antt =====
-- What the chain vector shows: `check_chain` of crates/vaid-mint/src/bin/conformance.rs.
use vaid.Prelude.{
  ◌≡◌, refl, ap, sym, ◌∙◌, some, List, [], ◌∷◌, Bytes, Text, text, text_eq_iff, last,
}
use vaid.Json.{Json, object, end, member}
use vaid.Platform.{Platform, KeyPair, Instant}
use vaid.Document.{Vaid, to_hex, canonical_vaid_signing_bytes, with_kernel_signature}
use vaid.Document.Reading.{read_vaid}
use vaid.Attestation.{empty_attestations}
use vaid.Chain.{ChainVerification, new_bundle, single_kernel_key}
use vaid.Chain.Soundness.{IsVerifiedChain, verify_chain_at_iff}
use vaid.Conformance.{passed, at_key, text_at, as_array, unhex, assert_hex, instant_of, seed_pair}
use vaid.Conformance.Passing.{
  passed_value, passes, >>=-Passes, require-eq-passed, or_block-eq-passed, or_panic-eq-passed,
}
use vaid.Conformance.Walks.{
  verdict_name, without_comment, check_entry, check_entries, check_walk, check_chain,
}

verdict_name-attenuated :
    (w : ChainVerification) → verdict_name w ≡ text "attenuated" → w ≡ ChainVerification.attenuated
verdict_name-attenuated ChainVerification.attenuated h = refl
verdict_name-attenuated ChainVerification.inauthentic h = cc
verdict_name-attenuated ChainVerification.unverifiable h = cc
verdict_name-attenuated ChainVerification.not_attenuated h = cc
verdict_name-attenuated ChainVerification.expired h = cc
verdict_name-attenuated ChainVerification.consent_expired h = cc

assert_hex-eq : (got want : Text) {u : Unit {0}} → assert_hex got want ≡ passed u → got ≡ want
assert_hex-eq got want h = (text_eq_iff got want).0 (require-eq-passed _ _ h)

module _ (p : Platform) where
  -- An entry of the vector whose document, digest and signature are what this library makes.
  pub record IsFrozen (kp : KeyPair) (entry : Json) (doc : Vaid) : Type 0 where
    pub unsigned : Vaid
    pub read : read_vaid p (at_key entry (text "document")) ≡ some unsigned
    pub digest :
        to_hex (canonical_vaid_signing_bytes p unsigned) ≡ text_at entry (text "digest_sha256_hex")
    pub signs :
        to_hex (p.ed25519_sign kp (canonical_vaid_signing_bytes p unsigned))
        ≡ text_at entry (text "signature_hex")
    pub signature : Bytes
    pub decoded : unhex (text_at entry (text "signature_hex")) ≡ some signature
    pub signed : doc ≡ with_kernel_signature unsigned signature

  abbrev pub AreFrozen : KeyPair → List Json → List Vaid → Type 0
  AreFrozen kp [] [] = Unit
  AreFrozen kp (entry ∷ entries) (doc ∷ docs) = IsFrozen kp entry doc × AreFrozen kp entries docs
  AreFrozen kp _ _ = ⊥

  check_entry-IsFrozen :
      (kp : KeyPair) (entry : Json) (doc : Vaid)
      → check_entry p kp entry ≡ passed doc
      → IsFrozen kp entry doc
  unfolding check_entry
  check_entry-IsFrozen kp entry doc h = elim (>>=-Passes _ _ h) [
    | passes unsigned read h1 ↦ elim (>>=-Passes _ _ h1) [
      | passes u digest h2 ↦ elim (>>=-Passes _ _ h2) [
        | passes w signs h3 ↦ elim (>>=-Passes _ _ h3) [
          | passes signature decoded h4 ↦ record {
            unsigned = unsigned;
            read = or_block-eq-passed _ _ read;
            digest = assert_hex-eq _ _ digest;
            signs = assert_hex-eq _ _ signs;
            signature = signature;
            decoded = or_panic-eq-passed _ decoded;
            signed = sym (passed_value h4);
          }
        ]
      ]
    ]
  ]

  check_entries-AreFrozen :
      (kp : KeyPair) (entries : List Json) (docs : List Vaid)
      → check_entries p kp entries ≡ passed docs
      → AreFrozen kp entries docs
  unfolding check_entries
  check_entries-AreFrozen kp [] docs h =
      let none_left : [] ≡ docs = passed_value h in rw (← none_left) tt
  check_entries-AreFrozen kp (entry ∷ entries) docs h = elim (>>=-Passes _ _ h) [
    | passes doc now h1 ↦ elim (>>=-Passes _ _ h1) [
      | passes rest later h2 ↦
          let whole : doc ∷ rest ≡ docs = passed_value h2 in
          rw (← whole)
            ((check_entry-IsFrozen kp entry doc now, check_entries-AreFrozen kp entries rest later))
    ]
  ]

  -- The walk over documents that end in a verified chain.
  pub record IsWalked (kp : KeyPair) (docs : List Vaid) (at : Json) : Type 0 where
    pub leaf : Vaid
    pub ends : last docs ≡ some leaf
    pub instant : Instant
    pub stated : instant_of p at ≡ some instant
    pub chain : List Vaid
    pub verified :
        IsVerifiedChain p
          (single_kernel_key p (p.ed25519_public_key kp))
          empty_attestations
          instant
          leaf
          (new_bundle docs)
          chain

  check_walk-IsWalked :
      (kp : KeyPair) (docs : List Vaid) (at : Json) (want : Text)
      → check_walk p kp docs at want ≡ passed tt
      → want ≡ text "attenuated"
      → IsWalked kp docs at
  unfolding check_walk
  check_walk-IsWalked kp docs at want h e = elim (>>=-Passes _ _ h) [
    | passes leaf ends h1 ↦ elim (>>=-Passes _ _ h1) [
      | passes instant stated h2 ↦ elim (>>=-Passes _ _ h2) [
        | passes verdict walked h3 ↦
            let named = (text_eq_iff (verdict_name verdict) want).0 (require-eq-passed _ _ h3) in
            let good = verdict_name-attenuated verdict (named ∙ e) in
            let keys = single_kernel_key p (p.ed25519_public_key kp) in
            let (chain, verified) =
              (verify_chain_at_iff p keys empty_attestations instant leaf (new_bundle docs)).0
                (or_panic-eq-passed _ walked ∙ ap (λ w. some w) good) in
            record {
              leaf = leaf;
              ends = or_block-eq-passed _ _ ends;
              instant = instant;
              stated = or_block-eq-passed _ _ stated;
              chain = chain;
              verified = verified;
            }
      ]
    ]
  ]

  seed_pair-key :
      (hex : Text) (kp : KeyPair)
      → seed_pair p hex ≡ passed kp
      → (seed : Bytes) × (unhex hex ≡ some seed) × (p.key_of_seed seed ≡ some kp)
  seed_pair-key hex kp h = elim (>>=-Passes _ _ h) [
    | passes seed read h1 ↦ (seed, or_panic-eq-passed _ read, or_block-eq-passed _ _ h1)
  ]

  -- What the digest of the vector is over: its chain, and what it expects without its comment.
  abbrev pub contract_of : Json → Json
  contract_of v = object (
      member (text "chain") (at_key v (text "chain"))
        (member (text "expected") (without_comment (at_key v (text "expected"))) end))

  -- What a chain vector that passes shows.
  pub record IsFrozenChain (v : Json) : Type 0 where
    pub seed : Bytes
    pub seed_hex :
        unhex (text_at (at_key v (text "ed25519")) (text "kernel_private_key_seed_hex")) ≡ some seed
    pub kp : KeyPair
    pub keyed : p.key_of_seed seed ≡ some kp
    pub entries : List Json
    pub listed : as_array (at_key v (text "chain")) ≡ some entries
    pub docs : List Vaid
    pub frozen : AreFrozen kp entries docs
    pub contract : to_hex (p.sha256 (p.jcs (contract_of v))) ≡ text_at v (text "digest_sha256_hex")
    pub walked :
        IsWalked kp docs (at_key (at_key v (text "expected")) (text "verification_instant"))

  -- If the chain vector passes and states the verdict `attenuated`, then every entry's digest and
  -- signature are the ones that this library computes for its document under the key pair of the
  -- vector's seed, the digest that the vector states is that of its chain and its expectations, and
  -- the signed documents are a verified chain of the last one, under the public key of that pair at
  -- the vector's instant.
  pub check_chain-IsFrozenChain :
      (v : Json)
      → check_chain p v ≡ passed tt
      → text_at (at_key v (text "expected")) (text "verification") ≡ text "attenuated"
      → IsFrozenChain v
  unfolding check_chain
  check_chain-IsFrozenChain v h e = elim (>>=-Passes _ _ h) [
    | passes kp seeded h1 ↦ elim (>>=-Passes _ _ h1) [
      | passes entries listed h2 ↦ elim (>>=-Passes _ _ h2) [
        | passes docs frozen h3 ↦ elim (>>=-Passes _ _ h3) [
          | passes u contract h4 ↦
              let (seed, seed_hex, keyed) = seed_pair-key _ kp seeded in
              record {
                seed = seed;
                seed_hex = seed_hex;
                kp = kp;
                keyed = keyed;
                entries = entries;
                listed = or_block-eq-passed _ _ listed;
                docs = docs;
                frozen = check_entries-AreFrozen kp entries docs frozen;
                contract = assert_hex-eq _ _ contract;
                walked = check_walk-IsWalked kp docs _ _ h4 e;
              }
        ]
      ]
    ]
  ]
