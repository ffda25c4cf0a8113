-- ===== src/Lib.antt =====
-- The VAID crates: documents that an issuer signs for agents, the delegation of authority from one
-- document to another, and the verification of a presented chain.
--
-- The parts, and the files that model them. All paths are from the repository's root.
--
-- - Prelude: Boolean tests, texts as lists of byte values, maps as association lists, results.
-- - Json: `serde_json::Value`, as far as the crates read or build one.
-- - Platform: what the crates call and do not implement (ring, sha2, base64, serde_jcs, uuid and
--   chrono), as a record of functions that every definition takes as an argument. Two documented
--   laws are named hypotheses: Ed25519 verifies what it signed, and chrono reads back the
--   whole-second form that it wrote, for years of four digits.
-- - TrustDomain: crates/vaid-mint/src/issuer_identity.rs. TrustDomain/Grammar has the grammar of
--   docs/adr as an independent predicate.
-- - Scope: the scope matchers of crates/vaid-mint/src/document.rs.
-- - Document: `Vaid`, its JSON form, timestamps, lineage hash and signing bytes, the same file;
--   Document/Duplicates has its scanner for repeated member names, on fuel of the text's length
--   and one. Document/Reading has its `Deserialize` impls, the derived ones as serde defines them:
--   an object's members in their order, names distinct; Json/Reading has those of the field types.
-- - Attenuation: `scope_attenuates`, `tenant_attenuates`, `caps_attenuate` and `expiry_attenuates`
--   of crates/vaid-mint/src/mint.rs, which the mint and the chain verifier share.
-- - Revocation: `assemble_lineage` and the in-memory stores of crates/vaid-mint/src/revocation.rs.
-- - Verify: the verdicts of crates/vaid-mint/src/verify.rs.
-- - Attestation: crates/vaid-mint/src/attestation.rs, the consent that a cross-key hop needs.
-- - Chain: `verify_chain_at` of crates/vaid-mint/src/chain.rs; Chain/Hops has one round of its
--   loop, Chain/Soundness the whole function, Chain/EndToEnd what the verdict means.
-- - Errors: crates/vaid-mint/src/error.rs; Errors/Calls has calls with explicit state that return,
--   fail or panic, whose writes before a failure stay.
-- - Issuer: `ReferenceIssuer` of crates/vaid-mint/src/issuer.rs. Its state is a record; the clock,
--   the random UUID and a generated key are arguments. A deployment's revocation backend is a
--   record of functions over a state of its own. Issuer/State has its state and construction,
--   Issuer/Running has runs of its operations.
-- - Pop: crates/vaid-pop/src/vaid_pop.rs.
-- - RequestAuth, Completion and Client: crates/vaid-pop/src/request_auth.rs,
--   crates/vaid-pop/src/request_completion.rs and crates/vaid-client/src/auth.rs.
-- - MintTypes: the requests of crates/vaid-mint/src/mint_types.rs.
-- - Mint: `MintService` of crates/vaid-mint/src/mint.rs, on its state in Mint/State. The issuer, the
--   gate and the audit sink behind it are the record `Ports`; Mint/Reference fills it with the
--   reference issuer, `PermitAll` of crates/vaid-mint/src/authz.rs and `InMemoryAudit` of
--   crates/vaid-mint/src/audit.rs.
-- - Conformance: the checker of frozen vectors, crates/vaid-mint/src/bin/conformance.rs.
--   Conformance/Pinned, Walks, Scopes, Roundtrips and Verdicts have its checks, Conformance/Running
--   the table of checks and the run. The checks of matching and of refusals take the implementation
--   that they check as an argument, and the run puts this library in its place.
-- - PopConformance: the same for crates/vaid-pop/src/bin/conformance.rs, whose run is the same loop
--   over its own table.
-- - Examples: a concrete platform and concrete runs.
--
-- How the parts interact: the mint checks a seed against the parent's document by Attenuation,
-- verifies a proof of possession by Pop, and asks the issuer for a document, which is recorded in
-- the lineage store. The chain verifier authenticates presented documents by Verify, assembles
-- them by Revocation, and compares neighbours by Attenuation and Attestation.
--
-- Numbers are natural numbers. An instant is the count of nanoseconds since chrono's earliest one;
-- where chrono would leave its range the model answers with a panic or with `none`. No arithmetic
-- of the modelled code reaches the bound of a machine integer otherwise: a chain has at most 1024
-- entries. The loop of `assemble_lineage` runs on 1024 rounds of fuel, its own depth bound.
--
-- Not modelled: serde_json's parser from a text to a value (a parameter of the entry points on a
-- text), the programs that write the frozen vectors, the accessors that return a field, leap seconds,
-- and concurrent calls of one service, each of which holds a lock for its own update. Messages of
-- errors are constructors over what they print.
pub mod Prelude
pub mod Json
pub mod Platform
pub mod TrustDomain
pub mod Scope
pub mod Document
pub mod Attenuation
pub mod Revocation
pub mod Verify
pub mod Attestation
pub mod Chain
pub mod Errors
pub mod Issuer
pub mod Pop
pub mod MintTypes
pub mod Mint
pub mod Examples
pub mod RequestAuth
pub mod Client
pub mod Conformance
pub mod Completion
pub mod PopConformance
