-- ===== src/Mint/Reference.antt =====
-- The ports that the crate ships: the reference issuer behind a mint, crates/vaid-mint/src/issuer.rs,
-- with `PermitAll` of authz.rs and `InMemoryAudit` of audit.rs.
use vaid.Prelude.{List, [], ◌∷◌, ◌++◌, Text}
use vaid.Json.{Json}
use vaid.Platform.{Platform}
use vaid.Errors.{done}
use vaid.Errors.Calls.{Call}
use vaid.Issuer.{issuer_resolver, issue_vaid_with_key, issue_vaid_with_lineage}
use vaid.Issuer.State.{RevocationBackend, ReferenceIssuer, Fresh}
use vaid.MintTypes.{VaidSeed}
use vaid.Mint.State.{Ports}

pub record AuditEntry : Type 0 where
  pub event_type : Text
  pub details : Json

-- `InMemoryAudit::record`: the entry is pushed.
abbrev pub push_entry : Text → Json → List AuditEntry → List AuditEntry
push_entry event details entries =
    entries ++ (record { event_type = event; details = details } ∷ [])

pub record MintWorld (S : Type 0) : Type 0 where
  pub issuer : ReferenceIssuer S
  pub entries : List AuditEntry

abbrev pub in_issuer : {S A : Type 0} → Call (ReferenceIssuer S) A → Call (MintWorld S) A
in_issuer m w = let (o, i) = m w.issuer in (o, record w { issuer = i })

-- `PermitAll::authorize_root_mint`
abbrev pub permit_all : {S : Type 0} → VaidSeed → Call (MintWorld S) (Unit {0})
permit_all seed w = (done tt, w)

abbrev pub record_in_memory : {S : Type 0} → Text → Json → Call (MintWorld S) (Unit {0})
record_in_memory event details w =
    (done tt, record w { entries = push_entry event details w.entries })

unfoldable pub reference_ports :
    Platform → {S : Type 0} → RevocationBackend S → Fresh → Ports (MintWorld S)
reference_ports p b fresh = record {
  authorize_root_mint = permit_all;
  issue_vaid_with_key = λ args key. in_issuer (issue_vaid_with_key p b args key fresh);
  issue_vaid_with_lineage = λ args. in_issuer (issue_vaid_with_lineage p b args fresh);
  resolve_delegation_ancestor = λ w. issuer_resolver p b w.issuer;
  record_audit = record_in_memory;
}
