-- ===== src/Examples/Requests.antt =====
-- A mint's state, and a parent's request for a child.
use vaid.Prelude.{none, some, [], ◌∷◌, Bytes, text}
use vaid.Revocation.{record_lineage}
use vaid.Pop.{sign_payload}
use vaid.Issuer.State.{ReferenceIssuer, IssueArgs, Fresh}
use vaid.MintTypes.{VaidSeed, MintPop, MintVaidRequest, pop_payload, payload_value}
use vaid.Mint.State.{MintState}
use vaid.Mint.Reference.{MintWorld}
use vaid.Examples.{toy}
use vaid.Examples.Documents.{home, today, child_args, root_doc}

abbrev pub fresh : Fresh
fresh = record { now = today; agent_id = 2; agent_pkcs8 = none }

-- The issuer after it recorded the root.
abbrev pub issuer : ReferenceIssuer (Unit {0})
issuer = record home { default_lineage = record_lineage 1 none [] }

abbrev pub start : MintState (MintWorld (Unit {0}))
start = record {
  consumed_pop_nonces = text "n0" ∷ [];
  world = record { issuer = issuer; entries = [] };
}

abbrev pub child_key : Bytes
child_key = text "c"

abbrev pub seed : VaidSeed
seed = record {
  agent_class = child_args.agent_class;
  version = child_args.version;
  tenant_id = child_args.tenant_id;
  parent_vaid = some 1;
  scope_boundary = child_args.scope_boundary;
  capability_set = child_args.capability_set;
  public_key_der = some child_key;
}

abbrev pub proof : MintPop
proof = record {
  nonce = text "n1";
  issued_at = today;
  signature =
      sign_payload toy (payload_value toy (pop_payload seed child_key (text "n1") today)) child_key;
}

abbrev pub request : MintVaidRequest
request = record { seed = seed; pop = some proof }

abbrev pub ceiled_args : IssueArgs
ceiled_args = record child_args { not_after = some root_doc.expires_at_presented }
