-- ===== src/Examples/Documents.antt =====
-- An issuer and the documents that it signs.
use vaid.Prelude.{◌+◌, ◌*◌, none, some, [], ◌∷◌, Bytes, text, err}
use vaid.Platform.{Instant, second, hour}
use vaid.Scope.{prefix_entry}
use vaid.Document.{Vaid}
use vaid.Revocation.{vaid_id_eq, unknown, unavailable}
use vaid.Issuer.{sign_document}
use vaid.Issuer.State.{
  RevocationBackend, ReferenceIssuer, IssueArgs, with_key, assuming_nothing_revoked, pos,
}
use vaid.Examples.{toy}

abbrev pub key : Bytes
key = text "k"

abbrev pub no_backend : RevocationBackend (Unit {0})
no_backend = record {
  check = λ s ids. unavailable;
  resolve = λ s id. unknown;
  try_record = λ id upper s. (err (text "no store"), s);
}

abbrev pub home : ReferenceIssuer (Unit {0})
home = assuming_nothing_revoked (with_key toy tt key (pos 24) (text "a.io"))

abbrev pub today : Instant
today = 8_272_434_010_000 * second

abbrev pub root_args : IssueArgs
root_args = record {
  agent_class = text "planner";
  version = text "1";
  tenant_id = text "acme";
  parent_vaid = none;
  scope_boundary = prefix_entry (text "data") ∷ [];
  capability_set = text "read" ∷ text "write" ∷ [];
  not_after = none;
}

abbrev pub child_args : IssueArgs
child_args = record root_args {
  parent_vaid = some 1;
  scope_boundary = prefix_entry (text "data.a") ∷ [];
  capability_set = text "read" ∷ [];
}

abbrev pub root_doc : Vaid
root_doc = sign_document toy no_backend root_args (text "r") 1 today (today + 24 * hour) home

abbrev pub child_doc : Vaid
child_doc = sign_document toy no_backend child_args (text "c") 2 today (today + 12 * hour) home
