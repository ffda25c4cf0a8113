-- ===== src/Examples/Wire.antt =====
-- Texts on the wire: a document's text, and a signed request.
use vaid.Prelude.{
  ◌≡◌, refl, true, Option, none, some, [], Bytes, Text, text, arith, Result, ok, err,
}
use vaid.Platform.{VaidId, IsFourDigitYear, trunc_second}
use vaid.Document.{Vaid}
use vaid.Document.Duplicates.{has_duplicate_member_names}
use vaid.Document.Duplicates.Syntax.{
  Tree, scalar, quoted, listed, record_of, no_tree, tree, no_field, field, write_tree, repeats,
  IsPlain,
}
use vaid.Document.Duplicates.Scanning.{has_duplicate_member_names-write_tree}
use vaid.Pop.{verify_signed_payload}
use vaid.RequestAuth.{request_value}
use vaid.Client.{PopError, PopHeaders, RequestSigner, request_payload, sign_headers_at}
use vaid.Client.Signing.{sign_headers_at-verifies}
use vaid.Examples.{toy, toy_laws}
use vaid.Examples.Documents.{today, child_doc}

-- {"a":[{"b":1,"b":"x"}],"c":2}
abbrev twice : Tree
twice = record_of (
    field (text "a")
      (listed (
        tree
          (record_of
            (field (text "b") (scalar (text "1")) (field (text "b") (quoted (text "x")) no_field)))
          no_tree))
      (field (text "c") (scalar (text "2")) no_field))

twice-IsPlain : IsPlain twice
unfolding IsPlain
twice-IsPlain = (
  ((refl, refl), tt),
  (
    (
      ((refl, refl), tt),
      ((refl, refl, refl, refl), tt),
      (((refl, refl), tt), ((refl, refl), tt), tt),
    ),
    tt,
  ),
  (((refl, refl), tt), ((refl, refl, refl, refl), tt), tt),
)

has_duplicate_member_names-write_tree_example :
    has_duplicate_member_names (write_tree twice []) ≡ repeats twice
has_duplicate_member_names-write_tree_example =
    has_duplicate_member_names-write_tree twice twice-IsPlain

repeats-twice : repeats twice ≡ true
unfolding repeats
repeats-twice = refl

-- A parser that knows one text.
abbrev parse_one : Text → Option Vaid
parse_one [] = none
parse_one _ = some child_doc

abbrev read_nothing : Bytes → Option (VaidId × Text)
read_nothing b = none

abbrev as_written : Text → Text
as_written t = t

abbrev signer : RequestSigner
signer = record {
  identity = record { vaid_header = text "doc"; vaid_id = 2; tenant_id = text "acme" };
  key = text "c";
}

abbrev headers_of : Result PopError PopHeaders → PopHeaders
headers_of (ok h) = h
headers_of (err e) = record { vaid = []; timestamp = []; nonce = []; signature = [] }

abbrev sent : PopHeaders
sent = headers_of (
    sign_headers_at toy read_nothing as_written signer (text "GET") (text "/x") [] today (text "n"))

signed :
    sign_headers_at toy read_nothing as_written signer (text "GET") (text "/x") [] today (text "n")
    ≡ ok sent
unfolding sign_headers_at
signed = refl

this_year : IsFourDigitYear today
this_year = (omega arith, omega arith)

sign_headers_at-verifies_example :
    (signature : Bytes) × (sent.vaid ≡ signer.identity.vaid_header)
    × (toy.parse_from_rfc3339 sent.timestamp ≡ some (trunc_second today))
    × (sent.signature ≡ toy.base64 signature)
    × (sent.nonce ≡ text "n")
    × (verify_signed_payload toy
          (request_value toy (
            request_payload toy read_nothing as_written signer.identity
              (text "GET")
              (text "/x")
              []
              (trunc_second today)
              sent.nonce))
          (toy.ed25519_public_key signer.key)
          signature
        ≡ true)
sign_headers_at-verifies_example =
    sign_headers_at-verifies toy read_nothing as_written toy_laws signer (text "GET") (text "/x") []
      today (text "n") sent this_year signed
