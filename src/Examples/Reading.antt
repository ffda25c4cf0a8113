-- ===== src/Examples/Reading.antt =====
-- A document on the wire, with a member that this version does not know.
use vaid.Prelude.{◌≡◌, refl, true, some, [], ◌∷◌, text}
use vaid.Json.{string, array, Items, nil, item, Members, get, put, items_of}
use vaid.Json.Objects.{has}
use vaid.Scope.{validate_scope_entry}
use vaid.Document.{Vaid, known_members, to_members, with_lineage}
use vaid.Document.Reading.{is_known, read_members}
use vaid.Document.RoundTrip.{IsPresentable, read_members-to_members}
use vaid.Document.Membership.{NoRepeats}
use vaid.Document.Presented.{get-to_members-read_members}
use vaid.Document.Validated.{read_members-IsPresentable}
use vaid.Document.Positional.{as_object, by_position, read_members-by_position}
use vaid.Issuer.{sign_document}
use vaid.Examples.{toy}
use vaid.Examples.Documents.{child_doc}

abbrev noted : Vaid
noted = record child_doc {
  kernel_signature = text "s";
  unknown_fields = (text "note", string (text "x")) ∷ [];
}

noted-IsPresentable : IsPresentable toy noted
unfolding sign_document with_lineage validate_scope_entry is_known
noted-IsPresentable = record {
  version = refl;
  vaid_id = refl;
  agent_id = refl;
  key = (refl, tt);
  signature = (refl, tt);
  parent = refl;
  scope = (refl, tt);
  unknown = (refl, tt);
  distinct = (refl, tt);
}

read_members-to_members_example : read_members toy (to_members noted) ≡ some noted
read_members-to_members_example = read_members-to_members toy noted noted-IsPresentable

abbrev wire : Members
wire = to_members noted

wire-NoRepeats : NoRepeats wire
unfolding to_members known_members sign_document with_lineage
wire-NoRepeats = (
  refl,
  (
    refl,
    (
      refl,
      (
        refl,
        (
          refl,
          (
            refl,
            (
              refl,
              (refl, (refl, (refl, (refl, (refl, (refl, (refl, (refl, (refl, (refl, tt)))))))))),
            ),
          ),
        ),
      ),
    ),
  ),
)

abbrev scope_items : Items
scope_items = item (as_object (string (text "prefix"), string (text "data.a"))) nil

wire_scope : get (text "scope_boundary") wire ≡ some (array scope_items)
unfolding to_members known_members sign_document with_lineage
wire_scope = refl

wire_version : has (text "sig_version") wire ≡ true
unfolding to_members known_members
wire_version = refl

get-to_members-read_members_example : get (text "note") (to_members noted) ≡ get (text "note") wire
get-to_members-read_members_example =
    get-to_members-read_members toy wire noted scope_items read_members-to_members_example
      wire-NoRepeats wire_version wire_scope
      ((string (text "prefix"), string (text "data.a"), refl), tt) (text "note")

read_members-IsPresentable_example : IsPresentable toy noted
read_members-IsPresentable_example =
    read_members-IsPresentable toy wire noted wire-NoRepeats read_members-to_members_example

read_members-by_position_example :
    read_members toy (
      put
        (text "scope_boundary")
        (array (items_of by_position ((string (text "prefix"), string (text "a")) ∷ [])))
        wire)
    ≡ read_members toy (
        put
          (text "scope_boundary")
          (array (items_of as_object ((string (text "prefix"), string (text "a")) ∷ [])))
          wire)
read_members-by_position_example =
    read_members-by_position toy wire ((string (text "prefix"), string (text "a")) ∷ [])
