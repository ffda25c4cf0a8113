-- ===== src/Examples/Depth.antt =====
-- A lineage as long as a walk returns.
use vaid.Prelude.{
  ◌≡◌, refl, ℕ, ◌-◌, ◌≤◌, arith, ◌+◌, some, List, [], ◌∷◌, ◌==◌, if◌then◌else◌, length, true, false,
  zero, suc,
}
use vaid.Platform.{VaidId}
use vaid.Document.{Vaid, vaid_id, parent_vaid, with_lineage}
use vaid.Revocation.{
  LineageResolver, ParentResolution, complete, incomplete, assemble_lineage, climb,
}
use vaid.Issuer.{sign_document}
use vaid.Scope.{
  prefix_contains, entry_contains, entry_claimed_resource, entry_is_evaluable,
  boundary_is_evaluable, scan, scope_contains,
}
use vaid.Document.{is_expired_at, caps_contain}
use vaid.Attenuation.{scope_attenuation_reason, scope_attenuates_within, caps_attenuate_within}
use vaid.Revocation.Ancestry.{resolution}
use vaid.Chain.{bundle_resolver, new_bundle}
use vaid.MintTypes.{VaidSeed}
use vaid.Mint.State.{Ports, MintService, with_max_delegation_depth}
use vaid.Mint.{check_child}
use vaid.Errors.{done}
use vaid.Mint.Delegation.{MayDelegate}
use vaid.Mint.Service.{MayDelegate-too_deep}
use vaid.Mint.Reference.{MintWorld, reference_ports}
use vaid.Examples.{toy}
use vaid.Examples.Requests.{fresh, start, seed}
use vaid.Examples.Documents.{no_backend, today, root_doc, child_doc}

abbrev line : LineageResolver
line id = if id == 0 then ParentResolution.root else ParentResolution.parent (id - 1)

abbrev down : ℕ → List VaidId → List VaidId
down zero acc = acc
down (suc n) acc = down n (n ∷ acc)

abbrev deep : Vaid
deep = record root_doc {
  vaid_id_presented = record { raw = []; uuid = 1023 };
  parent_vaid_member = some (some (record { raw = []; uuid = 1022 }));
}

abbrev ports : Ports (MintWorld (Unit {0}))
ports = record (reference_ports toy no_backend fresh) { resolve_delegation_ancestor = λ w. line }

abbrev deeper_seed : VaidSeed
deeper_seed = record seed { parent_vaid = some 1023 }

abbrev deeper : Vaid
deeper = record root_doc {
  vaid_id_presented = record { raw = []; uuid = 1024 };
  parent_vaid_member = some (some (record { raw = []; uuid = 1023 }));
}

abbrev service : MintService (MintWorld (Unit {0}))
service = record { ports = ports; max_delegation_depth = 1024 }

deep_assembled : assemble_lineage deep line ≡ complete (down 1024 [])
unfolding assemble_lineage climb sign_document with_lineage
deep_assembled = refl

shallow : length (down 1024 []) - 1 + 1 ≤ 1024
shallow = omega arith

tenant : deep.tenant_id ≡ deeper_seed.tenant_id
unfolding sign_document with_lineage
tenant = refl

scope : scope_attenuates_within deep.scope_boundary deeper_seed.scope_boundary ≡ true
unfolding sign_document with_lineage scope_attenuates_within scope_attenuation_reason
    boundary_is_evaluable entry_is_evaluable entry_claimed_resource scope_contains scan
    entry_contains prefix_contains
scope = refl

caps : caps_attenuate_within deep.capability_set deeper_seed.capability_set ≡ true
unfolding sign_document with_lineage caps_attenuate_within caps_contain
caps = refl

alive : is_expired_at toy deep today ≡ false
unfolding sign_document with_lineage is_expired_at
alive = refl

may : MayDelegate toy ports 1024 deeper_seed deep today start
may = record {
  ancestry = down 1024 [];
  assembled = deep_assembled;
  shallow = shallow;
  tenant = tenant;
  names = refl;
  scope = scope;
  caps = caps;
  alive = alive;
}

full_length : length (down 1024 []) ≡ 1024
full_length = refl

-- The parent's own parent is known as its document states it.
known : line (vaid_id deep) ≡ resolution (parent_vaid deep)
known = refl

MayDelegate-too_deep_example :
    (with_max_delegation_depth ports 1024 ≡ done service)
    × (check_child toy ports 1024 deeper_seed deep today start ≡ (done tt, start))
    × (assemble_lineage deeper line ≡ incomplete)
unfolding reference_ports may
MayDelegate-too_deep_example =
    MayDelegate-too_deep toy ports deeper_seed deep deeper today start may full_length known refl

-- A resolver that knows one root, and the two ancestries below it.
root_alone :
    assemble_lineage root_doc (bundle_resolver (new_bundle (root_doc ∷ []))) ≡ complete (1 ∷ [])
unfolding sign_document with_lineage assemble_lineage climb bundle_resolver new_bundle
root_alone = refl

root_and_child :
    assemble_lineage child_doc (bundle_resolver (new_bundle (root_doc ∷ [])))
    ≡ complete (1 ∷ 2 ∷ [])
unfolding sign_document with_lineage assemble_lineage climb bundle_resolver new_bundle
root_and_child = refl

child_names_root : parent_vaid child_doc ≡ some (vaid_id root_doc)
unfolding sign_document with_lineage
child_names_root = refl

root_known :
    bundle_resolver (new_bundle (root_doc ∷ [])) (vaid_id root_doc)
    ≡ resolution (parent_vaid root_doc)
unfolding sign_document with_lineage bundle_resolver new_bundle
root_known = refl
