-- ===== src/Examples/Stores.antt =====
-- The stores, attestations and expiries on concrete data.
use vaid.Prelude.{◌≡◌, refl, ◌+◌, some, [], ◌∷◌, text}
use vaid.Platform.{hour}
use vaid.Revocation.{check_lineage, vaid_id_eq, not_revoked}
use vaid.Attestation.{ConsentAttestation, new_attestation}
use vaid.Examples.Documents.{today, root_args}

clear : check_lineage (some (7 ∷ [])) (1 ∷ 2 ∷ []) ≡ not_revoked
unfolding check_lineage
clear = refl

abbrev consent : ConsentAttestation
consent =
    new_attestation 1 2 (text "b.io") (text "beta") today (today + hour) root_args.scope_boundary
      root_args.capability_set (text "a.io") (text "thumb")
