-- ===== src/Document/Signing.antt =====
-- What a kernel signature covers: every member of the document but the signature itself.
use vaid.Prelude.{
  ◌≡◌, refl, ap, sym, ◌∙◌, true, Bool-cases, inl, inr, List, [], ◌∷◌, Bytes, Text, text, text_eq,
  text_eq_iff,
}
use vaid.Json.{Json, null, object, Members, put}
use vaid.Json.Objects.{has, put-put_same, put-put_comm, has-put}
use vaid.Platform.{Platform}
use vaid.Document.{
  Vaid, with_kernel_signature, put_all, known_members, to_members, canonical_vaid_signing_bytes,
}

-- A member that the object has may be replaced before other members are put in, or after.
put_all-put :
    (k : Text) (x : Json) (rest : List (Text × Json)) (m : Members)
    → has k m ≡ true
    → put k x (put_all rest (put k x m)) ≡ put k x (put_all rest m)
put_all-put k x [] m h = put-put_same k x x m
put_all-put k x ((j, w) ∷ rest) m h = elim (Bool-cases (text_eq j k)) [
  | inl same ↦ rw (← (text_eq_iff j k).0 same) (rw (put-put_same j w x m))
  | inr other ↦
      rw (put-put_comm k j x w m h other) (put_all-put k x rest (put j w m) (has-put k j w m h))
]

abbrev signature_key : Text
signature_key = text "kernel_signature"

put_signature :
    (v : Vaid) (s : Bytes)
    → put signature_key null (known_members (with_kernel_signature v s))
      ≡ put signature_key null (known_members v)
unfolding known_members
put_signature v s = refl

has_signature : (v : Vaid) → has signature_key (known_members v) ≡ true
unfolding known_members
has_signature v = refl

put_members :
    (v : Vaid) (s : Bytes)
    → put signature_key null (to_members (with_kernel_signature v s))
      ≡ put signature_key null (to_members v)
unfolding to_members
put_members v s =
    sym (
      put_all-put signature_key null v.unknown_fields (known_members (with_kernel_signature v s))
        (has_signature (with_kernel_signature v s)))
    ∙ (ap (λ m. put signature_key null (put_all v.unknown_fields m)) (put_signature v s)
        ∙ put_all-put signature_key null v.unknown_fields (known_members v) (has_signature v))

-- The signed bytes do not depend on the signature that the document carries, whatever members
-- the document has that this version does not know.
pub canonical_vaid_signing_bytes-with_kernel_signature :
    (p : Platform) (v : Vaid) (s : Bytes)
    → canonical_vaid_signing_bytes p (with_kernel_signature v s) ≡ canonical_vaid_signing_bytes p v
unfolding canonical_vaid_signing_bytes
canonical_vaid_signing_bytes-with_kernel_signature p v s =
    ap (λ m. p.sha256 (p.jcs (object m))) (put_members v s)
