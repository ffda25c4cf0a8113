-- ===== src/Json/Objects.antt =====
-- `Map::insert` on a JSON object: what later inserts leave of earlier ones.
use vaid.Prelude.{
  ◌≡◌, refl, Bool, true, false, ◌||◌, some, Text, text_eq, text_eq_iff, text_eq_refl, arith,
  if◌then◌else◌,
}
use vaid.Json.{Json, Members, end, member, put, get}

-- The object has the member.
abbrev pub has : Text → Members → Bool
has k end = false
has k (member j w rest) = text_eq j k || has k rest

pub get-put :
    (k j : Text) (v : Json) (m : Members)
    → get j (put k v m) ≡ (if text_eq k j then some v else get j m)
get-put k j v end = refl
get-put k j v (member i w rest) =
    ground (arith, text_eq_iff k j, text_eq_iff i k, text_eq_iff i j, get-put k j v rest)

pub put-put_same : (k : Text) (v w : Json) (m : Members) → put k v (put k w m) ≡ put k v m
put-put_same k v w end = ground (arith, text_eq_refl k)
put-put_same k v w (member i x rest) = ground (arith, text_eq_refl k, put-put_same k v w rest)

pub put-put_comm :
    (k j : Text) (v w : Json) (m : Members)
    → has k m ≡ true
    → text_eq j k ≡ false
    → put j w (put k v m) ≡ put k v (put j w m)
put-put_comm k j v w end h n = cc
put-put_comm k j v w (member i x rest) h n = ground (
  arith,
  text_eq_iff i k,
  text_eq_iff i j,
  text_eq_iff k j,
  text_eq_iff j k,
  put-put_comm k j v w rest,
)

pub has-put : (k j : Text) (w : Json) (m : Members) → has k m ≡ true → has k (put j w m) ≡ true
has-put k j w end h = cc
has-put k j w (member i x rest) h = ground (arith, text_eq_iff i j, has-put k j w rest)
