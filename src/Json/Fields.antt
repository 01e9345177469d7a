-- ===== src/Json/Fields.antt =====
-- Reading a field of an object after a write.
use lan_chat_next.Prelude.{
  String, ◌≡◌, refl, none, some, arith, eq_iff, ◌==◌, if◌then◌else◌, string_eq,
}
use lan_chat_next.Json.{Value, Object, get, put}
use Object.{end, field}

pub get-put :
    (k j : String) (v : Value) (m : Object)
    → get (put k v m) j ≡ (if k == j then some v else get m j)
unfolding get put
get-put k j v end = refl
get-put k j v (field i w m) = ground (arith, eq_iff k j, eq_iff i k, eq_iff i j, get-put k j v m)

pub get-end : (k : String) → get end k ≡ none
unfolding get
get-end k = refl

pub ruleset object_laws = (get-put, get-end)
