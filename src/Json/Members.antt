-- ===== src/Json/Members.antt =====
-- The laws of an object's members, as of a map's entries.
use grafana_tools.Base.{String, some, ◌≡◌, refl, arith, ◌==◌, false, eq_iff, if◌then◌else◌}
use grafana_tools.Json.{Value, Fields, field, no_fields, get, put}

pub get-put :
    (k j : String) (v : Value) (fs : Fields)
    → get j (put k v fs) ≡ (if k == j then some v else get j fs)
unfolding get put
get-put k j v no_fields = refl
get-put k j v (field i w fs) = ground (arith, eq_iff k j, eq_iff i k, eq_iff i j, get-put k j v fs)

-- The last write of a member counts.
pub put-put : (k : String) (v w : Value) (fs : Fields) → put k v (put k w fs) ≡ put k v fs
unfolding put
put-put k v w no_fields = ground (arith, eq_iff k k)
put-put k v w (field i u fs) = ground (arith, eq_iff k k, eq_iff i k, put-put k v w fs)

-- Writes of two members that are there commute.
pub put_comm :
    (k j : String) (v w x : Value) (fs : Fields)
    → (k == j) ≡ false
    → get k fs ≡ some x
    → put k v (put j w fs) ≡ put j w (put k v fs)
unfolding get put
put_comm k j v w x no_fields ne hk = cc
put_comm k j v w x (field i u fs) ne hk = ground (
  arith,
  eq_iff k j,
  eq_iff i k,
  eq_iff i j,
  eq_iff j k,
  eq_iff j j,
  eq_iff k k,
  put_comm k j v w x fs,
)
