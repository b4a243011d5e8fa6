-- ===== src/Json/Access.antt =====
-- Reading an object's field after a write or a deletion.
use oocsi_web.Common.{String, ◌≡◌, refl, arith, if◌then◌else◌, str_eq, eq_iff}
use oocsi_web.Json.{Value, undefined, Fields, end, field, get_field, set_field, delete_field}

pub get_field-set_field :
    (k j : String) (v : Value) (fs : Fields)
    → get_field j (set_field k v fs) ≡ (if str_eq k j then v else get_field j fs)
unfolding get_field set_field
get_field-set_field k j v end = refl
get_field-set_field k j v (field i w fs) =
    ground (arith, eq_iff k j, eq_iff i k, eq_iff i j, get_field-set_field k j v fs)

pub get_field-delete_field :
    (k j : String) (fs : Fields)
    → get_field j (delete_field k fs) ≡ (if str_eq k j then undefined else get_field j fs)
unfolding get_field delete_field
get_field-delete_field k j end = ground arith
get_field-delete_field k j (field i w fs) =
    ground (arith, eq_iff k j, eq_iff i k, eq_iff i j, get_field-delete_field k j fs)
