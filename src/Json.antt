-- ===== src/Json.antt =====
-- The JSON values that the controllers decode, change and encode again: what `json.Unmarshal` into
-- `map[string]any` yields. A number is kept by its value; the order of an object's members is kept,
-- which Go's encoder sorts, and no definition depends on it.
pub mod Members
use grafana_tools.Base.{String, ℕ, Bool, Option, none, some, ◌==◌, if◌then◌else◌}
use grafana_tools.Kube.{Error, failed}
use grafana_tools.Kube.Exec.{Answer, yields, fails}

mutual
  pub data Value : Type 0 where
    object : Fields → Value
    array : Items → Value
    text : String → Value
    number : ℕ → Value
    flag : Bool → Value
    null : Value

  pub data Fields : Type 0 where
    field : String → Value → Fields → Fields
    no_fields : Fields

  pub data Items : Type 0 where
    item : Value → Items → Items
    no_items : Items

-- The bytes of a `runtime.RawExtension`: a text that is no JSON, or the value that it encodes.
pub data Raw : Type 0 where
  malformed : String → Raw
  json : Value → Raw

-- `v, ok := m[k]`
unfoldable pub get : String → Fields → Option Value
get k no_fields = none
get k (field j v fs) = if j == k then some v else get k fs

-- `m[k] = v`
unfoldable pub put : String → Value → Fields → Fields
put k v no_fields = field k v no_fields
put k v (field j w fs) = if j == k then field k v fs else field j w (put k v fs)

-- `json.Unmarshal` into a map; `null` makes the map nil.
unfoldable pub decode : Raw → Answer (Option Fields)
decode (malformed m) = fails (failed m)
decode (json null) = yields none
decode (json (object fs)) = yields (some fs)
decode (json _) =
    fails (failed "json: cannot unmarshal into Go value of type map[string]interface {}")

-- `json.Marshal` of a map
unfoldable pub encode : Fields → Raw
encode fs = json (object fs)
