-- ===== src/RemoteConfig/Json.antt =====
-- A JSON tree as `encoding/json` decodes it into an interface{}.
use emly_go_api.Base.{Bool, true, false, Option, none, some, String, ◌==◌, string_eq, if◌then◌else◌}

-- A number goes by its text: the server only moves it. An object has one field for each key.
mutual
  pub data Value : Type 0 where
    null : Value
    boolean : Bool → Value
    number : String → Value
    string : String → Value
    array : Items → Value
    object : Fields → Value

  pub data Items : Type 0 where
    nil : Items
    cons : Value → Items → Items

  pub data Fields : Type 0 where
    end : Fields
    field : String → Value → Fields → Fields

abbrev pub find : String → Fields → Option Value
find k end = none
find k (field j v fs) = if j == k then some v else find k fs

-- `m[k]` of a map of interface{}, which is nil where there is no such key.
abbrev pub at : String → Fields → Value
at k fs = elim (find k fs) [ none ↦ null | some v ↦ v ]

-- `m[k] = v`
abbrev pub put : String → Value → Fields → Fields
put k v end = field k v end
put k v (field j w fs) = if j == k then field k v fs else field j w (put k v fs)

-- `delete(m, k)`
abbrev pub drop : String → Fields → Fields
drop k end = end
drop k (field j w fs) = if j == k then drop k fs else field j w (drop k fs)

abbrev pub is_null : Value → Bool
is_null null = true
is_null _ = false

-- The fields of an object, and none of any other value.
abbrev pub fields_of : Value → Fields
fields_of (object fs) = fs
fields_of _ = end
