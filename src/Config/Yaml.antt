-- ===== src/Config/Yaml.antt =====
-- The values of a `map[string]any` that the YAML decoder fills.
use corridor.Prelude.{Bool, Option, none, some, if◌then◌else◌}
use corridor.Prelude.Int.{ℤ}
use corridor.Prelude.Text.{Text, ◌==◌}

mutual
  pub data Value : Type 0 where
    str : Text → Value
    int : ℤ → Value
    bool : Bool → Value
    list : Items → Value
    dict : Fields → Value

  pub data Items : Type 0 where
    nil : Items
    cons : Value → Items → Items

  pub data Fields : Type 0 where
    end : Fields
    field : Text → Value → Fields → Fields

-- `v.(string)` and `v.(int)` with their second result, on a key that may be missing.
abbrev pub as_string : Option Value → Option Text
as_string (some (str s)) = some s
as_string _ = none

abbrev pub as_int : Option Value → Option ℤ
as_int (some (int n)) = some n
as_int _ = none

-- `v.([]any)`.
abbrev pub as_list : Option Value → Option Items
as_list (some (list vs)) = some vs
as_list _ = none

-- `m[key]` of a nested map.
unfoldable pub field_at : Text → Fields → Option Value
field_at key end = none
field_at key (field k v fs) = if k == key then some v else field_at key fs
