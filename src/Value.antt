-- ===== src/Value.antt =====
-- The value of a decoded YAML or JSON document, Go's `any` below a `map[string]any`, and the
-- operations that internal/backup/restore_plan.go and serialize.go make on it. A Go map is a list
-- of its fields; a key is read at its first field and deleted at all of them.
pub mod Laws
use pbs_k8s_operator.Base.{Bool, true, false, Option, none, some, String, ◌==◌, ◌||◌, if◌then◌else◌}

mutual
  pub data Fields : Type 0 where
    end : Fields
    field : String → Value → Fields → Fields

  pub data Value : Type 0 where
    obj : Fields → Value
    arr : Items → Value
    str : String → Value
    num : String → Value  -- the number as it is written; the program never reads one
    bool : Bool → Value
    null : Value

  pub data Items : Type 0 where
    cons : Value → Items → Items
    nil : Items

-- `m[k]`, with `none` for a missing key.
unfoldable pub lookup : String → Fields → Option Value
lookup k end = none
lookup k (field j v fs) = if j == k then some v else lookup k fs

-- `delete(m, k)`.
unfoldable pub delete : String → Fields → Fields
delete k end = end
delete k (field j v fs) = let rest = delete k fs in if j == k then rest else field j v rest

-- `m[k] = v`.
unfoldable pub put : String → Value → Fields → Fields
put k v end = field k v end
put k v (field j w fs) = if j == k then field j v fs else field j w (put k v fs)

-- `len(m) == 0`.
abbrev pub is_end : Fields → Bool
is_end end = true
is_end (field k v fs) = false

-- `v.(map[string]any)`, with the nil map, which reads as empty, where the assertion fails.
abbrev pub as_map : Option Value → Fields
as_map (some (obj fs)) = fs
as_map _ = end

-- Whether the assertion `v.(map[string]any)` holds.
abbrev pub is_map : Option Value → Bool
is_map (some (obj fs)) = true
is_map _ = false

-- `v.(string)`, with "" where the assertion fails.
abbrev pub as_string : Option Value → String
as_string (some (str s)) = s
as_string _ = ""

-- `v.([]any)`, with the nil slice where the assertion fails.
abbrev pub as_list : Option Value → Items
as_list (some (arr xs)) = xs
as_list _ = nil

-- Applies a change of a map to a value that is a map.
abbrev pub on_map : (Fields → Fields) → Value → Value
on_map f (obj fs) = obj (f fs)
on_map f v = v

-- A change of the value at a key, for a reference read from the map and changed in place.
unfoldable pub update : String → (Value → Value) → Fields → Fields
update k g end = end
update k g (field j v fs) = if j == k then field j (g v) fs else field j v (update k g fs)

-- The change that `m, _ := o[k].(map[string]any)` followed by changes of `m` makes to `o`: Go's
-- maps are references, so the map below `k` is changed in place, and a nil map is left alone.
abbrev pub update_map : String → (Fields → Fields) → Fields → Fields
update_map k f = update k (on_map f)

unfoldable pub map_items : (Value → Value) → Items → Items
map_items g nil = nil
map_items g (cons v xs) = cons (g v) (map_items g xs)

-- The same for `l, ok := o[k].([]any)` and a loop that changes each element in place.
abbrev pub on_list : (Value → Value) → Value → Value
on_list g (arr xs) = arr (map_items g xs)
on_list g v = v

-- Whether some element of a list passes a test.
unfoldable pub any_item : (Value → Bool) → Items → Bool
any_item p nil = false
any_item p (cons v xs) = p v || any_item p xs
