-- ===== src/Common/Json.antt =====
-- Decoded JSON, as Go's `any`: a string is its bytes, a number its text (`json.Number`), and a
-- `map[string]any` the list of its fields, in the order in which they are visited.
-- Which text decodes to what is encoding/json's business.
use dappnode_nexus_gateway.Common.Bytes.{Bytes}
use dappnode_nexus_gateway.Common.{String, Bool, Option, none, some, if◌then◌else◌, ◌==◌, string_eq}

mutual
  pub data Json : Type 0 where
    null : Json
    boolean : Bool → Json
    number : String → Json
    text : Bytes → Json
    array : Items → Json
    object : Fields → Json

  pub data Items : Type 0 where
    no_items : Items
    item : Json → Items → Items

  pub data Fields : Type 0 where
    no_fields : Fields
    field : String → Json → Fields → Fields

-- `obj[key]`, its write, and `delete(obj, key)`.
unfoldable pub get : String → Fields → Option Json
get k no_fields = none
get k (field j v fs) = if j == k then some v else get k fs

unfoldable pub set : String → Json → Fields → Fields
set k v no_fields = field k v no_fields
set k v (field j w fs) = let rest = set k v fs in if j == k then field k v fs else field j w rest

unfoldable pub remove : String → Fields → Fields
remove k no_fields = no_fields
remove k (field j v fs) = let rest = remove k fs in if j == k then rest else field j v rest

-- `v.(string)`, `v.([]any)` and `v.(map[string]any)`, of a missing value too: `none` is not ok.
abbrev pub as_text : Option Json → Option Bytes
as_text (some (text s)) = some s
as_text (some null) = none
as_text (some (boolean b)) = none
as_text (some (number n)) = none
as_text (some (array xs)) = none
as_text (some (object fs)) = none
as_text none = none

abbrev pub as_array : Option Json → Option Items
as_array (some (text s)) = none
as_array (some null) = none
as_array (some (boolean b)) = none
as_array (some (number n)) = none
as_array (some (array xs)) = some xs
as_array (some (object fs)) = none
as_array none = none

abbrev pub as_object : Option Json → Option Fields
as_object (some (text s)) = none
as_object (some null) = none
as_object (some (boolean b)) = none
as_object (some (number n)) = none
as_object (some (array xs)) = none
as_object (some (object fs)) = some fs
as_object none = none

-- A function on every item, and on every value.
unfoldable pub map_items : (Json → Json) → Items → Items
map_items f no_items = no_items
map_items f (item x xs) = item (f x) (map_items f xs)

unfoldable pub map_fields : (Json → Json) → Fields → Fields
map_fields f no_fields = no_fields
map_fields f (field k v fs) = field k (f v) (map_fields f fs)

-- A function on an object, which leaves other values, and on the value of a field, if it is there.
abbrev pub on_object : (Fields → Fields) → Json → Json
on_object f (object fs) = object (f fs)
on_object f null = null
on_object f (boolean b) = boolean b
on_object f (number n) = number n
on_object f (text s) = text s
on_object f (array xs) = array xs

abbrev pub on_array : (Items → Items) → Json → Json
on_array f (array xs) = array (f xs)
on_array f null = null
on_array f (boolean b) = boolean b
on_array f (number n) = number n
on_array f (text s) = text s
on_array f (object fs) = object fs

abbrev pub on_text : (Bytes → Bytes) → Json → Json
on_text f (text s) = text (f s)
on_text f null = null
on_text f (boolean b) = boolean b
on_text f (number n) = number n
on_text f (array xs) = array xs
on_text f (object fs) = object fs

unfoldable pub on_field : String → (Json → Json) → Fields → Fields
on_field k f fs = elim (get k fs) [ none ↦ fs | some v ↦ set k (f v) fs ]
