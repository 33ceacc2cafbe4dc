-- ===== src/Json.antt =====
-- The dynamic values (`unknown`) that packets carry. Numbers are natural, which is all that the
-- code looks at (`typeof`, time stamps); an object is its own enumerable properties in order, so
-- neither prototypes nor the reordering of integer-like keys are modelled.
pub mod Sorting
use Prim.Native.String.{◌++◌ as text_append}
use hdv_orchestrator.Text.Decimal.{decimal}
use hdv_orchestrator.Common.{
  ℕ, String, Bool, true, false, List, [], ◌∷◌, ◌++◌, ◌==◌, nat_eq, string_eq, if◌then◌else◌, Option,
  none, some,
}

mutual
  pub data Json : Type 0 where
    undefined null : Json
    boolean : Bool → Json
    number : ℕ → Json
    string : String → Json
    array : Items → Json
    object : Fields → Json

  pub data Items : Type 0 where
    nil : Items
    cons : Json → Items → Items

  pub data Fields : Type 0 where
    end : Fields
    field : String → Json → Fields → Fields

abbrev pub find_field : String → Fields → Json
find_field k end = undefined
find_field k (field j v fs) = let rest = find_field k fs in if j == k then v else rest

-- `v.k`, on a value that is neither `null` nor `undefined`
abbrev pub prop : String → Json → Json
prop k (object fs) = find_field k fs
prop k v = undefined

-- `typeof v === 'string'`, and the string
abbrev pub as_string : Json → Option String
as_string (string s) = some s
as_string v = none

abbrev pub is_string : Json → Bool
is_string (string s) = true
is_string v = false

abbrev pub is_number : Json → Bool
is_number (number n) = true
is_number v = false

-- `typeof v === 'object'`, which `null` passes too
abbrev pub is_object_type : Json → Bool
is_object_type null = true
is_object_type (array xs) = true
is_object_type (object fs) = true
is_object_type v = false

-- `!!v`
abbrev pub truthy : Json → Bool
truthy undefined = false
truthy null = false
truthy (boolean b) = b
truthy (number n) = if n == 0 then false else true
truthy (string s) = if s == "" then false else true
truthy (array xs) = true
truthy (object fs) = true

-- `v === s` for a string `s`
abbrev pub is_text : String → Json → Bool
is_text s (string t) = t == s
is_text s v = false

-- `String(v)`, for template literals. A number is natural; an object prints its tag.
unfoldable mutual
  unfolding decimal

  pub to_text : Json → String
  to_text undefined = "undefined"
  to_text null = "null"
  to_text (boolean true) = "true"
  to_text (boolean false) = "false"
  to_text (number n) = decimal n
  to_text (string s) = s
  to_text (array xs) = items_text xs
  to_text (object fs) = "[object Object]"

  pub items_text : Items → String
  items_text nil = ""
  items_text (cons undefined nil) = ""
  items_text (cons null nil) = ""
  items_text (cons v nil) = to_text v
  items_text (cons undefined (cons w vs)) = text_append "," (items_text (cons w vs))
  items_text (cons null (cons w vs)) = text_append "," (items_text (cons w vs))
  items_text (cons v (cons w vs)) =
      text_append (to_text v) (text_append "," (items_text (cons w vs)))
