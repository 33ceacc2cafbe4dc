-- ===== src/Json/Sorting.antt =====
-- hdv-foundation/config/hash.ts, `sortValue`: the keys of every object in order, at every depth.
use hdv_orchestrator.Common.{String, true, false, if◌then◌else◌, ◌≡◌, refl, ap, ◌∙◌, ◌≢◌, arith}
use mathlib.Core.Path.{ap₂}
use hdv_orchestrator.Json.{
  Json, undefined, null, boolean, number, string, array, object, Items, nil, cons, Fields, end,
  field,
}
use hdv_orchestrator.Text.{codes}
use hdv_orchestrator.Text.Order.{text_lt, codes_lt_irrefl, codes_lt_trans, codes_lt_total}
use hdv_orchestrator.Text.Codes.{codes_inj}

-- A stable insertion sort, as `Array.prototype.sort` is stable.
pub insert_field : String → Json → Fields → Fields
insert_field k v end = field k v end
insert_field k v (field j w fs) =
    let rest = insert_field k v fs in
    if text_lt j k then field j w rest else field k v (field j w fs)

unfoldable mutual
  unfolding insert_field

  pub sort_value : Json → Json
  sort_value (array xs) = array (sort_items xs)
  sort_value (object fs) = object (sort_fields fs)
  sort_value undefined = undefined
  sort_value null = null
  sort_value (boolean b) = boolean b
  sort_value (number n) = number n
  sort_value (string s) = string s

  pub sort_items : Items → Items
  sort_items nil = nil
  sort_items (cons x xs) = cons (sort_value x) (sort_items xs)

  pub sort_fields : Fields → Fields
  sort_fields end = end
  sort_fields (field k v fs) = insert_field k (sort_value v) (sort_fields fs)

text_lt_trans : (a b c : String) → text_lt a b ≡ true → text_lt b c ≡ true → text_lt a c ≡ true
unfolding text_lt
text_lt_trans a b c = codes_lt_trans (codes a) (codes b) (codes c)

text_lt_total : (a b : String) → text_lt a b ≡ false → text_lt b a ≡ false → a ≡ b
unfolding text_lt
text_lt_total a b h k = codes_inj a b (codes_lt_total (codes a) (codes b) h k)

text_lt_asymm : (a b : String) → text_lt a b ≡ true → text_lt b a ≡ true → ⊥
unfolding text_lt
text_lt_asymm a b h k =
    cc (codes_lt_trans (codes a) (codes b) (codes a) h k, codes_lt_irrefl (codes a))

pub insert_field_comm :
    (a b : String) (v w : Json) (fs : Fields)
    → a ≢ b
    → insert_field a v (insert_field b w fs) ≡ insert_field b w (insert_field a v fs)
unfolding insert_field
insert_field_comm a b v w end ne = ground (arith, text_lt_total a b, text_lt_asymm a b)
insert_field_comm a b v w (field c u fs) ne = ground (
  arith,
  insert_field_comm a b v w fs ne,
  text_lt_total a b,
  text_lt_asymm a b,
  text_lt_trans a b c,
  text_lt_trans b a c,
  text_lt_trans c a b,
  text_lt_trans c b a,
  text_lt_total a c,
  text_lt_total b c,
)

-- Two values that differ only in the order of the keys of their objects, at any depth.
mutual
  pub data Reorders : Json → Json → Type 0 where
    same : (v : Json) → Reorders v v
    both : {u v w : Json} → Reorders u v → Reorders v w → Reorders u w
    in_array : {xs ys : Items} → ReordersItems xs ys → Reorders (array xs) (array ys)
    in_object : {fs gs : Fields} → ReordersFields fs gs → Reorders (object fs) (object gs)

  pub data ReordersItems : Items → Items → Type 0 where
    nils : ReordersItems nil nil
    conses :
        {x y : Json} {xs ys : Items}
        → Reorders x y
        → ReordersItems xs ys
        → ReordersItems (cons x xs) (cons y ys)

  pub data ReordersFields : Fields → Fields → Type 0 where
    ends : ReordersFields end end
    swap :
        (a b : String) (v w : Json) (fs : Fields)
        → a ≢ b
        → ReordersFields (field a v (field b w fs)) (field b w (field a v fs))
    under :
        (k : String) {v w : Json} {fs gs : Fields}
        → Reorders v w
        → ReordersFields fs gs
        → ReordersFields (field k v fs) (field k w gs)
    then_fields :
        {fs gs hs : Fields} → ReordersFields fs gs → ReordersFields gs hs → ReordersFields fs hs

mutual
  unfolding sort_value

  sort_value-Reorders : {v w : Json} → Reorders v w → sort_value v ≡ sort_value w
  sort_value-Reorders (same v) = refl
  sort_value-Reorders (both r s) = sort_value-Reorders r ∙ sort_value-Reorders s
  sort_value-Reorders (in_array r) = ap array (sort_items-Reorders r)
  sort_value-Reorders (in_object r) = ap object (sort_fields-Reorders r)

  sort_items-Reorders : {xs ys : Items} → ReordersItems xs ys → sort_items xs ≡ sort_items ys
  sort_items-Reorders nils = refl
  sort_items-Reorders (conses r s) = ap₂ cons (sort_value-Reorders r) (sort_items-Reorders s)

  sort_fields-Reorders : {fs gs : Fields} → ReordersFields fs gs → sort_fields fs ≡ sort_fields gs
  sort_fields-Reorders ends = refl
  sort_fields-Reorders (swap a b v w fs ne) =
      insert_field_comm a b (sort_value v) (sort_value w) (sort_fields fs) ne
  sort_fields-Reorders (under k r s) =
      ap₂ (insert_field k) (sort_value-Reorders r) (sort_fields-Reorders s)
  sort_fields-Reorders (then_fields r s) = sort_fields-Reorders r ∙ sort_fields-Reorders s

-- What the order of keys cannot change, outside the block.
pub sort_value_of_Reorders : (v w : Json) → Reorders v w → sort_value v ≡ sort_value w
sort_value_of_Reorders v w r = sort_value-Reorders r
