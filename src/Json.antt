-- ===== src/Json.antt =====
-- The values of Python's `json` module, as the application stores them in JSON columns and reads
-- them from ComfyUI and from the LLM Router. A mapping is its items in insertion order.
pub mod Laws
use comfyui_image_frontend.Prelude.{
  ℕ, zero, suc, ◌*◌, ◌^◌, String, Bool, true, false, not, ◌&&◌, Option, none, some, List, [], ◌∷◌,
  ◌==◌, if◌then◌else◌, str_eq,
}
use comfyui_image_frontend.Prelude.Int.{ℤ, pos, negsuc, ltb_ℤ}

-- A binary64 number by its value: `finite m k` is m / 2 ^ k.
pub data Double : Type 0 where
  finite : ℤ → ℕ → Double
  infinity : Bool → Double
  nan : Double

mutual
  pub data Value : Type 0 where
    null : Value
    bool : Bool → Value
    int : ℤ → Value
    float : Double → Value
    str : String → Value
    list : Values → Value
    dict : Fields → Value

  pub data Values : Type 0 where
    nil : Values
    cons : Value → Values → Values

  pub data Fields : Type 0 where
    end : Fields
    field : String → Value → Fields → Fields

abbrev pub items : Values → List Value
items nil = []
items (cons v vs) = v ∷ items vs

abbrev pub from_items : List Value → Values
from_items [] = nil
from_items (v ∷ vs) = cons v (from_items vs)

-- `mapping.get(key)`
abbrev pub get : String → Fields → Option Value
get k end = none
get k (field j v r) = if str_eq j k then some v else get k r

-- `mapping.get(key, default)`
abbrev pub get_or : String → Fields → Value → Value
get_or k m d = elim (get k m) [ none ↦ d | some v ↦ v ]

-- `mapping[key] = value`: an old key keeps its place.
abbrev pub put : String → Value → Fields → Fields
put k v end = field k v end
put k v (field j w r) = if str_eq j k then field j v r else field j w (put k v r)

-- `mapping.pop(key, None)`
abbrev pub remove : String → Fields → Fields
remove k end = end
remove k (field j v r) = let rest = remove k r in if str_eq j k then rest else field j v rest

abbrev pub size : Fields → ℕ
size end = 0
size (field k v r) = suc (size r)

abbrev pub is_mapping : Value → Bool
is_mapping (dict m) = true
is_mapping _ = false

abbrev pub is_zero : Double → Bool
is_zero (finite (pos zero) k) = true
is_zero _ = false

-- `bool(value)`
abbrev pub truthy : Value → Bool
truthy null = false
truthy (bool b) = b
truthy (int (pos zero)) = false
truthy (int _) = true
truthy (float d) = not (is_zero d)
truthy (str s) = not (str_eq s "")
truthy (list nil) = false
truthy (list (cons v vs)) = true
truthy (dict end) = false
truthy (dict (field k v r)) = true

-- A number for `==`, which holds between `True`, `1` and `1.0`.
abbrev pub number : Value → Option Double
number (bool true) = some (finite (pos 1) 0)
number (bool false) = some (finite (pos 0) 0)
number (int n) = some (finite n 0)
number (float d) = some d
number _ = none

abbrev scaled : ℤ → ℕ → ℤ
scaled (pos m) k = pos (m * 2 ^ k)
scaled (negsuc m) k = elim (suc m * 2 ^ k) [ zero ↦ pos 0 | suc n ↦ negsuc n ]

abbrev eq_ℤ : ℤ → ℤ → Bool
eq_ℤ (pos a) (pos b) = a == b
eq_ℤ (negsuc a) (negsuc b) = a == b
eq_ℤ _ _ = false

-- Comparison of numbers; nothing compares with nan.
unfoldable pub double_eq : Double → Double → Bool
double_eq (finite m k) (finite n j) = eq_ℤ (scaled m j) (scaled n k)
double_eq (infinity true) (infinity true) = true
double_eq (infinity false) (infinity false) = true
double_eq _ _ = false

pub double_lt : Double → Double → Bool
double_lt (finite m k) (finite n j) = ltb_ℤ (scaled m j) (scaled n k)
double_lt (finite m k) (infinity positive) = positive
double_lt (infinity positive) (finite n j) = not positive
double_lt (infinity false) (infinity true) = true
double_lt _ _ = false

-- `a == b`
unfoldable mutual
  pub value_eq : Value → Value → Bool
  value_eq null null = true
  value_eq (str s) (str t) = str_eq s t
  value_eq (list vs) (list ws) = values_eq vs ws
  value_eq (dict m) (dict n) = (size m == size n) && fields_eq m n
  value_eq (bool b) w = elim (number w) [
    | none ↦ false
    | some d ↦ elim (number (bool b)) [ none ↦ false | some e ↦ double_eq e d ]
  ]
  value_eq (int n) w = elim (number w) [ none ↦ false | some d ↦ double_eq (finite n 0) d ]
  value_eq (float e) w = elim (number w) [ none ↦ false | some d ↦ double_eq e d ]
  value_eq _ _ = false

  pub values_eq : Values → Values → Bool
  values_eq nil nil = true
  values_eq (cons v vs) (cons w ws) = value_eq v w && values_eq vs ws
  values_eq _ _ = false

  -- Every item of the first mapping is in the second.
  pub fields_eq : Fields → Fields → Bool
  fields_eq end n = true
  fields_eq (field k v r) n = elim (get k n) [
    | none ↦ false
    | some w ↦ value_eq v w && fields_eq r n
  ]
