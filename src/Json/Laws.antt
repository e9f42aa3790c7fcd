-- ===== src/Json/Laws.antt =====
-- Reading a mapping after a write or a removal.
use comfyui_image_frontend.Prelude.{
  String, none, some, ◌≡◌, refl, ◌∙◌, ap, List, [], ◌∷◌, arith, str_eq, str_eq_iff, if◌then◌else◌,
}
use comfyui_image_frontend.Json.{Value, Fields, end, field, items, from_items, get, put, remove}

pub get-put :
    (k j : String) (v : Value) (m : Fields)
    → get j (put k v m) ≡ (if str_eq k j then some v else get j m)
get-put k j v end = refl
get-put k j v (field i w m) =
    ground (arith, str_eq_iff k j, str_eq_iff i k, str_eq_iff i j, get-put k j v m)

pub get-remove :
    (k j : String) (m : Fields) → get j (remove k m) ≡ (if str_eq k j then none else get j m)
get-remove k j end = ground arith
get-remove k j (field i w m) =
    ground (arith, str_eq_iff k j, str_eq_iff i k, str_eq_iff i j, get-remove k j m)

pub get-put_self : (k j : String) (v : Value) (m : Fields) → k ≡ j → get j (put k v m) ≡ some v
get-put_self k j v m e = get-put k j v m ∙ rw ((str_eq_iff k j).1 e) refl

pub items-from_items : (vs : List Value) → items (from_items vs) ≡ vs
items-from_items [] = refl
items-from_items (v ∷ vs) = ap (λ ws. v ∷ ws) (items-from_items vs)
