-- ===== src/Artifacts/Best.antt =====
-- The chosen artifact is an image whose key no other image passes.
use mathlib.Core.List.{Memᴰ}
use mathlib.Core.List.Memᴰ.{not-nil}
use comfyui_image_frontend.Prelude.{
  ◌≡◌, refl, sym, subst, true, false, ◌⊎◌, inl, inr, Option, none, some, List, [], ◌∷◌, All, filter,
  Bool-cases,
}
use comfyui_image_frontend.Prelude.Members.{Memᴰ-of_filter, Memᴰ-filter, All-intro, All-at}
use comfyui_image_frontend.Database.{Artifact}
use comfyui_image_frontend.Artifacts.Greatest.{
  NotAbove, max_from-first, max_from-rest, max_from-member,
}
use comfyui_image_frontend.Artifacts.{
  presentation_key, lex_lt, max_from, is_image, best_of, best_native_image,
}

-- `b` is one of the artifacts, and no image among them has a greater key.
pub record IsBest (xs : List Artifact) (b : Artifact) : Type 0 where
  pub member : Memᴰ b xs
  pub image : is_image b ≡ true
  pub greatest :
      All (λ a. is_image a ≡ true → lex_lt (presentation_key b) (presentation_key a) ≡ false) xs

-- Nothing is chosen where there is no image.
abbrev pub Chosen : List Artifact → Option Artifact → Type 0
Chosen xs none = All (λ a. is_image a ≡ false) xs
Chosen xs (some b) = IsBest xs b

chosen :
    (xs images : List Artifact)
    → filter is_image xs ≡ images
    → Chosen xs (best_of presentation_key images)
unfolding best_native_image
chosen xs [] e = All-intro _ xs λ a m. not_image a m (Bool-cases (is_image a))
  where
    not_image :
        (a : Artifact) → Memᴰ a xs → (is_image a ≡ true) ⊎ (is_image a ≡ false) → is_image a ≡ false
    not_image a m (inl h) = absurd (not-nil (subst (Memᴰ a) e (Memᴰ-filter is_image a xs m h)))
    not_image a m (inr h) = h
chosen xs (b ∷ rest) e =
    let best = max_from presentation_key b rest in
    let (member, image) =
      Memᴰ-of_filter is_image best xs
        (subst (Memᴰ best) (sym e) (max_from-member presentation_key b rest)) in
    record {
      member = member;
      image = image;
      greatest = All-intro _ xs λ a m h.
          All-at (NotAbove presentation_key best) a (b ∷ rest)
            (max_from-first presentation_key b rest, max_from-rest presentation_key b rest)
            (subst (Memᴰ a) e (Memᴰ-filter is_image a xs m h));
    }

-- Whatever images there are, the chosen artifact is one of them and none of them has a greater
-- presentation key (its role, the durability of its storage, its sequence, being first in its batch,
-- and the time of its emission, in this order); nothing is chosen exactly where there is no image.
pub best_native_image_lem : (xs : List Artifact) → Chosen xs (best_native_image xs)
unfolding best_native_image
best_native_image_lem xs = chosen xs (filter is_image xs) refl
