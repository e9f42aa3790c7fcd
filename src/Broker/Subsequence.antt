-- ===== src/Broker/Subsequence.antt =====
-- A list that leaves out some elements of another.
use comfyui_image_frontend.Prelude.{List, [], ◌∷◌, ◌++◌}

pub data Subsequence {A : Type 0} : List A → List A → Type 0 where
  done : Subsequence [] []
  keep : (x : A) {xs ys : List A} → Subsequence xs ys → Subsequence (x ∷ xs) (x ∷ ys)
  skip : (y : A) {xs ys : List A} → Subsequence xs ys → Subsequence xs (y ∷ ys)

pub keep_last :
    {A : Type 0} {xs ys : List A} (z : A)
    → Subsequence xs ys
    → Subsequence (xs ++ z ∷ []) (ys ++ z ∷ [])
keep_last z done = keep z done
keep_last z (keep x s) = keep x (keep_last z s)
keep_last z (skip y s) = skip y (keep_last z s)

pub skip_last :
    {A : Type 0} {xs ys : List A} (z : A) → Subsequence xs ys → Subsequence xs (ys ++ z ∷ [])
skip_last z done = skip z done
skip_last z (keep x s) = keep x (skip_last z s)
skip_last z (skip y s) = skip y (skip_last z s)
