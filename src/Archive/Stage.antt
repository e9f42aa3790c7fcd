-- ===== src/Archive/Stage.antt =====
-- What an insertion leaves in the archive of a generation.
use mathlib.Core.List.{Memᴰ}
use mathlib.Core.List.Memᴰ.{not-nil, append_cases}
use comfyui_image_frontend.Prelude.{
  ℕ, ◌≡◌, refl, sym, subst, ◌⊎◌, inl, inr, String, true, false, not, Option, some, List, [], ◌∷◌,
  map, filter, any, length, arith, Bool-cases, str_eq_iff, some_inj,
}
use comfyui_image_frontend.Prelude.Members.{Memᴰ-of_filter, Memᴰ-filter, Memᴰ-of_map}
use comfyui_image_frontend.Database.{Generation, Artifact}
use comfyui_image_frontend.Artifacts.{is_image, max_from, best_of}
use comfyui_image_frontend.Artifacts.Greatest.{max_from-member}
use comfyui_image_frontend.Finalize.Images.{Distinct}
use comfyui_image_frontend.Archive.{
  Declaration, StoredImage, Archived, archive_key, current_image, is_duplicate, is_outdated,
  same_slot, supersede, new_artifact, replaces, kept_rows, retain_artifact, insert_artifact,
}

-- All images are of one stage, each place of a batch has one image, ids occur once, and the count is
-- that of the rows.
pub record IsArchived (g : Generation) (xs : List Artifact) : Type 0 where
  pub one_stage :
      (a b : Artifact)
      → Memᴰ a xs
      → Memᴰ b xs
      → is_image a ≡ true
      → is_image b ≡ true
      → a.sequence ≡ b.sequence
  pub one_each :
      (a b : Artifact)
      → Memᴰ a xs
      → Memᴰ b xs
      → is_image a ≡ true
      → is_image b ≡ true
      → same_slot a b ≡ true
      → a ≡ b
  pub ids : Distinct xs
  pub counted : g.artifact_count ≡ length xs

-- Where there is an image, one of them is current.
pub current_image-some :
    (xs : List Artifact) (b : Artifact)
    → Memᴰ b xs
    → is_image b ≡ true
    → (c : Artifact) × (current_image xs ≡ some c) × Memᴰ c xs × (is_image c ≡ true)
unfolding current_image
current_image-some xs b m i = from (filter is_image xs) refl (Memᴰ-filter is_image b xs m i)
  where
    from :
        (ys : List Artifact)
        → filter is_image xs ≡ ys
        → Memᴰ b ys
        → (c : Artifact) × (current_image xs ≡ some c) × Memᴰ c xs × (is_image c ≡ true)
    from [] e n = absurd (not-nil n)
    from (y ∷ ys) e n =
        let c : Artifact = max_from archive_key y ys in
        let (k, h) =
          Memᴰ-of_filter is_image c xs
            (subst (Memᴰ c) (sym e) (max_from-member archive_key y ys)) in
        (c, rw e refl, k, h)

pub current_image-member :
    (xs : List Artifact) (c : Artifact)
    → current_image xs ≡ some c
    → Memᴰ c xs × (is_image c ≡ true)
unfolding current_image
current_image-member xs c e = from (filter is_image xs) refl e
  where
    from :
        (ys : List Artifact)
        → filter is_image xs ≡ ys
        → best_of archive_key ys ≡ some c
        → Memᴰ c xs × (is_image c ≡ true)
    from [] q h = absurd (cc)
    from (y ∷ ys) q h = Memᴰ-of_filter is_image c xs (
        subst (Memᴰ c) (sym q)
          (subst (λ c. Memᴰ c (y ∷ ys)) (some_inj h) (max_from-member archive_key y ys)))

-- The parts of an insertion that retains the file.
pub insert_artifact-inversion :
    (now : ℕ) (i : String) (d : Declaration) (stored : StoredImage) (g : Generation)
    (xs : List Artifact) {r : Archived}
    → insert_artifact now i d stored g xs ≡ some r
    → (any (is_duplicate d stored) xs ≡ false)
      × (is_outdated d (current_image xs) ≡ false)
      × (retain_artifact now g
            (map (supersede d) xs)
            (current_image xs)
            (new_artifact now i d stored g xs)
          ≡ r)
unfolding insert_artifact
insert_artifact-inversion now i d stored g xs h =
    elim (Bool-cases (any (is_duplicate d stored) xs)) [
      | inl e ↦ absurd (cc (rw e at h))
      | inr e ↦ elim (Bool-cases (is_outdated d (current_image xs))) [
        | inl k ↦ absurd (cc (rw (e, k) at h))
        | inr k ↦ (e, k, some_inj (rw (e, k) at h))
      ]
    ]

pub same_slot-sym : (a b : Artifact) → same_slot a b ≡ true → same_slot b a ≡ true
same_slot-sym a b h =
    ground (arith, str_eq_iff a.output_id b.output_id, str_eq_iff b.output_id a.output_id)

module _ (d : Declaration) (rows : List Artifact) (current : Option Artifact) (a : Artifact) where
  -- What is left is the new artifact, or an old one that it does not replace.
  pub Memᴰ-of_kept :
      (k : Artifact)
      → Memᴰ k (kept_rows (map (supersede d) rows) current a)
      → ((b : Artifact) × Memᴰ b rows × (k ≡ supersede d b) × (replaces a current k ≡ false))
        ⊎ (k ≡ a)
  Memᴰ-of_kept k m = elim (append_cases (filter (λ b. not (replaces a current b)) _) m) [
    | inl n ↦
        let (n', h) = Memᴰ-of_filter (λ b. not (replaces a current b)) k _ n in
        let (b, n'', e) = Memᴰ-of_map (supersede d) k rows n' in inl (b, n'', e, ground arith)
    | inr (Memᴰ.head e) ↦ inr e
    | inr (Memᴰ.tail n) ↦ absurd (not-nil n)
  ]
