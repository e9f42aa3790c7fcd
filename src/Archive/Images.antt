-- ===== src/Archive/Images.antt =====
-- The invariant of a generation's archive, kept by every insertion.
use mathlib.Core.List.{Memᴰ}
use mathlib.Core.List.Memᴰ.{append_right}
use comfyui_image_frontend.Prelude.{
  ℕ, ◌≡◌, ◌≢◌, refl, sym, ap, subst, inl, inr, String, true, false, some, List, map, ltb, arith,
  str_eq,
}
use comfyui_image_frontend.Database.{Generation, Artifact}
use comfyui_image_frontend.Artifacts.{is_image}
use comfyui_image_frontend.Finalize.Images.{Distinct}
use comfyui_image_frontend.Archive.{
  Declaration, StoredImage, Archived, current_image, is_outdated, same_slot, supersede,
  new_artifact, replaces, kept_rows, retain_artifact, insert_artifact,
}
use comfyui_image_frontend.Archive.Stage.{
  IsArchived, current_image-some, insert_artifact-inversion, same_slot-sym, Memᴰ-of_kept,
}

left_alone :
    (a c k : Artifact)
    → is_image a ≡ true
    → is_image k ≡ true
    → ltb a.sequence c.sequence ≡ false
    → k.sequence ≡ c.sequence
    → replaces a (some c) k ≡ false
    → (k.sequence ≡ a.sequence) × (same_slot a k ≡ false)
unfolding replaces
left_alone a c k ia ik late stage h = ground arith

module _ (d : Declaration) (a : Artifact) (g : Generation) (xs : List Artifact)
    (inv : IsArchived g xs)
    (late : is_image a ≡ true
      → (c : Artifact) → current_image xs ≡ some c
      → ltb a.sequence c.sequence ≡ false)
    (fresh : (b : Artifact) → Memᴰ b xs → b.id ≢ a.id) where
  beside :
      (b : Artifact)
      → Memᴰ b xs
      → replaces a (current_image xs) (supersede d b) ≡ false
      → is_image a ≡ true
      → is_image b ≡ true
      → (b.sequence ≡ a.sequence) × (same_slot a b ≡ false)
  beside b m h ia ib =
      let (c, e, n, ic) = current_image-some xs b m ib in
      left_alone a c (supersede d b) ia ib (late ia c e) (inv.one_stage b c m n ib ic) (rw e at h)

  -- Two rows that are left, by where they come from.
  module _ (P : Artifact → Artifact → Type 0) (flip : (j k : Artifact) → P j k → P k j)
      (old : (b c : Artifact) → Memᴰ b xs → Memᴰ c xs → P (supersede d b) (supersede d c))
      (mixed : (b : Artifact)
        → Memᴰ b xs
        → replaces a (current_image xs) (supersede d b) ≡ false
        → P (supersede d b) a)
      (new : P a a) where
    pairs :
        (j k : Artifact)
        → Memᴰ j (kept_rows (map (supersede d) xs) (current_image xs) a)
        → Memᴰ k (kept_rows (map (supersede d) xs) (current_image xs) a)
        → P j k
    pairs j k m n = elim (Memᴰ-of_kept d xs (current_image xs) a j m) [
      | inl (b, mb, e, h) ↦ elim (Memᴰ-of_kept d xs (current_image xs) a k n) [
        | inl (c, mc, e', h') ↦ rw (e, e') (old b c mb mc)
        | inr e' ↦ rw (e, e') (mixed b mb (rw e at h))
      ]
      | inr e ↦ elim (Memᴰ-of_kept d xs (current_image xs) a k n) [
        | inl (c, mc, e', h') ↦ rw (e, e') (flip (supersede d c) a (mixed c mc (rw e' at h')))
        | inr e' ↦ rw (e, e') new
      ]
    ]

  abbrev rows : List Artifact
  rows = kept_rows (map (supersede d) xs) (current_image xs) a

  rows-one_stage :
      (j k : Artifact)
      → Memᴰ j rows
      → Memᴰ k rows
      → is_image j ≡ true
      → is_image k ≡ true
      → j.sequence ≡ k.sequence
  rows-one_stage =
      pairs (λ j k. is_image j ≡ true → is_image k ≡ true → j.sequence ≡ k.sequence)
        (λ j k h ik ij. sym (h ij ik)) (λ b c m n. inv.one_stage b c m n)
        (λ b m h ib ia. (beside b m h ia ib).0) (λ i i'. refl)

  rows-one_each :
      (j k : Artifact)
      → Memᴰ j rows
      → Memᴰ k rows
      → is_image j ≡ true
      → is_image k ≡ true
      → same_slot j k ≡ true
      → j ≡ k
  rows-one_each =
      pairs (λ j k. is_image j ≡ true → is_image k ≡ true → same_slot j k ≡ true → j ≡ k)
        (λ j k h ik ij s. sym (h ij ik (same_slot-sym k j s)))
        (λ b c m n ib ic s. ap (supersede d) (inv.one_each b c m n ib ic s))
        (λ b m h ib ia s.
          let e : same_slot a b ≡ false = (beside b m h ia ib).1 in
          let e' : same_slot a b ≡ true = same_slot-sym b a s in absurd (cc))
        (λ i i' s. refl)

  rows-Distinct : Distinct rows
  rows-Distinct =
      pairs (λ j k. j.id ≡ k.id → j ≡ k) (λ j k h e. sym (h (sym e)))
        (λ b c m n e. ap (supersede d) (inv.ids b c m n e)) (λ b m h e. absurd (fresh b m e))
        (λ e. refl)

-- An insertion that retains the file keeps the archive in order: all images are of one stage, each
-- place of a batch has one image, ids occur once, and the count is that of the rows; and where the
-- new artifact is an image, every image that is left has the new one's sequence. Its id must be
-- new.
pub insert_artifact-IsArchived :
    (now : ℕ) (i : String) (d : Declaration) (stored : StoredImage) (g : Generation)
    (xs : List Artifact) (r : Archived)
    → IsArchived g xs
    → ((b : Artifact) → Memᴰ b xs → b.id ≢ i)
    → insert_artifact now i d stored g xs ≡ some r
    → IsArchived r.generation r.artifacts
      × ((b : Artifact)
          → Memᴰ b r.artifacts
          → str_eq d.kind "image" ≡ true
          → is_image b ≡ true
          → b.sequence ≡ d.resolved_sequence)
unfolding new_artifact retain_artifact
insert_artifact-IsArchived now i d stored g xs r inv fresh h =
    let a : Artifact = new_artifact now i d stored g xs in
    let (_, e, p) = insert_artifact-inversion now i d stored g xs h in
    subst
      (λ (r : Archived).
        IsArchived r.generation r.artifacts
        × ((b : Artifact)
            → Memᴰ b r.artifacts
            → str_eq d.kind "image" ≡ true
            → is_image b ≡ true
            → b.sequence ≡ d.resolved_sequence))
      p
      (
        record {
          one_stage = rows-one_stage d a g xs inv (not_late e) fresh;
          one_each = rows-one_each d a g xs inv (not_late e) fresh;
          ids = rows-Distinct d a g xs inv (not_late e) fresh;
          counted = refl;
        },
        λ b m ia ib.
            rows-one_stage d a g xs inv (not_late e) fresh b a m (append_right _ (Memᴰ.head refl))
              ib ia,
      )
  where
    not_late :
        is_outdated d (current_image xs) ≡ false
        → str_eq d.kind "image" ≡ true
        → (c : Artifact) → current_image xs ≡ some c
        → ltb d.resolved_sequence c.sequence ≡ false
    not_late e ia c q = ground (arith, rw q at e)
