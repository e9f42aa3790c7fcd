-- ===== src/Archive/Stale.antt =====
-- Which image the row names as the best available one after an insertion.
use mathlib.Core.List.{Memᴰ}
use mathlib.Core.List.Memᴰ.{append_left, append_right}
use comfyui_image_frontend.Prelude.{
  ℕ, ◌≡◌, ◌≢◌, refl, sym, ap, ◌∙◌, subst, ◌⊎◌, inl, inr, String, true, false, not, ◌&&◌, ◌||◌,
  Option, none, some, List, map, ltb, ◌==◌, arith, Bool-cases, str_eq, str_eq_iff,
}
use comfyui_image_frontend.Prelude.Members.{Memᴰ-filter, Memᴰ-map}
use comfyui_image_frontend.Database.{Generation, Artifact}
use comfyui_image_frontend.Artifacts.{is_image, is_better_presentation_candidate}
use comfyui_image_frontend.Finalize.Retention.{id_of}
use comfyui_image_frontend.Finalize.Images.{Names}
use comfyui_image_frontend.Archive.{
  Declaration, StoredImage, Archived, current_image, supersede, new_artifact, replaces, best_after,
  kept_rows, retain_artifact, insert_artifact,
}
use comfyui_image_frontend.Archive.Stage.{
  insert_artifact-inversion, Memᴰ-of_kept, current_image-member,
}

-- An artifact takes the place of the file: the same stage, output and index of the batch.
pub record InPlaceOf (d : Declaration) (b : Artifact) : Type 0 where
  pub image : is_image b ≡ true
  pub stage : b.sequence ≡ d.resolved_sequence
  pub output : b.output_id ≡ d.output_id
  pub index : b.batch_index ≡ d.batch_index

-- The current image stands in another place of the same stage, which the new one does not advance.
pub record StandsBeside (d : Declaration) (c : Artifact) : Type 0 where
  pub stage : c.sequence ≡ d.resolved_sequence
  pub elsewhere : str_eq c.output_id d.output_id && (c.batch_index == d.batch_index) ≡ false
  pub behind : (d.batch_index == 0) && not (c.batch_index == 0) ≡ false

in_place-replaced :
    (a c b : Artifact)
    → is_image a ≡ true
    → is_image b ≡ true
    → a.sequence ≡ c.sequence
    → b.sequence ≡ a.sequence
    → str_eq b.output_id a.output_id ≡ true
    → b.batch_index ≡ a.batch_index
    → replaces a (some c) b ≡ true
unfolding replaces
in_place-replaced a c b ia ib sc sb o k = ground arith

beside-keeps_best :
    (a c : Artifact) (best : Option String)
    → a.sequence ≡ c.sequence
    → str_eq c.output_id a.output_id && (c.batch_index == a.batch_index) ≡ false
    → (a.batch_index == 0) && not (c.batch_index == 0) ≡ false
    → best_after a (some c) best ≡ best
unfolding best_after replaces is_better_presentation_candidate
beside-keeps_best a c best sc e b = ground arith

-- Where the image that the row names as the best one is not the current image of the archive, a new
-- file for its place deletes it and the row goes on naming it: no artifact with that id is left.
-- The conditions are that the file is retained, that it is an image of the stage of the current
-- image and advances it neither to a later stage nor to the first place of a batch, that the current
-- image has another place than the file, that the artifact of the named id has the file's place,
-- and that the new id is another one.
pub insert_artifact-loses_best :
    (now : ℕ) (i : String) (d : Declaration) (stored : StoredImage) (g : Generation)
    (xs : List Artifact) (r : Archived) (c : Artifact) (x : String)
    → insert_artifact now i d stored g xs ≡ some r
    → str_eq d.kind "image" ≡ true
    → current_image xs ≡ some c
    → StandsBeside d c
    → g.best_available_artifact_id ≡ some x
    → ((b : Artifact) → Memᴰ b xs → b.id ≡ x → InPlaceOf d b)
    → i ≢ x
    → (r.generation.best_available_artifact_id ≡ some x)
      × ((b : Artifact) → Memᴰ b r.artifacts → b.id ≢ x)
unfolding new_artifact retain_artifact
insert_artifact-loses_best now i d stored g xs r c x h k q beside best place ne =
    let a : Artifact = new_artifact now i d stored g xs in
    let (_, _, p) = insert_artifact-inversion now i d stored g xs h in
    subst
      (λ (r : Archived).
        (r.generation.best_available_artifact_id ≡ some x)
        × ((b : Artifact) → Memᴰ b r.artifacts → b.id ≢ x))
      p
      (
        rw q (
            beside-keeps_best a c g.best_available_artifact_id (sym beside.stage) beside.elsewhere
              beside.behind
            ∙ best),
        λ b m e. gone b e m,
      )
  where
    gone :
        (b : Artifact)
        → b.id ≡ x
        → Memᴰ b
            (kept_rows (map (supersede d) xs) (current_image xs) (new_artifact now i d stored g xs))
        → ⊥
    gone b be m =
        let a : Artifact = new_artifact now i d stored g xs in
        elim (Memᴰ-of_kept d xs (current_image xs) a b m) [
          | inl (b', n, e, free) ↦
              let p = place b' n (ap (λ (b : Artifact). b.id) (sym e) ∙ be) in
              let kept : replaces a (some c) (supersede d b') ≡ false = rw (q, e) at free in
              let gone : replaces a (some c) (supersede d b') ≡ true =
                in_place-replaced a c (supersede d b') k p.image (sym beside.stage) p.stage
                  ((str_eq_iff b'.output_id d.output_id).1 p.output) p.index in
              absurd (cc)
          | inr e ↦ ne (ap (λ (b : Artifact). b.id) (sym e) ∙ be)
        ]

-- The new image stands, or what stood does and the current image is left.
new-best :
    (a c : Artifact) (best : Option String)
    → ((is_image a ≡ true) × (best_after a (some c) best ≡ some a.id))
      ⊎ ((best_after a (some c) best ≡ best) × (replaces a (some c) c ≡ false))
unfolding best_after replaces is_better_presentation_candidate
new-best a c best = elim (Bool-cases (is_image a)) [
  | inl e ↦
      elim (Bool-cases (
        is_better_presentation_candidate a c
        || (not (ltb c.sequence a.sequence) && replaces a (some c) c))) [
          | inl h ↦ inl (e, ground arith)
          | inr h ↦ inr (ground arith, ground arith)
        ]
  | inr e ↦ inr (ground arith, ground arith)
]

first-best :
    (a : Artifact) (best : Option String)
    → ((is_image a ≡ true) × (best_after a none best ≡ some a.id)) ⊎ (best_after a none best ≡ best)
unfolding best_after
first-best a best = ground arith

Memᴰ-kept :
    (d : Declaration) (xs : List Artifact) (current : Option Artifact) (a b : Artifact)
    → Memᴰ b xs
    → replaces a current (supersede d b) ≡ false
    → Memᴰ (supersede d b) (kept_rows (map (supersede d) xs) current a)
Memᴰ-kept d xs current a b m h = append_left _ (
    Memᴰ-filter (λ b. not (replaces a current b)) (supersede d b) _ (Memᴰ-map (supersede d) b xs m)
      (ap not h))

free :
    (d : Declaration) (a c : Artifact)
    → replaces a (some c) c ≡ false
    → replaces a (some c) (supersede d c) ≡ false
unfolding replaces
free d a c h = h

best-Names :
    (d : Declaration) (xs : List Artifact) (current : Option Artifact) (a : Artifact)
    → current_image xs ≡ current
    → Names is_image
        (kept_rows (map (supersede d) xs) current a)
        (best_after a current (id_of current))
best-Names d xs none a q = elim (first-best a none) [
  | inl (i, e) ↦ rw e (a, append_right _ (Memᴰ.head refl), refl, i)
  | inr e ↦ rw e tt
]
best-Names d xs (some c) a q = elim (new-best a c (some c.id)) [
  | inl (i, e) ↦ rw e (a, append_right _ (Memᴰ.head refl), refl, i)
  | inr (e, h) ↦
      let (m, i) = current_image-member xs c q in
      rw e (supersede d c, Memᴰ-kept d xs (some c) a c m (free d a c h), refl, i)
]

-- Where the row named the current image of the archive, or there was none, an insertion that retains
-- the file leaves the row naming an image that is left, if it names any.
pub insert_artifact-Names :
    (now : ℕ) (i : String) (d : Declaration) (stored : StoredImage) (g : Generation)
    (xs : List Artifact) (r : Archived)
    → insert_artifact now i d stored g xs ≡ some r
    → g.best_available_artifact_id ≡ id_of (current_image xs)
    → Names is_image r.artifacts r.generation.best_available_artifact_id
unfolding retain_artifact
insert_artifact-Names now i d stored g xs r h best =
    let a : Artifact = new_artifact now i d stored g xs in
    let (_, _, p) = insert_artifact-inversion now i d stored g xs h in
    subst (λ (r : Archived). Names is_image r.artifacts r.generation.best_available_artifact_id) p
      (subst
        (λ (b : Option String).
          Names is_image (kept_rows (map (supersede d) xs) (current_image xs) a)
            (best_after a (current_image xs) b))
        (sym best) (best-Names d xs (current_image xs) a refl))
