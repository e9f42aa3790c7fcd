-- ===== src/Finalize/Presented.antt =====
-- What is left after a finalization, and what stands for the result.
use comfyui_image_frontend.Prelude.{
  ℕ, ◌≡◌, refl, ◌∙◌, sym, subst, subst₂, ap, inl, inr, Bool, true, none, some, List, length, arith,
  Bool-cases,
}
use comfyui_image_frontend.Finalize.Images.{
  Distinct, Names, Shown, retain_partial-Shown, retain_partial-Names, salvage-member,
  retain_success-Shown, retain_success-best, retain_success-canonical,
}
use comfyui_image_frontend.Json.{Fields, truthy}
use comfyui_image_frontend.Status.{is_terminal}
use comfyui_image_frontend.Finalize.Retry.{commit-inversion}
use comfyui_image_frontend.Database.{Generation, Artifact}
use comfyui_image_frontend.Artifacts.{sort, newest_first}
use comfyui_image_frontend.Artifacts.Sorted.{Memᴰ-of_sort}
use comfyui_image_frontend.Worker.History.{Outcome, success, cancelled, failed, interrupted}
use comfyui_image_frontend.Finalize.Record.{NormalizedHistory, record_history}
use comfyui_image_frontend.Finalize.Commit.{
  Committed, succeed, fall_short, note_error, partial_error, partial_row, counts_as_cancelled,
  fail_persistence, may_retry, requeue_absent, conclude_requeued, failures_of, conclude, settle,
  commit_finalization,
}
use comfyui_image_frontend.Finalize.Retention.{
  Kept, id_of, declared_finals, presentation, salvage, retain_partial,
}

-- The artifacts that a terminal result leaves.
pub record IsPresented (c : Committed) : Type 0 where
  pub images : Shown c.artifacts
  pub best : Names (λ a. a.best_available) c.artifacts c.generation.best_available_artifact_id
  pub canonical : Names (λ a. a.canonical) c.artifacts c.generation.canonical_artifact_id
  pub count : c.generation.artifact_count ≡ length c.artifacts

conclude-succeed :
    (now : ℕ) (xs : List Artifact) (g : Generation)
    → Distinct xs
    → IsPresented (conclude now (succeed xs g))
unfolding conclude succeed
conclude-succeed now xs g distinct = record {
  images = retain_success-Shown xs distinct;
  best = retain_success-best xs (presentation xs) refl;
  canonical = retain_success-canonical xs (declared_finals xs) refl;
  count = refl;
}

note_error-ids :
    (g : Generation)
    → ((note_error g).best_available_artifact_id ≡ g.best_available_artifact_id)
      × ((note_error g).canonical_artifact_id ≡ g.canonical_artifact_id)
unfolding note_error
note_error-ids g = ground arith

partial_error-ids :
    (o : Outcome) (on_cancel : Bool) (g : Generation)
    → ((partial_error o on_cancel g).best_available_artifact_id ≡ g.best_available_artifact_id)
      × ((partial_error o on_cancel g).canonical_artifact_id ≡ g.canonical_artifact_id)
unfolding partial_error
partial_error-ids interrupted on_cancel g = (refl, refl)
partial_error-ids _ on_cancel g = ground arith

fall_short-kept :
    (o : Outcome) (xs : List Artifact) (g : Generation)
    → let best = salvage (counts_as_cancelled o g.status) xs in
      ((fall_short o xs g).generation.best_available_artifact_id ≡ id_of best)
      × ((fall_short o xs g).generation.canonical_artifact_id ≡ none)
      × ((fall_short o xs g).kept ≡ retain_partial best xs)
unfolding fall_short
fall_short-kept o xs g =
    let on_cancel = counts_as_cancelled o g.status in
    let row = partial_row o on_cancel (salvage on_cancel xs) g in
    let (b, c) = note_error-ids (partial_error o on_cancel row) in
    let (b', c') = partial_error-ids o on_cancel row in (b ∙ b', c ∙ c', refl)

conclude-fall_short :
    (now : ℕ) (o : Outcome) (xs : List Artifact) (g : Generation)
    → IsPresented (conclude now (fall_short o xs g))
unfolding conclude
conclude-fall_short now o xs g =
    let best = salvage (counts_as_cancelled o g.status) xs in
    let (named, none_canonical, kept) = fall_short-kept o xs g in
    let left = ap (λ (k : Kept). k.artifacts) kept in
    record {
      images = subst Shown (sym left) (retain_partial-Shown best xs);
      best =
          subst₂ (Names (λ a. a.best_available)) (sym left) (sym named)
            (retain_partial-Names best xs (λ b e. salvage-member _ xs e));
      canonical = subst (Names (λ a. a.canonical) _) (sym none_canonical) tt;
      count = refl;
    }

requeued_not_terminal :
    (now : ℕ) (raw : Fields) (xs : List Artifact) (g : Generation)
    → truthy (failures_of g) ≡ true
    → may_retry xs g ≡ true
    → is_terminal (settle now raw success xs g).generation.status ≡ true
    → ⊥
unfolding settle conclude_requeued requeue_absent is_terminal
requeued_not_terminal now raw xs g some_failed again t = cc (rw (some_failed, again) at t)

settle-IsPresented :
    (now : ℕ) (raw : Fields) (o : Outcome) (xs : List Artifact) (g : Generation)
    → Distinct xs
    → is_terminal (settle now raw o xs g).generation.status ≡ true
    → IsPresented (settle now raw o xs g)
unfolding settle
settle-IsPresented now raw success xs g distinct t = elim (Bool-cases (truthy (failures_of g))) [
  | inr none_failed ↦ rw none_failed (conclude-succeed now xs g distinct)
  | inl some_failed ↦ elim (Bool-cases (may_retry xs g)) [
    | inl again ↦ absurd (requeued_not_terminal now raw xs g some_failed again t)
    | inr over ↦ rw (some_failed, over) (conclude-fall_short now failed xs (fail_persistence g))
  ]
]
settle-IsPresented now raw cancelled xs g distinct t = conclude-fall_short now cancelled xs g
settle-IsPresented now raw failed xs g distinct t = conclude-fall_short now failed xs g
settle-IsPresented now raw interrupted xs g distinct t = conclude-fall_short now interrupted xs g

-- After a finalization that leaves a terminal status, over artifacts with distinct ids: every image
-- that is left is canonical or the best available one; the ids of the best available and of the
-- canonical artifact, where the row has them, name artifacts that are left and marked so; and the
-- row counts the artifacts that are left.
pub commit_finalization-IsPresented :
    (now : ℕ) (raw : Fields) (n : NormalizedHistory) (o : Outcome) (artifacts : List Artifact)
    (g : Generation) {c : Committed}
    → Distinct artifacts
    → commit_finalization now raw n o artifacts g ≡ some c
    → is_terminal c.generation.status ≡ true
    → IsPresented c
commit_finalization-IsPresented now raw n o artifacts g {c} distinct h t =
    let (_, e) = commit-inversion now raw n o artifacts g h in
    let xs = sort newest_first artifacts in
    let unsorted = λ (a : Artifact). Memᴰ-of_sort newest_first a artifacts in
    subst IsPresented e (
      settle-IsPresented now raw o xs (record_history raw n o g)
        (λ a b m k. distinct a b (unsorted a m) (unsorted b k))
        (subst (λ (d : Committed). is_terminal d.generation.status ≡ true) (sym e) t))
