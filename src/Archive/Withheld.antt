-- ===== src/Archive/Withheld.antt =====
-- A generation is not reported as a success while a required file is missing from the archive.
use comfyui_image_frontend.Prelude.{
  ℕ, ◌≡◌, refl, ap, ◌∙◌, inl, inr, ◌⊎◌, true, false, none, some, Option, List, String, [], ◌∷◌,
  ◌++◌, Bool-cases, subst,
}
use comfyui_image_frontend.Json.{Value, list, nil, Fields, from_items, truthy}
use comfyui_image_frontend.Json.Laws.{get-put_self}
use comfyui_image_frontend.Status.{
  GenerationStatus, queued, failed_with_artifacts, failed_without_artifacts,
}
use comfyui_image_frontend.Database.{Generation, Artifact}
use comfyui_image_frontend.Artifacts.{sort, newest_first}
use comfyui_image_frontend.Worker.History.{success, failed}
use comfyui_image_frontend.Finalize.Record.{NormalizedHistory, record_history}
use comfyui_image_frontend.Finalize.Commit.{
  Committed, failures_of, may_retry, settle, commit_finalization, fail_persistence, partial_status,
  is_some, conclude, conclude_requeued, requeue_absent,
}
use comfyui_image_frontend.Finalize.Retention.{salvage}
use comfyui_image_frontend.Finalize.Outcome.{fall_short-status}
use comfyui_image_frontend.Finalize.Retry.{commit-inversion}
use comfyui_image_frontend.Archive.{NativeFileOutput}
use comfyui_image_frontend.Archive.Failures.{
  Failure, requires_persistence, diagnostic_key, listed, others, failure_entry, add_failure,
  record_persistence_failure,
}

truthy-snoc : (vs : List Value) (v : Value) → truthy (list (from_items (vs ++ v ∷ []))) ≡ true
truthy-snoc [] v = refl
truthy-snoc (w ∷ vs) v = refl

recorded-truthy :
    (now : ℕ) (f : NativeFileOutput) (e : Failure) (g : Generation)
    → requires_persistence f ≡ true
    → truthy (failures_of (record_persistence_failure now f e g).0) ≡ true
unfolding record_persistence_failure add_failure
recorded-truthy now f e g r =
    let m : Fields = g.internal_diagnostics_json in
    let k : String = diagnostic_key (requires_persistence f) in
    let vs : List Value = others f (listed k m) in
    let e' : k ≡ "artifact_persistence_failures" = ap diagnostic_key r in
    ap (λ (o : Option Value). truthy (elim o [ none ↦ list nil | some v ↦ v ]))
      (get-put_self k "artifact_persistence_failures"
        (list (from_items (vs ++ failure_entry f e ∷ []))) m e')
    ∙ truthy-snoc vs (failure_entry f e)

abbrev pub Withheld : GenerationStatus → Type 0
Withheld s = (s ≡ queued) ⊎ ((s ≡ failed_with_artifacts) ⊎ (s ≡ failed_without_artifacts))

settle-Withheld :
    (now : ℕ) (raw : Fields) (artifacts : List Artifact) (g : Generation)
    → truthy (failures_of g) ≡ true
    → Withheld (settle now raw success artifacts g).generation.status
unfolding settle conclude conclude_requeued requeue_absent
settle-Withheld now raw artifacts g t = elim (Bool-cases (may_retry artifacts g)) [
  | inl e ↦ rw (t, e) (inl refl)
  | inr e ↦ rw (t, e) (fell (fall_short-status failed artifacts (fail_persistence g)))
]
  where
    fell :
        {s : GenerationStatus}
        → s ≡ partial_status failed false (is_some (salvage false artifacts))
        → Withheld s
    fell {s} e = elim (Bool-cases (is_some (salvage false artifacts))) [
      | inl k ↦ inr (inl (rw k at e))
      | inr k ↦ inr (inr (rw k at e))
    ]

-- Once the failure to archive a required file is recorded, ComfyUI's success does not make the
-- generation a success: as long as the recorded failures are on the row, a finalization with the
-- outcome of success leaves it failed or back in the queue.
pub failure-withholds_success :
    (now : ℕ) (f : NativeFileOutput) (e : Failure) (g : Generation)
    → requires_persistence f ≡ true
    → (later : ℕ) (raw : Fields) (n : NormalizedHistory) (artifacts : List Artifact)
      (g' : Generation) (c : Committed)
    → failures_of g' ≡ failures_of (record_persistence_failure now f e g).0
    → commit_finalization later raw n success artifacts g' ≡ some c
    → Withheld c.generation.status
unfolding record_history
failure-withholds_success now f e g r later raw n artifacts g' c same h =
    let (_, p) = commit-inversion later raw n success artifacts g' h in
    subst (λ (c : Committed). Withheld c.generation.status) p
      (settle-Withheld later raw (sort newest_first artifacts) (record_history raw n success g')
        (ap truthy same ∙ recorded-truthy now f e g r))
