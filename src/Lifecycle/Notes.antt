-- ===== src/Lifecycle/Notes.antt =====
-- What the worker notes on a row beside its execution leaves the columns of the queue as they are, and
-- the marker of a retry.
use comfyui_image_frontend.Prelude.{
  ◌≡◌, refl, ◌∙◌, ap, subst, inl, inr, Bool, true, false, String, Option, none, some, List, [], ◌∷◌,
  ◌++◌, filter, str_eq, Bool-cases, Option-cases, some_inj, any, ℕ, ◌||◌, length, ◌==◌,
}
use comfyui_image_frontend.Json.{
  Value, bool, null, list, dict, Fields, from_items, get_or, put, remove,
}
use comfyui_image_frontend.Json.Laws.{get-put, get-remove}
use comfyui_image_frontend.Status.{is_terminal}
use comfyui_image_frontend.Database.{Generation, GenerationEvent, Artifact}
use comfyui_image_frontend.Worker.Reports.{
  is_due, record_execution_error, record_reconciliation_error, ensure_cancel_sent,
  forget_cancel_sent,
}
use comfyui_image_frontend.Archive.{
  insert_artifact, retain_artifact, is_duplicate, is_outdated, current_image, NativeFileOutput,
  Declaration, StoredImage, Archived,
}
use comfyui_image_frontend.Archive.Failures.{
  record_persistence_failure, record_archived_source_reference, clear_persistence_failure,
  clear_failures, clear_list, put_rest, others, listed, diagnostic_key, add_failure,
  cleanup_reference, matches, is_dict, archived_sources, requires_persistence,
}
use comfyui_image_frontend.Finalize.Outcome.{marker}
use comfyui_image_frontend.Lifecycle.{
  Note, archived, not_archived, source, cleared, execution_error, reconciliation_error, sent,
  not_sent,
}

pub record IsNoted (g h : Generation) : Type 0 where
  pub status : h.status ≡ g.status
  pub worker : h.comfyui_instance_id ≡ g.comfyui_instance_id
  pub prompt : h.comfyui_prompt_id ≡ g.comfyui_prompt_id
  pub graph : h.submitted_graph_json ≡ g.submitted_graph_json
  pub completed : h.completed_at ≡ g.completed_at
  pub marked : marker h ≡ marker g

abbrev value_or_null : Option Value → Value
value_or_null o = elim o [ none ↦ null | some v ↦ v ]

abbrev marker_in : Fields → Value
marker_in m = get_or "comfyui_absent_sources_retry" m null

marker-put :
    (k : String) (v : Value) (m : Fields)
    → str_eq k "comfyui_absent_sources_retry" ≡ false
    → marker_in (put k v m) ≡ marker_in m
marker-put k v m e = ap value_or_null (rw e at (get-put k "comfyui_absent_sources_retry" v m))

marker-remove :
    (k : String) (m : Fields)
    → str_eq k "comfyui_absent_sources_retry" ≡ false
    → marker_in (remove k m) ≡ marker_in m
marker-remove k m e = ap value_or_null (rw e at (get-remove k "comfyui_absent_sources_retry" m))

IsNoted-same : (g : Generation) → IsNoted g g
IsNoted-same g = record {
  status = refl;
  worker = refl;
  prompt = refl;
  graph = refl;
  completed = refl;
  marked = refl;
}

diagnostics-IsNoted :
    (g : Generation) (m : Fields)
    → marker_in m ≡ marker g
    → IsNoted g (record g { internal_diagnostics_json = m })
diagnostics-IsNoted g m e = record {
  status = refl;
  worker = refl;
  prompt = refl;
  graph = refl;
  completed = refl;
  marked = e;
}

inserted-IsNoted :
    (now : ℕ) (new_id : String) (d : Declaration) (stored : StoredImage) (g : Generation)
    (artifacts : List Artifact) {a : Archived}
    → insert_artifact now new_id d stored g artifacts ≡ some a
    → IsNoted g a.generation
unfolding insert_artifact retain_artifact
inserted-IsNoted now new_id d stored g artifacts {a} e =
    elim (Bool-cases
      (any (is_duplicate d stored) artifacts || is_outdated d (current_image artifacts))) [
        | inl stale ↦ absurd (cc (rw (insert_artifact, stale) at e))
        | inr kept ↦
            subst (λ (x : Archived). IsNoted g x.generation)
              (some_inj (rw (insert_artifact, kept) at e))
              (record {
                status = refl;
                worker = refl;
                prompt = refl;
                graph = refl;
                completed = refl;
                marked = refl;
              })
      ]

clear_list-marker :
    (f : NativeFileOutput) (required : Bool) (m : Fields)
    → marker_in (clear_list f (diagnostic_key required) m) ≡ marker_in m
unfolding clear_list
clear_list-marker f required m =
    elim (Bool-cases (length (others f (listed k m)) == length (listed k m))) [
      | inl same ↦ rw (clear_list, same) refl
      | inr fewer ↦ rw (clear_list, fewer) (rest (others f (listed k m)))
    ]
  where
    k : String
    k = diagnostic_key required

    apart :
        (required : Bool) → str_eq (diagnostic_key required) "comfyui_absent_sources_retry" ≡ false
    apart true = refl
    apart false = refl

    rest : (vs : List Value) → marker_in (put_rest (diagnostic_key required) vs m) ≡ marker_in m
    rest [] = marker-remove (diagnostic_key required) m (apart required)
    rest (v ∷ vs) = marker-put (diagnostic_key required) _ m (apart required)

pub Note-IsNoted : {g h : Generation} → Note g h → IsNoted g h
unfolding record_execution_error record_reconciliation_error ensure_cancel_sent forget_cancel_sent
    record_persistence_failure record_archived_source_reference clear_persistence_failure
    clear_failures add_failure is_terminal
Note-IsNoted {g} (archived now new_id d stored artifacts e) =
    inserted-IsNoted now new_id d stored g artifacts e
Note-IsNoted {g} (not_archived now f e) =
    diagnostics-IsNoted g _ (failed (requires_persistence f) _)
  where
    failed :
        (required : Bool) (v : Value)
        → marker_in (put (diagnostic_key required) v g.internal_diagnostics_json) ≡ marker g
    failed true v = marker-put "artifact_persistence_failures" _ g.internal_diagnostics_json refl
    failed false v = marker-put "artifact_persistence_warnings" _ g.internal_diagnostics_json refl
Note-IsNoted {g} (source f) = elim (Option-cases (cleanup_reference f.reference)) [
  | inl none_there ↦ rw (record_archived_source_reference, none_there) (IsNoted-same g)
  | inr (r, e) ↦
      elim (Bool-cases
        (any (matches r) (filter is_dict (listed archived_sources g.internal_diagnostics_json)))) [
          | inl known ↦ rw (record_archived_source_reference, e, known) (IsNoted-same g)
          | inr fresh ↦
              rw (record_archived_source_reference, e, fresh)
                (diagnostics-IsNoted g _ (
                  noted_source (
                    list (
                      from_items (
                        filter is_dict (listed archived_sources g.internal_diagnostics_json)
                        ++ dict r ∷ [])))))
        ]
]
  where
    noted_source :
        (v : Value)
        → marker_in (
            put "comfyui_source_cleanup_complete"
              (bool false)
              (put archived_sources v g.internal_diagnostics_json))
          ≡ marker g
    noted_source v =
        marker-put "comfyui_source_cleanup_complete" (bool false)
          (put archived_sources v g.internal_diagnostics_json) refl
        ∙ marker-put archived_sources v g.internal_diagnostics_json refl
Note-IsNoted {g} (cleared f) = diagnostics-IsNoted g _ (
    clear_list-marker f false (clear_list f (diagnostic_key true) g.internal_diagnostics_json)
    ∙ clear_list-marker f true g.internal_diagnostics_json)
Note-IsNoted {g} (execution_error now m) = record {
  status = refl;
  worker = refl;
  prompt = refl;
  graph = refl;
  completed = refl;
  marked = marker-put "comfyui_execution_error" _ g.internal_diagnostics_json refl;
}
Note-IsNoted {g} (reconciliation_error now code e) = reconciled now code e
  where
    reconciled :
        (now : ℕ) (code : String) {r : Generation × GenerationEvent}
        → record_reconciliation_error now code g ≡ some r
        → IsNoted g r.0
    reconciled now code {r} e = elim (Bool-cases (is_terminal g.status)) [
      | inl t ↦ absurd (cc (rw (record_reconciliation_error, t) at e))
      | inr t ↦
          subst (λ (x : Generation × GenerationEvent). IsNoted g x.0)
            (some_inj (rw (record_reconciliation_error, t) at e))
            (record {
              status = refl;
              worker = refl;
              prompt = refl;
              graph = refl;
              completed = refl;
              marked = marker-put "history_reconciliation_error" _ g.internal_diagnostics_json refl;
            })
    ]
Note-IsNoted {g} sent = elim (Bool-cases (is_due g)) [
  | inl due ↦
      rw (ensure_cancel_sent, due)
        (diagnostics-IsNoted g _ (marker-put "cancel_sent" _ g.internal_diagnostics_json refl))
  | inr done ↦ rw (ensure_cancel_sent, done) (IsNoted-same g)
]
Note-IsNoted {g} not_sent =
    diagnostics-IsNoted g _ (marker-remove "cancel_sent" g.internal_diagnostics_json refl)
