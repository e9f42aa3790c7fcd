-- ===== src/Lifecycle/Phases.antt =====
-- What the point at which the worker's task stands says of the row.
use comfyui_image_frontend.Prelude.{
  ℕ, String, ◌≡◌, ◌≢◌, refl, ◌∙◌, subst, ◌⊎◌, inl, inr, Option, some, none, Bool, true, false, ◌&&◌,
  Bool-cases, arith,
}
use comfyui_image_frontend.Json.{Value}
use comfyui_image_frontend.Status.{
  queued, dispatching, running, cancel_requested, status_eq, is_terminal, is_active,
}
use comfyui_image_frontend.Database.{Generation}
use comfyui_image_frontend.Worker.Transactions.{
  Txn, is_some_text, dispatch, save_graph, submit_and_mark_running, requested, requeue_after_outage,
  cancel_transaction,
}
use comfyui_image_frontend.Worker.Recovery.{in_flight, recover}
use comfyui_image_frontend.Scheduler.Activity.{is_background, revoke}
use comfyui_image_frontend.Lifecycle.{
  Phase, idle, claimed, loading, submitting, submitted, following, ending, after_graph,
  after_outage, resumed, Step, claim, unclaim, begin, dropped, found_cancelled, graph, outage,
  submit, fail, monitor, end_monitor, finalize, skip_finalize, cancel, preempted, note, restart,
}
use comfyui_image_frontend.Lifecycle.Notes.{Note-IsNoted}

-- The columns of the queue agree with the status.
pub record IsConsistent (g : Generation) : Type 0 where
  -- a queued row holds no worker, no prompt and no submitted graph
  pub queued_worker : g.status ≡ queued → g.comfyui_instance_id ≡ none
  pub queued_prompt : g.status ≡ queued → g.comfyui_prompt_id ≡ none
  pub queued_graph : g.status ≡ queued → g.submitted_graph_json ≡ none
  -- a claimed row has its worker, and no prompt yet
  pub dispatching_worker : g.status ≡ dispatching → g.comfyui_instance_id ≢ none
  pub dispatching_prompt : g.status ≡ dispatching → g.comfyui_prompt_id ≡ none
  -- a running row has its worker and its prompt
  pub running_worker : g.status ≡ running → g.comfyui_instance_id ≢ none
  pub running_prompt : g.status ≡ running → g.comfyui_prompt_id ≢ none
  pub running_text : g.status ≡ running → g.comfyui_prompt_id ≢ some ""
  -- exactly the terminal rows have a completion time
  pub completed : is_terminal g.status ≡ true → g.completed_at ≢ none
  pub open_row : is_terminal g.status ≡ false → g.completed_at ≡ none

-- A row between its claim and its submission
abbrev pub IsTaken : Generation → Type 0
IsTaken g =
    ((g.status ≡ dispatching) ⊎ (g.status ≡ cancel_requested)) × (g.comfyui_prompt_id ≡ none)

abbrev pub InPhase : Phase → Generation → Type 0
InPhase claimed g = IsTaken g × (g.submitted_graph_json ≡ none)
InPhase loading g = IsTaken g
InPhase submitting g = IsTaken g
InPhase submitted g = (g.status ≡ running) ⊎ (g.status ≡ cancel_requested)
InPhase _ g = Unit {0}

pub before_submission :
    (p : Phase) (g : Generation) → (p ≡ loading) ⊎ (p ≡ submitting) → InPhase p g → IsTaken g
before_submission p g (inl e) i = subst (λ p. InPhase p g) e i
before_submission p g (inr e) i = subst (λ p. InPhase p g) e i

-- A write that requests a cancellation, or leaves the status
record Stays (g h : Generation) : Type 0 where
  status : (h.status ≡ g.status) ⊎ (h.status ≡ cancel_requested)
  prompt : h.comfyui_prompt_id ≡ g.comfyui_prompt_id
  graph : h.submitted_graph_json ≡ g.submitted_graph_json

Stays-IsTaken : (g h : Generation) → Stays g h → IsTaken g → IsTaken h
Stays-IsTaken g h s t = ground arith

Stays-InPhase : (p : Phase) (g h : Generation) → Stays g h → InPhase p g → InPhase p h
Stays-InPhase idle g h s i = tt
Stays-InPhase claimed g h s (t, e) = (Stays-IsTaken g h s t, s.graph ∙ e)
Stays-InPhase loading g h s t = Stays-IsTaken g h s t
Stays-InPhase submitting g h s t = Stays-IsTaken g h s t
Stays-InPhase submitted g h s i = ground arith
Stays-InPhase following g h s i = tt
Stays-InPhase ending g h s i = tt

cancel-Stays :
    (now : ℕ) (deleting : Bool) (g : Generation) {t : Txn} {target : Option (String × String)}
    → cancel_transaction now deleting g ≡ requested t target
    → Stays g t.0
unfolding cancel_transaction is_terminal
cancel-Stays now deleting g e = ground arith

-- A preemption ends only what is queued.
revoke-Stays : (now : ℕ) (g : Generation) → (g.status ≡ queued) ⊎ Stays g (revoke now g)
unfolding revoke is_active
revoke-Stays now g = elim (Bool-cases (is_background g)) [
  | inr e ↦ inr (rw (revoke, e) (record { status = inl refl; prompt = refl; graph = refl }))
  | inl e ↦ elim (Bool-cases (status_eq g.status queued)) [
    | inl q ↦ inl (ground arith)
    | inr n ↦ inr (rw (revoke, e, n) (record { status = inr refl; prompt = refl; graph = refl }))
  ]
]

queued-InPhase : (p : Phase) (g h : Generation) → g.status ≡ queued → InPhase p g → InPhase p h
queued-InPhase idle g h e i = tt
queued-InPhase claimed g h e (t, n) = absurd (ground arith)
queued-InPhase loading g h e t = absurd (ground arith)
queued-InPhase submitting g h e t = absurd (ground arith)
queued-InPhase submitted g h e i = absurd (ground arith)
queued-InPhase following g h e i = tt
queued-InPhase ending g h e i = tt

graph-InPhase :
    (v : Value) (sha256 : String) (g : Generation)
    → IsTaken g
    → InPhase (after_graph (save_graph v sha256 g).1) (save_graph v sha256 g).0
unfolding save_graph
graph-InPhase v sha256 g t = elim (Bool-cases (status_eq g.status cancel_requested)) [
  | inl e ↦ rw (save_graph, e) tt
  | inr e ↦ rw (save_graph, e) t
]

resumed-InPhase : (g : Generation) → InPhase (resumed g) g
resumed-InPhase g = elim (Bool-cases (in_flight g && is_some_text g.comfyui_prompt_id)) [
  | inl e ↦ rw e tt
  | inr e ↦ rw e tt
]

outage-InPhase :
    (now : ℕ) (g : Generation)
    → InPhase (after_outage (requeue_after_outage now g)) (requeue_after_outage now g).txn.0
outage-InPhase now g = elim (Bool-cases (requeue_after_outage now g).cancelled) [
  | inl e ↦ rw e tt
  | inr e ↦ rw e tt
]

submitted-InPhase :
    (isoformat : ℕ → String) (now : ℕ) (prompt_id : String) (g : Generation)
    → IsTaken g
    → InPhase submitted (submit_and_mark_running isoformat now prompt_id g).0.0
unfolding submit_and_mark_running
submitted-InPhase isoformat now prompt_id g t = ground arith

pub Step-InPhase :
    {g h : Generation} {p q : Phase} → Step g p h q → IsConsistent g → InPhase p g → InPhase q h
unfolding dispatch submit_and_mark_running
Step-InPhase (claim g now target label e) k i = ((inl refl, k.queued_prompt e), k.queued_graph e)
Step-InPhase (unclaim g now) k i = tt
Step-InPhase (begin g) k i = i.0
Step-InPhase (dropped g) k i = tt
Step-InPhase (found_cancelled g e) k i = tt
Step-InPhase (graph g v sha256) k i = graph-InPhase v sha256 g i
Step-InPhase (outage g p now e) k i = outage-InPhase now g
Step-InPhase (submit g isoformat now prompt_id named) k i =
    submitted-InPhase isoformat now prompt_id g i
Step-InPhase (fail g p now exc e) k i = tt
Step-InPhase (monitor g) k i = tt
Step-InPhase (end_monitor g) k i = tt
Step-InPhase (finalize g now raw n o artifacts e) k i = tt
Step-InPhase (skip_finalize g) k i = tt
Step-InPhase (cancel g p now deleting {t} e) k i =
    Stays-InPhase p g t.0 (cancel-Stays now deleting g e) i
Step-InPhase (preempted g p now) k i = elim (revoke-Stays now g) [
  | inl e ↦ queued-InPhase p g (revoke now g) e i
  | inr s ↦ Stays-InPhase p g (revoke now g) s i
]
Step-InPhase (note g h p n) k i =
    let m = Note-IsNoted n in
    Stays-InPhase p g h (record { status = inl m.status; prompt = m.prompt; graph = m.graph }) i
Step-InPhase (restart g p now r) k i = resumed-InPhase (recover now r g).0
