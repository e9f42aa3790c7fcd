-- ===== src/Lifecycle/Consistency.antt =====
-- The columns of a generation agree with its status at every point of its life.
use comfyui_image_frontend.Prelude.{
  ℕ, String, ◌≡◌, refl, sym, ◌∙◌, ap, ◌≢◌, ◌⊎◌, inl, inr, Option, some, none, Bool, true, false,
  str_eq_iff, arith,
}
use comfyui_image_frontend.Json.{Value}
use comfyui_image_frontend.Status.{queued, is_terminal, is_active}
use comfyui_image_frontend.Database.{Generation}
use comfyui_image_frontend.Worker.Transactions.{
  Txn, is_some_text, dispatch, requeue_unstarted_claim, save_graph, submit_and_mark_running,
  requeue_after_outage, Failure, fail_before_start, requested, cancel_transaction,
}
use comfyui_image_frontend.Worker.Recovery.{Runtimes, recover}
use comfyui_image_frontend.Finalize.Outcome.{ResultOf, finished, requeued}
use comfyui_image_frontend.Finalize.Retry.{commit_finalization_settles}
use comfyui_image_frontend.Scheduler.Activity.{revoke}
use comfyui_image_frontend.Lifecycle.{
  Phase, idle, Step, claim, unclaim, begin, dropped, found_cancelled, graph, outage, submit, fail,
  monitor, end_monitor, finalize, skip_finalize, cancel, preempted, note, restart, Reach, here,
  next, IsAccepted,
}
use comfyui_image_frontend.Lifecycle.Notes.{IsNoted, Note-IsNoted}
use comfyui_image_frontend.Lifecycle.Phases.{
  IsConsistent, IsTaken, InPhase, before_submission, Step-InPhase,
}

dispatch-IsConsistent :
    (now : ℕ) (target : String) (label : Option String) (g : Generation)
    → g.status ≡ queued
    → IsConsistent g
    → IsConsistent (dispatch now target label g).0
unfolding dispatch is_terminal
dispatch-IsConsistent now target label g q h = ground arith

requeue_unstarted-IsConsistent :
    (now : ℕ) (g : Generation)
    → g.submitted_graph_json ≡ none
    → IsConsistent g
    → IsConsistent (requeue_unstarted_claim now g).0
unfolding requeue_unstarted_claim is_terminal
requeue_unstarted-IsConsistent now g e h = ground arith

save_graph-IsConsistent :
    (v : Value) (sha : String) (g : Generation)
    → IsTaken g
    → IsConsistent g
    → IsConsistent (save_graph v sha g).0
unfolding save_graph is_terminal
save_graph-IsConsistent v sha g e h = ground arith

submit-IsConsistent :
    (isoformat : ℕ → String) (now : ℕ) (p : String) (g : Generation)
    → p ≢ ""
    → IsTaken g
    → IsConsistent g
    → IsConsistent (submit_and_mark_running isoformat now p g).0.0
unfolding submit_and_mark_running is_terminal
submit-IsConsistent isoformat now p g named e h = ground arith

outage-IsConsistent :
    (now : ℕ) (g : Generation)
    → IsTaken g
    → IsConsistent g
    → IsConsistent (requeue_after_outage now g).txn.0
unfolding requeue_after_outage is_terminal
outage-IsConsistent now g e h = ground arith

fail-IsConsistent :
    (now : ℕ) (exc : Failure) (g : Generation)
    → IsConsistent g
    → IsConsistent (fail_before_start now exc g).0
unfolding fail_before_start is_terminal
fail-IsConsistent now exc g h = ground arith

cancel-IsConsistent :
    (now : ℕ) (deleting : Bool) (g : Generation) {t : Txn} {target : Option (String × String)}
    → cancel_transaction now deleting g ≡ requested t target
    → IsConsistent g
    → IsConsistent t.0
unfolding cancel_transaction is_terminal
cancel-IsConsistent now deleting g e h = ground arith

no_text : (t : Option String) → is_some_text t ≡ false → (t ≡ none) ⊎ (t ≡ some "")
no_text none h = inl refl
no_text (some t) h = inr (ap some ((str_eq_iff t "").0 (ground arith)))

recover-IsConsistent :
    (now : ℕ) (r : Runtimes) (g : Generation) → IsConsistent g → IsConsistent (recover now r g).0
unfolding recover is_terminal
recover-IsConsistent now r g h = ground (arith, no_text g.comfyui_prompt_id)

of_result :
    (g c : Generation)
    → ResultOf g c
    → is_terminal g.status ≡ false
    → IsConsistent g
    → IsConsistent c
unfolding is_terminal
of_result g c (finished f) o h = terminal c f.status f.completed
  where
    terminal :
        (c : Generation) → is_terminal c.status ≡ true → c.completed_at ≢ none → IsConsistent c
    terminal c t e = ground arith
of_result g c (requeued u r e) o h =
    back c r.status r.unpinned r.no_prompt r.no_graph (e ∙ h.open_row o)
  where
    back :
        (c : Generation)
        → c.status ≡ queued
        → c.comfyui_instance_id ≡ none
        → c.comfyui_prompt_id ≡ none
        → c.submitted_graph_json ≡ none
        → c.completed_at ≡ none
        → IsConsistent c
    back c s i p g e = ground arith

revoke-IsConsistent : (now : ℕ) (g : Generation) → IsConsistent g → IsConsistent (revoke now g)
unfolding revoke is_active is_terminal
revoke-IsConsistent now g h = ground arith

noted-IsConsistent : (g h : Generation) → IsNoted g h → IsConsistent g → IsConsistent h
unfolding is_terminal
noted-IsConsistent g h n k = record {
  queued_worker = λ e. n.worker ∙ k.queued_worker (sym n.status ∙ e);
  queued_prompt = λ e. n.prompt ∙ k.queued_prompt (sym n.status ∙ e);
  queued_graph = λ e. n.graph ∙ k.queued_graph (sym n.status ∙ e);
  dispatching_worker = λ e x. k.dispatching_worker (sym n.status ∙ e) (sym n.worker ∙ x);
  dispatching_prompt = λ e. n.prompt ∙ k.dispatching_prompt (sym n.status ∙ e);
  running_worker = λ e x. k.running_worker (sym n.status ∙ e) (sym n.worker ∙ x);
  running_prompt = λ e x. k.running_prompt (sym n.status ∙ e) (sym n.prompt ∙ x);
  running_text = λ e x. k.running_text (sym n.status ∙ e) (sym n.prompt ∙ x);
  completed = λ e x. k.completed (ap is_terminal (sym n.status) ∙ e) (sym n.completed ∙ x);
  open_row = λ e. n.completed ∙ k.open_row (ap is_terminal (sym n.status) ∙ e);
}

Step-IsConsistent :
    {g h : Generation} {p q : Phase} → Step g p h q → InPhase p g → IsConsistent g → IsConsistent h
Step-IsConsistent (claim g now target label q) i k = dispatch-IsConsistent now target label g q k
Step-IsConsistent (unclaim g now) i k = requeue_unstarted-IsConsistent now g i.1 k
Step-IsConsistent (begin g) i k = k
Step-IsConsistent (dropped g) i k = k
Step-IsConsistent (found_cancelled g e) i k = k
Step-IsConsistent (graph g v sha) i k = save_graph-IsConsistent v sha g i k
Step-IsConsistent (outage g p now e) i k = outage-IsConsistent now g (before_submission p g e i) k
Step-IsConsistent (submit g isoformat now p named) i k =
    submit-IsConsistent isoformat now p g named i k
Step-IsConsistent (fail g p now exc e) i k = fail-IsConsistent now exc g k
Step-IsConsistent (monitor g) i k = k
Step-IsConsistent (end_monitor g) i k = k
Step-IsConsistent (finalize g now raw n o artifacts {c} e) i k =
    let (open_row, r) = commit_finalization_settles now raw n o artifacts g e in
    of_result g c.generation r open_row k
Step-IsConsistent (skip_finalize g) i k = k
Step-IsConsistent (cancel g p now deleting e) i k = cancel-IsConsistent now deleting g e k
Step-IsConsistent (preempted g p now) i k = revoke-IsConsistent now g k
Step-IsConsistent (note g h p n) i k = noted-IsConsistent g h (Note-IsNoted n) k
Step-IsConsistent (restart g p now r) i k = recover-IsConsistent now r g k

IsAccepted-IsConsistent : (g : Generation) → IsAccepted g → IsConsistent g
unfolding is_terminal
IsAccepted-IsConsistent g a = ground arith

Reach-both :
    {g h : Generation} {p : Phase} → IsAccepted g → Reach g idle h p → IsConsistent h × InPhase p h
Reach-both {g} a here = (IsAccepted-IsConsistent g a, tt)
Reach-both a (next r s) =
    let (k, i) = Reach-both a r in (Step-IsConsistent s i k, Step-InPhase s k i)

pub Reach-InPhase : {g h : Generation} {p : Phase} → IsAccepted g → Reach g idle h p → InPhase p h
Reach-InPhase a r = (Reach-both a r).1

-- From its acceptance on, whatever sequence of claims, requeues, submissions, outages, failures,
-- cancellations, preemptions, notes, finalizations and restarts of the worker a generation goes
-- through, where ComfyUI's ids of prompts are not empty: queued, it holds no worker, no prompt and no
-- submitted graph; claimed, it has a worker and no prompt; running, it has both, and its prompt's id
-- is not empty; and it has a completion time exactly when its status is terminal.
pub Reach-IsConsistent :
    {g h : Generation} {p : Phase} → IsAccepted g → Reach g idle h p → IsConsistent h
Reach-IsConsistent a r = (Reach-both a r).0
