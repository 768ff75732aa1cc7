-- ===== src/Jobs/Errors.antt =====
-- The calls of internal/job/manager.go that return an error.
use slurmlite.Jobs.Changes
use slurmlite.Jobs.Changes.{put_reports, settle, record_report, reports_of, max_exit, cancel_from}
use slurmlite.Jobs.Effects.{
  Call, submits, marks_running, marks_completed, marks_failed, fails_running, cancels,
  reports_event, step, error_of,
}
use slurmlite.Jobs.Manager
use slurmlite.Jobs.Manager.{JobManager, NodeReport, Outcome, assigned_in, assigned_node}
use slurmlite.Jobs.Model.{Job, JobError, Status, pending, running}
use slurmlite.Jobs.Transitions.{mark_completed-Cases, mark_failed-Cases, mark_cancelled_cases}
use slurmlite.Prelude.{
  ℤ, pos, Time, Map, lookup, insert, Result, ok, err, Option-cases, String, List, Option, none,
  some, ◌≡◌, refl, inl, inr, arith,
}

-- An error leaves the manager `m` alone.
abbrev Atomic : {A : Type 0} → JobManager → Outcome A → Type 0
Atomic m o = (e : JobError) → o.1 ≡ err e → o.0 ≡ m

returned : {A : Type 0} (r : Result JobError A) {e : JobError} → error_of r ≡ some e → r ≡ err e
returned (ok a) h = cc
returned (err x) h = ground arith

submit-Atomic : (m : JobManager) (j : Option Job) → Atomic m (Manager.submit m j)
unfolding Manager.submit
submit-Atomic m none e h = refl
submit-Atomic m (some j) e h = ground arith

mark_running-Atomic :
    (m : JobManager) (id : String) (ns : List String) (now : Time)
    → Atomic m (Changes.mark_running m id ns now)
unfolding Changes.mark_running
mark_running-Atomic m id ns now e h = ground arith

mark_completed-Atomic :
    (m : JobManager) (id : String) (code : ℤ) (now : Time)
    → Atomic m (Changes.mark_completed m id code now)
unfolding Changes.mark_completed
mark_completed-Atomic m id code now e h = ground arith

mark_failed-Atomic :
    (m : JobManager) (id : String) (code : ℤ) (msg : String) (now : Time)
    → Atomic m (Changes.mark_failed m id code msg now)
unfolding Changes.mark_failed
mark_failed-Atomic m id code msg now e h = ground arith

cancel_from-Atomic :
    (s : Status) (m : JobManager) (id : String) (j : Job) (now : Time)
    → j.status ≡ s
    → Atomic m (cancel_from s m id j now)
unfolding cancel_from
cancel_from-Atomic pending m id j now p e h = ground (arith, mark_cancelled_cases j now)
cancel_from-Atomic running m id j now p e h = ground (arith, mark_cancelled_cases j now)
cancel_from-Atomic _ m id j now p e h = refl

cancel-Atomic : (m : JobManager) (id : String) (now : Time) → Atomic m (Changes.cancel m id now)
unfolding Changes.cancel
cancel-Atomic m id now e h = elim (Option-cases (lookup id m.jobs)) [
  | inl x ↦ rw (x, Changes.cancel) refl
  | inr (j, x) ↦
      rw (x, Changes.cancel)
        (cancel_from-Atomic j.status m id j now refl e (rw (x, Changes.cancel) at h))
]

settle_ok :
    (m : JobManager) (id : String) (j : Job) (rs : Map NodeReport) (r : NodeReport) (now : Time)
    → j.status ≡ running
    → (settle m id j rs r now).1 ≡ ok tt
unfolding settle
settle_ok m id j rs r now p = ground (
  arith,
  mark_failed-Cases j r.exit_code r.err_msg now,
  mark_completed-Cases j (max_exit (pos 0) rs) now,
)

record_report_ok :
    (m : JobManager) (id node_id : String) (j : Job) (rs : Map NodeReport) (r : NodeReport)
    (now : Time)
    → j.status ≡ running
    → (record_report m id node_id j rs r now).1 ≡ ok tt
unfolding record_report
record_report_ok m id node_id j rs r now p =
    ground
      (arith, settle_ok (put_reports m id (insert node_id r rs)) id j (insert node_id r rs) r now)

report_node_event-Atomic :
    (m : JobManager) (id node_id : String) (r : NodeReport) (now : Time)
    → Atomic m (Changes.report_node_event m id node_id r now)
unfolding Changes.report_node_event assigned_node
report_node_event-Atomic m id node_id r now e h = elim (Option-cases (lookup id m.jobs)) [
  | inl x ↦ rw (x, Changes.report_node_event) refl
  | inr (j, x) ↦ ground (arith, x, record_report_ok m id node_id j (reports_of m id) r now)
]

-- A call that returns an error leaves the manager as it was.
pub step_error_unchanged :
    (m : JobManager) (now : Time) (c : Call) {e : JobError}
    → (step m now c).1 ≡ some e
    → (step m now c).0 ≡ m
unfolding step
step_error_unchanged m now (submits j) h = submit-Atomic m j _ (returned _ h)
step_error_unchanged m now (marks_running id ns) h =
    mark_running-Atomic m id ns now _ (returned _ h)
step_error_unchanged m now (marks_completed id code) h =
    mark_completed-Atomic m id code now _ (returned _ h)
step_error_unchanged m now (marks_failed id code msg) h =
    mark_failed-Atomic m id code msg now _ (returned _ h)
step_error_unchanged m now (fails_running id reason) h = cc
step_error_unchanged m now (cancels id) h = cancel-Atomic m id now _ (returned _ h)
step_error_unchanged m now (reports_event id n r) h =
    report_node_event-Atomic m id n r now _ (returned _ h)
