-- ===== src/Jobs/Effects/Steps.antt =====
-- Each method of internal/job/manager.go has one of the effects.
use slurmlite.Jobs.Changes
use slurmlite.Jobs.Changes.{put_reports, settle, record_report, reports_of, max_exit, cancel_from}
use slurmlite.Jobs.Effects.{
  Call, submits, marks_running, marks_completed, marks_failed, fails_running, cancels,
  reports_event, step, ended_job, Effect, unchanged, Change, joins, acts, added, added_by, outcome,
  started, withdrawn, noted, ended,
}
use slurmlite.Jobs.Manager
use slurmlite.Jobs.Manager.{
  JobManager, NodeReport, Outcome, assigned_in, assigned_node, remove_pending, set_job,
  drop_reports,
}
use slurmlite.Jobs.Model.{
  Job, Status, Status-discrete, pending, running, completed, failed, cancelled,
}
use slurmlite.Jobs.Transitions.{
  mark_running-Cases, mark_completed-Cases, mark_failed-Cases, mark_cancelled_cases,
}
use slurmlite.Prelude.{
  ℤ, pos, ltb, Time, Map, lookup, insert, delete-insert_self, true, Bool-cases, Option-cases,
  ite_ind, if_ind, String, List, length, Option, none, some, ◌≡◌, refl, inl, inr, arith,
}

submit-Change :
    (m : JobManager) (now : Time) (j : Option Job)
    → Change m (added m now (submits j)) (step m now (submits j)).0
unfolding Manager.submit step added
submit-Change m now none = acts refl (unchanged refl)
submit-Change m now (some j) =
    ite_ind (λ (o : Outcome (Unit {0})). Change m (added_by (submits (some j)) (outcome o).1) o.0)
      (Status-discrete j.status pending)
      (λ p. elim (Option-cases (lookup j.id m.jobs)) [
        | inl e ↦ rw (e, Manager.submit) (joins j p e refl refl)
        | inr (k, e) ↦ rw (e, Manager.submit) (acts refl (unchanged refl))
      ])
      (λ _. acts refl (unchanged refl))

mark_running-Effect :
    (m : JobManager) (id : String) (node_ids : List String) (now : Time)
    → Effect m (Changes.mark_running m id node_ids now).0
unfolding Changes.mark_running
mark_running-Effect m id node_ids now = elim (Option-cases (lookup id m.jobs)) [
  | inl e ↦ rw (e, Changes.mark_running) (unchanged refl)
  | inr (j, e) ↦
      rw (e, Changes.mark_running)
        (elim (mark_running-Cases j node_ids now) [
          | inl (p, q) ↦ rw (q, Changes.mark_running) (started id j node_ids now e p refl)
          | inr (p, q) ↦ rw (q, Changes.mark_running) (unchanged refl)
        ])
]

mark_completed-Effect :
    (m : JobManager) (id : String) (code : ℤ) (now : Time)
    → Effect m (Changes.mark_completed m id code now).0
unfolding Changes.mark_completed
mark_completed-Effect m id code now = elim (Option-cases (lookup id m.jobs)) [
  | inl e ↦ rw (e, Changes.mark_completed) (unchanged refl)
  | inr (j, e) ↦
      rw (e, Changes.mark_completed)
        (elim (mark_completed-Cases j code now) [
          | inl (p, q) ↦
              rw (q, Changes.mark_completed)
                (ended id j completed code j.error_message now e p (inl refl) refl)
          | inr (p, q) ↦ rw (q, Changes.mark_completed) (unchanged refl)
        ])
]

mark_failed-Effect :
    (m : JobManager) (id : String) (code : ℤ) (msg : String) (now : Time)
    → Effect m (Changes.mark_failed m id code msg now).0
unfolding Changes.mark_failed
mark_failed-Effect m id code msg now = elim (Option-cases (lookup id m.jobs)) [
  | inl e ↦ rw (e, Changes.mark_failed) (unchanged refl)
  | inr (j, e) ↦
      rw (e, Changes.mark_failed)
        (elim (mark_failed-Cases j code msg now) [
          | inl (p, q) ↦
              rw (q, Changes.mark_failed) (ended id j failed code msg now e p (inr (inl refl)) refl)
          | inr (p, q) ↦ rw (q, Changes.mark_failed) (unchanged refl)
        ])
]

fail_running_job-Effect :
    (m : JobManager) (id reason : String) (now : Time)
    → Effect m (Changes.fail_running_job m id reason now).0
unfolding Changes.fail_running_job
fail_running_job-Effect m id reason now = elim (Option-cases (lookup id m.jobs)) [
  | inl e ↦ rw (e, Changes.fail_running_job) (unchanged refl)
  | inr (j, e) ↦
      rw (e, Changes.fail_running_job)
        (ite_ind (λ (o : JobManager × Option (List String × ℤ)). Effect m o.0)
          (Status-discrete j.status running)
          (λ p. elim (mark_failed-Cases j (pos 1) reason now) [
            | inl (_, q) ↦ rw q (ended id j failed (pos 1) reason now e p (inr (inl refl)) refl)
            | inr (_, q) ↦ rw q (unchanged refl)
          ])
          (λ _. unchanged refl))
]

cancel_from-Effect :
    (m : JobManager) (id : String) (j : Job) (s : Status) (now : Time)
    → lookup id m.jobs ≡ some j
    → j.status ≡ s
    → Effect m (cancel_from s m id j now).0
unfolding cancel_from remove_pending
cancel_from-Effect m id j pending now e p = elim (mark_cancelled_cases j now) [
  | inl (_, q) ↦ rw (q, cancel_from) (withdrawn id j now e p refl)
  | inr (n, _, _) ↦ absurd (n p)
]
cancel_from-Effect m id j running now e p = elim (mark_cancelled_cases j now) [
  | inl (_, q) ↦
      rw (q, cancel_from)
        (ended id j cancelled j.exit_code j.error_message now e p (inr (inr refl)) refl)
  | inr (_, n, _) ↦ absurd (n p)
]
cancel_from-Effect m id j _ now e p = unchanged refl

cancel-Effect : (m : JobManager) (id : String) (now : Time) → Effect m (Changes.cancel m id now).0
unfolding Changes.cancel
cancel-Effect m id now = elim (Option-cases (lookup id m.jobs)) [
  | inl e ↦ rw (e, Changes.cancel) (unchanged refl)
  | inr (j, e) ↦ rw (e, Changes.cancel) (cancel_from-Effect m id j j.status now e refl)
]

-- What `m` becomes when the job `j` under `id` ends, its new report stored first.
stored_end :
    (m : JobManager) (id node_id : String) (j : Job) (r : NodeReport) (s : Status) (code : ℤ)
    (msg : String) (now : Time)
    → let rs = insert node_id r (reports_of m id) in
      drop_reports (set_job (put_reports m id rs) id (ended_job j s code msg now)) id
      ≡ drop_reports (set_job m id (ended_job j s code msg now)) id
stored_end m id node_id j r s code msg now = rw delete-insert_self

settle-Effect :
    (m : JobManager) (id node_id : String) (j : Job) (r : NodeReport) (now : Time)
    → lookup id m.jobs ≡ some j
    → j.status ≡ running
    → assigned_in j.assigned_node_ids node_id ≡ true
    → lookup node_id (reports_of m id) ≡ none
    → let rs = insert node_id r (reports_of m id) in
      Effect m (settle (put_reports m id rs) id j rs r now).0
unfolding settle
settle-Effect m id node_id j r now e p a n =
    if_ind (λ (o : Outcome (Unit {0})). Effect m o.0) r.failed
      (λ f. elim (mark_failed-Cases j r.exit_code r.err_msg now) [
        | inl (_, q) ↦ rw q (
            ended id j failed r.exit_code r.err_msg now e p (inr (inl refl))
              (stored_end m id node_id j r failed r.exit_code r.err_msg now))
        | inr (x, _) ↦ absurd (x p)
      ])
      (λ f.
        if_ind (λ (o : Outcome (Unit {0})). Effect m o.0)
          (ltb (length rs) (length j.assigned_node_ids))
          (λ l. noted id node_id j r e p a n f (ground arith) refl)
          (λ l. elim (mark_completed-Cases j (max_exit (pos 0) rs) now) [
            | inl (_, q) ↦ rw q (
                ended id j completed (max_exit (pos 0) rs) j.error_message now e p (inl refl)
                  (stored_end m id node_id j r completed (max_exit (pos 0) rs) j.error_message now))
            | inr (x, _) ↦ absurd (x p)
          ]))
  where
    rs : Map NodeReport
    rs = insert node_id r (reports_of m id)

record_report-Effect :
    (m : JobManager) (id node_id : String) (j : Job) (r : NodeReport) (now : Time)
    → lookup id m.jobs ≡ some j
    → j.status ≡ running
    → assigned_in j.assigned_node_ids node_id ≡ true
    → Effect m (record_report m id node_id j (reports_of m id) r now).0
unfolding record_report
record_report-Effect m id node_id j r now e p a =
    elim (Option-cases (lookup node_id (reports_of m id))) [
      | inl n ↦ rw (n, record_report) (settle-Effect m id node_id j r now e p a n)
      | inr (_, n) ↦ rw (n, record_report) (unchanged refl)
    ]

report_node_event-Effect :
    (m : JobManager) (id node_id : String) (r : NodeReport) (now : Time)
    → Effect m (Changes.report_node_event m id node_id r now).0
unfolding Changes.report_node_event assigned_node
report_node_event-Effect m id node_id r now = elim (Option-cases (lookup id m.jobs)) [
  | inl e ↦ rw (e, Changes.report_node_event) (unchanged refl)
  | inr (j, e) ↦
      rw (e, Changes.report_node_event)
        (ite_ind (λ (o : Outcome (Unit {0})). Effect m o.0) (Status-discrete j.status running)
          (λ p. elim (Bool-cases (assigned_node j node_id)) [
            | inl a ↦ rw a (record_report-Effect m id node_id j r now e p a)
            | inr a ↦ rw a (unchanged refl)
          ])
          (λ _. unchanged refl))
]

-- Every call adds one job to the queue, or has one of the effects.
pub step-Change :
    (m : JobManager) (now : Time) (c : Call) → Change m (added m now c) (step m now c).0
unfolding step added
step-Change m now (submits j) = submit-Change m now j
step-Change m now (marks_running id ns) = acts refl (mark_running-Effect m id ns now)
step-Change m now (marks_completed id code) = acts refl (mark_completed-Effect m id code now)
step-Change m now (marks_failed id code msg) = acts refl (mark_failed-Effect m id code msg now)
step-Change m now (fails_running id reason) = acts refl (fail_running_job-Effect m id reason now)
step-Change m now (cancels id) = acts refl (cancel-Effect m id now)
step-Change m now (reports_event id n r) = acts refl (report_node_event-Effect m id n r now)
