-- ===== src/Jobs/Outcomes.antt =====
-- What the calls of internal/job/manager.go that can end a job leave in the map of jobs, together
-- with what they return.
use slurmlite.Jobs.Changes.{
  cancel_from, settle, record_report, reports_of, max_exit, put_reports, fail_running_job, cancel,
  report_node_event,
}
use slurmlite.Jobs.Effects.{IsFinal, ended_job, withdrawn_job}
use slurmlite.Jobs.Manager.{JobManager, NodeReport, Outcome, submit, assigned_node, remove_pending}
use slurmlite.Jobs.Model.{
  Job, JobError, Status, Status-discrete, pending, running, completed, failed, cancelled, other,
}
use slurmlite.Jobs.Transitions.{mark_completed-Cases, mark_failed-Cases, mark_cancelled_cases}
use slurmlite.Prelude.{
  sym, ℤ, pos, ltb, Time, Map, lookup, insert, ok, err, Bool, true, false, Option-cases, ite_ind,
  some_inj, if_ind, String, List, length, Option, none, some, ◌≡◌, ◌≢◌, refl, ap, ◌∙◌, ◌⊎◌, inl,
  inr, arith,
}

-- The running job under `id` has ended, and nothing else changed in the map.
pub record Ended (id : String) (jobs jobs' : Map Job) : Type 0 where
  pub old : Job
  pub new : Job
  pub stored : lookup id jobs ≡ some old
  pub was_running : old.status ≡ running
  pub becomes : jobs' ≡ insert id new jobs
  pub same_id : new.id ≡ old.id
  pub same_spec : new.spec ≡ old.spec
  pub same_nodes : new.assigned_node_ids ≡ old.assigned_node_ids
  pub final : IsFinal new.status

ended :
    (id : String) (jobs : Map Job) (j : Job) (s : Status) (code : ℤ) (msg : String) (now : Time)
    → lookup id jobs ≡ some j
    → j.status ≡ running
    → IsFinal s
    → Ended id jobs (insert id (ended_job j s code msg now) jobs)
ended id jobs j s code msg now e p f = record {
  old = j;
  new = ended_job j s code msg now;
  stored = e;
  was_running = p;
  becomes = refl;
  same_id = refl;
  same_spec = refl;
  same_nodes = refl;
  final = f;
}

-- `Submit` with a job adds it, pending, under a new id, or changes nothing.
pub submit_cases :
    (m : JobManager) (j : Job)
    → ((submit m (some j)).0.jobs ≡ m.jobs)
      ⊎ ((j.status ≡ pending)
          × (lookup j.id m.jobs ≡ none)
          × ((submit m (some j)).0.jobs ≡ insert j.id j m.jobs))
unfolding submit
submit_cases m j = elim (Option-cases (lookup j.id m.jobs)) [
  | inl e ↦
      ite_ind
        (λ (o : Outcome (Unit {0})).
          (o.0.jobs ≡ m.jobs)
          ⊎ ((j.status ≡ pending)
              × (lookup j.id m.jobs ≡ none)
              × (o.0.jobs ≡ insert j.id j m.jobs)))
        (Status-discrete j.status pending) (λ p. rw (e, submit) (inr (p, refl, refl)))
        (λ _. inl refl)
  | inr (k, e) ↦ inl (ground (arith, e))
]

pub data CancelOutcome (m : JobManager) (id : String) (now : Time) : Outcome Bool → Type 0 where
  refuses :
      (m' : JobManager) (e : JobError)
      → m'.jobs ≡ m.jobs
      → ((j : Job) → lookup id m.jobs ≡ some j → (j.status ≢ pending) × (j.status ≢ running))
      → CancelOutcome m id now (m', err e)
  withdraws :
      (m' : JobManager) (j : Job)
      → lookup id m.jobs ≡ some j
      → j.status ≡ pending
      → m'.jobs ≡ insert id (withdrawn_job j now) m.jobs
      → CancelOutcome m id now (m', ok false)
  stops :
      (m' : JobManager) (x : Ended id m.jobs m'.jobs)
      → x.new.status ≡ cancelled
      → CancelOutcome m id now (m', ok true)

-- The only job under the id is neither pending nor running.
no_more :
    (id : String) (m : JobManager) (j : Job) (s : Status)
    → lookup id m.jobs ≡ some j
    → j.status ≡ s
    → s ≢ pending
    → s ≢ running
    → (k : Job) → lookup id m.jobs ≡ some k
    → (k.status ≢ pending) × (k.status ≢ running)
no_more id m j s e p a b k f =
    let same : k.status ≡ s = ap (λ (y : Job). y.status) (some_inj (sym f ∙ e)) ∙ p in
    (λ h. a (sym same ∙ h), λ h. b (sym same ∙ h))

cancel_from-CancelOutcome :
    (m : JobManager) (id : String) (j : Job) (s : Status) (now : Time)
    → lookup id m.jobs ≡ some j
    → j.status ≡ s
    → CancelOutcome m id now (cancel_from s m id j now)
unfolding cancel_from remove_pending ended
cancel_from-CancelOutcome m id j pending now e p = elim (mark_cancelled_cases j now) [
  | inl (_, q) ↦ rw (q, cancel_from) (withdraws _ j e p refl)
  | inr (n, _, _) ↦ absurd (n p)
]
cancel_from-CancelOutcome m id j running now e p = elim (mark_cancelled_cases j now) [
  | inl (_, q) ↦
      rw (q, cancel_from)
        (stops _ (ended id m.jobs j cancelled j.exit_code j.error_message now e p (inr (inr refl)))
          refl)
  | inr (_, n, _) ↦ absurd (n p)
]
cancel_from-CancelOutcome m id j completed now e p =
    refuses m _ refl
      (no_more id m j completed e p (λ h. ground (arith, h)) (λ h. ground (arith, h)))
cancel_from-CancelOutcome m id j failed now e p =
    refuses m _ refl (no_more id m j failed e p (λ h. ground (arith, h)) (λ h. ground (arith, h)))
cancel_from-CancelOutcome m id j cancelled now e p =
    refuses m _ refl
      (no_more id m j cancelled e p (λ h. ground (arith, h)) (λ h. ground (arith, h)))
cancel_from-CancelOutcome m id j (other s) now e p =
    refuses m _ refl
      (no_more id m j (other s) e p (λ h. ground (arith, h)) (λ h. ground (arith, h)))

pub cancel-CancelOutcome :
    (m : JobManager) (id : String) (now : Time) → CancelOutcome m id now (cancel m id now)
unfolding cancel
cancel-CancelOutcome m id now = elim (Option-cases (lookup id m.jobs)) [
  | inl e ↦ rw (e, cancel) (refuses m _ refl (λ j f. absurd (ground (arith, e, f))))
  | inr (j, e) ↦ rw (e, cancel) (cancel_from-CancelOutcome m id j j.status now e refl)
]

-- `FailRunningJob` ends a running job and returns what to release, or changes nothing.
abbrev pub FailCases : JobManager → String → JobManager × Option (List String × ℤ) → Type 0
FailCases m id o =
    ((o.0 ≡ m) × (o.1 ≡ none) × ((j : Job) → lookup id m.jobs ≡ some j → j.status ≢ running))
    ⊎ ((x : Ended id m.jobs o.0.jobs) × (o.1
          ≡ some (x.old.assigned_node_ids, x.old.spec.resources.cpus_per_node)))

pub fail_running_job-FailCases :
    (m : JobManager) (id reason : String) (now : Time)
    → FailCases m id (fail_running_job m id reason now)
unfolding fail_running_job ended
fail_running_job-FailCases m id reason now = elim (Option-cases (lookup id m.jobs)) [
  | inl e ↦ rw (e, fail_running_job) (inl (refl, refl, λ j h. absurd (ground (arith, e, h))))
  | inr (j, e) ↦
      rw (e, fail_running_job)
        (ite_ind
          (λ (o : JobManager × Option (List String × ℤ)).
            ((o.0 ≡ m) × (o.1 ≡ none) × ((k : Job) → some j ≡ some k → k.status ≢ running))
            ⊎ ((x : Ended id m.jobs o.0.jobs) × (o.1
                  ≡ some (x.old.assigned_node_ids, x.old.spec.resources.cpus_per_node))))
          (Status-discrete j.status running)
          (λ p. elim (mark_failed-Cases j (pos 1) reason now) [
            | inl (_, q) ↦
                rw q (inr (ended id m.jobs j failed (pos 1) reason now e p (inr (inl refl)), refl))
            | inr (x, _) ↦ absurd (x p)
          ])
          (λ p. inl (refl, refl, λ k h. λ r. p (ap (λ (y : Job). y.status) (some_inj h) ∙ r))))
]

-- `ReportNodeEvent` ends the running job, or leaves the map of jobs alone.
abbrev pub ReportCases : JobManager → String → Outcome (Unit {0}) → Type 0
ReportCases m id o = (o.0.jobs ≡ m.jobs) ⊎ (Ended id m.jobs o.0.jobs × (o.1 ≡ ok tt))

settle-ReportCases :
    (m : JobManager) (id : String) (j : Job) (rs : Map NodeReport) (r : NodeReport) (now : Time)
    → lookup id m.jobs ≡ some j
    → j.status ≡ running
    → ReportCases m id (settle m id j rs r now)
unfolding settle
settle-ReportCases m id j rs r now e p =
    if_ind (ReportCases m id) r.failed
      (λ _. elim (mark_failed-Cases j r.exit_code r.err_msg now) [
        | inl (_, q) ↦
            rw q
              (inr (ended id m.jobs j failed r.exit_code r.err_msg now e p (inr (inl refl)), refl))
        | inr (x, _) ↦ absurd (x p)
      ])
      (λ _.
        if_ind (ReportCases m id) (ltb (length rs) (length j.assigned_node_ids)) (λ _. inl refl)
          (λ _. elim (mark_completed-Cases j (max_exit (pos 0) rs) now) [
            | inl (_, q) ↦ rw q (
                inr (
                  ended id m.jobs j completed (max_exit (pos 0) rs) j.error_message now e p
                      (inl refl),
                  refl,
                ))
            | inr (x, _) ↦ absurd (x p)
          ]))

record_report-ReportCases :
    (m : JobManager) (id node_id : String) (j : Job) (r : NodeReport) (now : Time)
    → lookup id m.jobs ≡ some j
    → j.status ≡ running
    → ReportCases m id (record_report m id node_id j (reports_of m id) r now)
unfolding record_report
record_report-ReportCases m id node_id j r now e p =
    elim (Option-cases (lookup node_id (reports_of m id))) [
      | inl n ↦
          rw (n, record_report)
            (settle-ReportCases (put_reports m id (insert node_id r (reports_of m id))) id j
              (insert node_id r (reports_of m id)) r now e p)
      | inr (_, n) ↦ rw (n, record_report) (inl refl)
    ]

pub report_node_event-ReportCases :
    (m : JobManager) (id node_id : String) (r : NodeReport) (now : Time)
    → ReportCases m id (report_node_event m id node_id r now)
unfolding report_node_event
report_node_event-ReportCases m id node_id r now = elim (Option-cases (lookup id m.jobs)) [
  | inl e ↦ rw (e, report_node_event) (inl refl)
  | inr (j, e) ↦
      rw (e, report_node_event)
        (ite_ind (ReportCases m id) (Status-discrete j.status running)
          (λ p.
            if_ind (ReportCases m id) (assigned_node j node_id)
              (λ _. record_report-ReportCases m id node_id j r now e p) (λ _. inl refl))
          (λ _. inl refl))
]
