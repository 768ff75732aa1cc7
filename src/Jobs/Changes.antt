-- ===== src/Jobs/Changes.antt =====
-- internal/job/manager.go: the methods that move a job from one status to the next. The argument
-- `now` is the clock that `Transition` reads.
use slurmlite.Jobs.Manager.{
  JobManager, NodeReport, Outcome, remove_pending, set_job, drop_reports, assigned_node,
}
use slurmlite.Jobs.Model
use slurmlite.Jobs.Model.{
  Job, JobError, Status, Status-discrete, pending, running, completed, failed, cancelled, other,
  nil_job, job_not_found, job_exists, not_pending, cannot_cancel, not_assigned,
}
use slurmlite.Prelude.{
  ℤ, pos, ltb_ℤ, ltb, Time, Map, lookup, insert, ok, err, ite, Bool, true, false, if◌then◌else◌,
  String, List, [], ◌∷◌, ◌++◌, length, Option, none, some,
}

unfoldable pub mark_running : JobManager → String → List String → Time → Outcome (Unit {0})
unfolding remove_pending
mark_running m id node_ids now = elim (lookup id m.jobs) [
  | none ↦ (m, err job_not_found)
  | some j ↦ elim (Model.mark_running j node_ids now) [
    | err e ↦ (m, err e)
    | ok j' ↦
        let m' = remove_pending (set_job m id j') id in
        (record m' { reports = insert id [] m'.reports }, ok tt)
  ]
]

unfoldable pub mark_completed : JobManager → String → ℤ → Time → Outcome (Unit {0})
mark_completed m id exit_code now = elim (lookup id m.jobs) [
  | none ↦ (m, err job_not_found)
  | some j ↦ elim (Model.mark_completed j exit_code now) [
    | err e ↦ (m, err e)
    | ok j' ↦ (drop_reports (set_job m id j') id, ok tt)
  ]
]

unfoldable pub mark_failed : JobManager → String → ℤ → String → Time → Outcome (Unit {0})
mark_failed m id exit_code err_msg now = elim (lookup id m.jobs) [
  | none ↦ (m, err job_not_found)
  | some j ↦ elim (Model.mark_failed j exit_code err_msg now) [
    | err e ↦ (m, err e)
    | ok j' ↦ (drop_reports (set_job m id j') id, ok tt)
  ]
]

-- The assignment and the CPUs to release, or nothing where `ok` is false.
unfoldable pub fail_running_job :
    JobManager → String → String → Time → JobManager × Option (List String × ℤ)
fail_running_job m id reason now = elim (lookup id m.jobs) [
  | none ↦ (m, none)
  | some j ↦
      ite (Status-discrete j.status running)
        (elim (Model.mark_failed j (pos 1) reason now) [
          | err e ↦ (m, none)
          | ok j' ↦ (
            drop_reports (set_job m id j') id,
            some ([] ++ j'.assigned_node_ids, j'.spec.resources.cpus_per_node),
          )
        ])
        (m, none)
]

-- The `switch` of `Cancel`, on the status of the job `j` under `id`.
unfoldable pub cancel_from : Status → JobManager → String → Job → Time → Outcome Bool
cancel_from pending m id j now =
    let m' = remove_pending m id in
    elim (Model.mark_cancelled j now) [ err e ↦ (m', err e) | ok j' ↦ (set_job m' id j', ok false) ]
cancel_from running m id j now = elim (Model.mark_cancelled j now) [
  | err e ↦ (m, err e)
  | ok j' ↦ (drop_reports (set_job m id j') id, ok true)
]
cancel_from s m id j now = (m, err (cannot_cancel id s))

unfoldable pub cancel : JobManager → String → Time → Outcome Bool
unfolding cancel_from remove_pending
cancel m id now = elim (lookup id m.jobs) [
  | none ↦ (m, err job_not_found)
  | some j ↦ cancel_from j.status m id j now
]

-- The loop that takes the largest exit code, from 0.
unfoldable pub max_exit : ℤ → Map NodeReport → ℤ
max_exit acc [] = acc
max_exit acc ((k, r) ∷ rs) = max_exit (if ltb_ℤ acc r.exit_code then r.exit_code else acc) rs

-- `ReportNodeEvent` once the report is recorded: `reports` are those of the job, with the new one.
unfoldable pub settle :
    JobManager → String → Job → Map NodeReport → NodeReport → Time → Outcome (Unit {0})
settle m job_id j reports r now =
    if r.failed
    then elim (Model.mark_failed j r.exit_code r.err_msg now) [
      | err e ↦ (m, err e)
      | ok j' ↦ (drop_reports (set_job m job_id j') job_id, ok tt)
    ]
    else if ltb (length reports) (length j.assigned_node_ids)
    then (m, ok tt)
    else elim (Model.mark_completed j (max_exit (pos 0) reports) now) [
      | err e ↦ (m, err e)
      | ok j' ↦ (drop_reports (set_job m job_id j') job_id, ok tt)
    ]

-- The map of a job's reports, made and stored if it was not there.
unfoldable pub reports_of : JobManager → String → Map NodeReport
reports_of m job_id = elim (lookup job_id m.reports) [ none ↦ [] | some rs ↦ rs ]

abbrev pub put_reports : JobManager → String → Map NodeReport → JobManager
put_reports m job_id rs = record m { reports = insert job_id rs m.reports }

unfoldable pub record_report :
    JobManager → String → String → Job → Map NodeReport → NodeReport → Time → Outcome (Unit {0})
unfolding settle
record_report m job_id node_id j reports r now = elim (lookup node_id reports) [
  | some _ ↦ (m, ok tt)
  | none ↦
      let reports' = insert node_id r reports in
      settle (put_reports m job_id reports') job_id j reports' r now
]

unfoldable pub report_node_event :
    JobManager → String → String → NodeReport → Time → Outcome (Unit {0})
unfolding record_report reports_of assigned_node
report_node_event m job_id node_id r now = elim (lookup job_id m.jobs) [
  | none ↦ (m, err job_not_found)
  | some j ↦
      ite (Status-discrete j.status running)
        (if assigned_node j node_id
          then record_report m job_id node_id j (reports_of m job_id) r now
          else (m, err (not_assigned node_id job_id)))
        (m, ok tt)
]
