-- ===== src/Jobs/Effects.antt =====
-- The calls of internal/job/manager.go as one step function, and the few effects that a call can
-- have on the manager: the specification that the invariants and the life cycle rest on.
pub mod Steps
use slurmlite.Jobs.Changes
use slurmlite.Jobs.Changes.{settle, record_report, reports_of, max_exit}
use slurmlite.Jobs.Manager
use slurmlite.Jobs.Manager.{
  JobManager, NodeReport, Outcome, remove_first, assigned_in, set_job, drop_reports,
}
use slurmlite.Jobs.Model
use slurmlite.Jobs.Model.{
  Job, JobError, Status, Status-discrete, pending, running, completed, failed, cancelled, other,
}
use slurmlite.Jobs.Transitions.{
  mark_running-Cases, mark_completed-Cases, mark_failed-Cases, mark_cancelled_cases,
}
use slurmlite.Prelude.{
  ℤ, pos, negsuc, pos_part, neg_part, ltb_ℤ, leb_ℤ, ltb, leb, ◌==◌, Time, Duration, zero_time, Map,
  lookup, insert, delete, HasUniqueKeys, lookup-insert, lookup-insert_self, lookup-insert_ne,
  lookup-delete, insert-HasUniqueKeys, delete-HasUniqueKeys, is_blank, Result, ok, err, ◌>>=◌, ◌>>◌,
  fail_if, dec_string, ite, if_pos, if_neg, Bool, true, false, not, ◌&&◌, ◌||◌, if◌then◌else◌,
  Bool-cases, Option-cases, ite_ind, String, List, [], ◌∷◌, ◌++◌, map, length, Option, none, some,
  ◌≡◌, ◌≢◌, refl, sym, ap, subst, ◌∙◌, ◌⊎◌, inl, inr, ◌↔◌, ℕ, zero, suc, ◌+◌, ◌-◌, ◌<◌, ◌≤◌, ◌^◌,
  arith, In, Distinct, All, length-append, In-append_left, In-append_right, In-append_cases,
  Distinct-snoc, ◌+ℤ◌, ◌-ℤ◌, ◌≤ℤ◌, ◌<ℤ◌, wrap64, wrap32, Fits,
}

pub data Call : Type 0 where
  submits : Option Job → Call
  marks_running : (id : String) (node_ids : List String) → Call
  marks_completed : (id : String) (exit_code : ℤ) → Call
  marks_failed : (id : String) (exit_code : ℤ) (err_msg : String) → Call
  fails_running : (id reason : String) → Call
  cancels : (id : String) → Call
  reports_event : (job_id node_id : String) → NodeReport → Call

-- The error that a method returned.
abbrev pub error_of : {A : Type 0} → Result JobError A → Option JobError
error_of (ok a) = none
error_of (err e) = some e

abbrev pub outcome : {A : Type 0} → Outcome A → JobManager × Option JobError
outcome (m, r) = (m, error_of r)

-- A call at the time `now`.
unfoldable pub step : JobManager → Time → Call → JobManager × Option JobError
step m now (submits j) = outcome (Manager.submit m j)
step m now (marks_running id node_ids) = outcome (Changes.mark_running m id node_ids now)
step m now (marks_completed id code) = outcome (Changes.mark_completed m id code now)
step m now (marks_failed id code msg) = outcome (Changes.mark_failed m id code msg now)
step m now (fails_running id reason) = ((Changes.fail_running_job m id reason now).0, none)
step m now (cancels id) = outcome (Changes.cancel m id now)
step m now (reports_event job_id node_id r) =
    outcome (Changes.report_node_event m job_id node_id r now)

unfoldable pub run : JobManager → List (Time × Call) → JobManager
run m [] = m
run m ((now, c) ∷ cs) = run (step m now c).0 cs

abbrev pub started_job : Job → List String → Time → Job
started_job j node_ids now = record j {
  status = running;
  assigned_node_ids = node_ids;
  started_at = now;
}

abbrev pub ended_job : Job → Status → ℤ → String → Time → Job
ended_job j s code msg now = record j {
  status = s;
  finished_at = now;
  exit_code = code;
  error_message = msg;
}

abbrev pub withdrawn_job : Job → Time → Job
withdrawn_job j now = record j { status = cancelled; finished_at = now }

abbrev pub IsFinal : Status → Type 0
IsFinal s = (s ≡ completed) ⊎ (s ≡ failed) ⊎ (s ≡ cancelled)

-- How a call on a job that is there may change the manager.
pub data Effect (m m' : JobManager) : Type 0 where
  unchanged : m' ≡ m → Effect m m'
  started :
      (id : String) (j : Job) (node_ids : List String) (now : Time)
      → lookup id m.jobs ≡ some j
      → j.status ≡ pending
      → m' ≡ record m {
        jobs = insert id (started_job j node_ids now) m.jobs;
        pending = remove_first id m.pending;
        reports = insert id [] m.reports;
      }
      → Effect m m'
  withdrawn :
      (id : String) (j : Job) (now : Time)
      → lookup id m.jobs ≡ some j
      → j.status ≡ pending
      → m' ≡ record m {
        jobs = insert id (withdrawn_job j now) m.jobs;
        pending = remove_first id m.pending;
      }
      → Effect m m'
  noted :
      (id node_id : String) (j : Job) (r : NodeReport)
      → lookup id m.jobs ≡ some j
      → j.status ≡ running
      → assigned_in j.assigned_node_ids node_id ≡ true
      → lookup node_id (reports_of m id) ≡ none
      → r.failed ≡ false
      → length (insert node_id r (reports_of m id)) < length j.assigned_node_ids
      → m' ≡ record m { reports = insert id (insert node_id r (reports_of m id)) m.reports }
      → Effect m m'
  ended :
      (id : String) (j : Job) (s : Status) (code : ℤ) (msg : String) (now : Time)
      → lookup id m.jobs ≡ some j
      → j.status ≡ running
      → IsFinal s
      → m' ≡ record m {
        jobs = insert id (ended_job j s code msg now) m.jobs;
        reports = delete id m.reports;
      }
      → Effect m m'

-- The id of the job that a call added, if it added one.
abbrev pub added_by : Call → Option JobError → List String
added_by (submits (some j)) none = j.id ∷ []
added_by c e = []

unfoldable pub added : JobManager → Time → Call → List String
added m now c = added_by c (step m now c).1

-- How a call may change the manager, and the ids that it adds.
pub data Change (m : JobManager) (ids : List String) (m' : JobManager) : Type 0 where
  joins :
      (j : Job)
      → j.status ≡ pending
      → lookup j.id m.jobs ≡ none
      → ids ≡ j.id ∷ []
      → m' ≡ record m { jobs = insert j.id j m.jobs; pending = m.pending ++ j.id ∷ [] }
      → Change m ids m'
  acts : ids ≡ [] → Effect m m' → Change m ids m'
