-- ===== src/Jobs/Transitions.antt =====
-- What the transitions of internal/job/job.go do, case by case.
use slurmlite.Jobs.Model
use slurmlite.Jobs.Model.{
  Job, JobError, Status, Spec, pending, running, completed, failed, cancelled, other,
  invalid_transition, terminal, can_transition, transition, new_job, validate_resources,
  validate_spec,
}
use slurmlite.Prelude.{ℤ, Time, Result, ok, err, if◌then◌else◌, String, List, ◌≡◌, ◌≢◌, ◌⊎◌, arith}

-- A job that moves to `to` at `now`.
abbrev pub moved : Job → Status → Time → Job
moved j to now =
    if terminal to then record j { status = to; finished_at = now } else record j { status = to }

-- The call went through from the status `from` with the new job, or failed and `from` did not hold.
abbrev pub Cases : Job → Status → Status → Job → Result JobError Job → Type 0
Cases j from to j' r =
    ((j.status ≡ from) × (r ≡ ok j'))
    ⊎ ((j.status ≢ from) × (r ≡ err (invalid_transition j.id j.status to)))

pub mark_running-Cases :
    (j : Job) (node_ids : List String) (now : Time)
    → Cases j pending running
        (record j { status = running; assigned_node_ids = node_ids; started_at = now })
        (Model.mark_running j node_ids now)
unfolding Model.mark_running
mark_running-Cases j node_ids now = ground arith

pub mark_completed-Cases :
    (j : Job) (code : ℤ) (now : Time)
    → Cases j running completed
        (record j { status = completed; finished_at = now; exit_code = code })
        (Model.mark_completed j code now)
unfolding Model.mark_completed
mark_completed-Cases j code now = ground arith

pub mark_failed-Cases :
    (j : Job) (code : ℤ) (msg : String) (now : Time)
    → Cases j running failed
        (record j { status = failed; finished_at = now; exit_code = code; error_message = msg })
        (Model.mark_failed j code msg now)
unfolding Model.mark_failed
mark_failed-Cases j code msg now = ground arith

pub mark_cancelled_cases :
    (j : Job) (now : Time)
    → (((j.status ≡ pending) ⊎ (j.status ≡ running))
        × (Model.mark_cancelled j now ≡ ok (record j { status = cancelled; finished_at = now })))
      ⊎ ((j.status ≢ pending)
          × (j.status ≢ running)
          × (Model.mark_cancelled j now ≡ err (invalid_transition j.id j.status cancelled)))
unfolding Model.mark_cancelled
mark_cancelled_cases j now = ground arith
