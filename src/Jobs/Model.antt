-- ===== src/Jobs/Model.antt =====
-- internal/job/job.go: the job, its statuses, the validation of what a client submits, and the
-- transitions. `time.Now().UTC()` is the argument `now`. A method on `*Job` that fails leaves the
-- job alone, so it returns the new job or the error.
use slurmlite.Prelude.{
  ℤ, pos, ltb_ℤ, Time, Duration, zero_time, Map, is_blank, Result, ok, ◌>>=◌, ◌>>◌, fail_if,
  dec_string, Bool, true, false, not, ◌&&◌, if◌then◌else◌, String, List, [],
}

-- A status is a text; `other` is any text that no constant names.
pub data Status : Type 0 where
  pending running completed failed cancelled : Status
  other : String → Status

unfoldable pub Status-discrete : Discrete Status
unfolding dec_string
Status-discrete = hlevel dec_string

unfoldable pub valid : Status → Bool
valid pending = true
valid running = true
valid completed = true
valid failed = true
valid cancelled = true
valid (other s) = false

unfoldable pub terminal : Status → Bool
terminal completed = true
terminal failed = true
terminal cancelled = true
terminal pending = false
terminal running = false
terminal (other s) = false

pub record ResourceRequest : Type 0 where
  pub nodes_required : ℤ
  pub cpus_per_node : ℤ
  pub max_duration : Duration

pub record Spec : Type 0 where
  pub resources : ResourceRequest
  pub command : String
  pub args : List String
  pub env : Map String

pub record Job : Type 0 where
  pub id : String
  pub status : Status
  pub spec : Spec
  pub assigned_node_ids : List String
  pub submitted_at : Time
  pub started_at : Time
  pub finished_at : Time
  pub exit_code : ℤ
  pub error_message : String

-- The errors of the package, with the values that their texts print.
pub data JobError : Type 0 where
  bad_nodes_required bad_cpus_per_node : ℤ → JobError
  bad_max_duration : Duration → JobError
  empty_command empty_id nil_job job_not_found job_exists : JobError
  invalid_transition : (id : String) (from to : Status) → JobError
  not_pending : Status → JobError
  cannot_cancel : (id : String) → Status → JobError
  not_assigned : (node_id job_id : String) → JobError

unfoldable pub validate_resources : ResourceRequest → Result JobError (Unit {0})
validate_resources r = do
  fail_if (ltb_ℤ r.nodes_required (pos 1)) (bad_nodes_required r.nodes_required)
  fail_if (ltb_ℤ r.cpus_per_node (pos 1)) (bad_cpus_per_node r.cpus_per_node)
  fail_if (ltb_ℤ r.max_duration (pos 0)) (bad_max_duration r.max_duration)

unfoldable pub validate_spec : Spec → Result JobError (Unit {0})
unfolding validate_resources
validate_spec s = do validate_resources s.resources; fail_if (is_blank s.command) empty_command

-- `New`.
unfoldable pub new_job : String → Spec → Time → Result JobError Job
new_job id spec now = do
  fail_if (is_blank id) empty_id
  validate_spec spec
  ok (record {
    id = id;
    status = pending;
    spec = spec;
    assigned_node_ids = [];
    submitted_at = now;
    started_at = zero_time;
    finished_at = zero_time;
    exit_code = pos 0;
    error_message = "";
  })

-- The `switch` of `CanTransition`.
allows : Status → Status → Bool
allows pending running = true
allows pending cancelled = true
allows running completed = true
allows running failed = true
allows running cancelled = true
allows _ _ = false

unfoldable pub can_transition : Job → Status → Bool
unfolding valid allows
can_transition j to = valid to && allows j.status to

unfoldable pub transition : Job → Status → Time → Result JobError Job
unfolding can_transition terminal
transition j to now = do
  fail_if (not (can_transition j to)) (invalid_transition j.id j.status to)
  ok (if terminal to then record j { status = to; finished_at = now } else record j { status = to })

unfoldable pub mark_running : Job → List String → Time → Result JobError Job
unfolding transition
mark_running j node_ids now = do
  t ← transition j running now
  ok (record t { assigned_node_ids = node_ids; started_at = now })

unfoldable pub mark_completed : Job → ℤ → Time → Result JobError Job
unfolding transition
mark_completed j exit_code now = do
  t ← transition j completed now
  ok (record t { exit_code = exit_code })

unfoldable pub mark_failed : Job → ℤ → String → Time → Result JobError Job
unfolding transition
mark_failed j exit_code err_msg now = do
  t ← transition j failed now
  ok (record t { exit_code = exit_code; error_message = err_msg })

unfoldable pub mark_cancelled : Job → Time → Result JobError Job
unfolding transition
mark_cancelled j now = transition j cancelled now
