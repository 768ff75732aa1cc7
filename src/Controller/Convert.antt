-- ===== src/Controller/Convert.antt =====
-- internal/controller/convert.go: between the messages of the service and the program's own types.
-- `int(...)` of an int32 keeps the value; `int32(...)` of an int wraps.
use slurmlite.Cluster.Registry.{Node, NodeStatus, online, offline}
use slurmlite.Cluster.Registry as Nodes
use slurmlite.Jobs.Manager.{copy_into}
use slurmlite.Jobs.Model.{
  Job, JobError, ResourceRequest, Spec, Status, pending, running, completed, failed, cancelled,
  other, validate_spec,
}
use slurmlite.Protocol.{
  WellKnown, JobStatus, job_status_unspecified, job_status_pending, job_status_running,
  job_status_completed, job_status_failed, job_status_cancelled, job_status_other, PbNodeStatus,
  node_status_unspecified, node_status_online, node_status_offline, node_status_busy,
  PbResourceRequest, JobSpec, PbJob, PbNode,
}
use text.Mathlib.Text.{is_lt}
use Prim.Native.String.{compare}
use slurmlite.Prelude.{
  pos, ltb_ℤ, ltb, ◌==◌, Time, is_zero, Result, ok, err, dec_string, ite, Bool, if◌then◌else◌, List,
  [], ◌∷◌, ◌++◌, Option, none, some, wrap32,
}

-- Why a job's specification is refused.
pub data SpecError : Type 0 where
  spec_required : SpecError
  invalid_spec : JobError → SpecError

unfoldable pub job_status_to_proto : Status → JobStatus
job_status_to_proto pending = job_status_pending
job_status_to_proto running = job_status_running
job_status_to_proto completed = job_status_completed
job_status_to_proto failed = job_status_failed
job_status_to_proto cancelled = job_status_cancelled
job_status_to_proto (other s) = job_status_unspecified

unfoldable pub job_status_from_proto : JobStatus → Option Status
job_status_from_proto job_status_pending = some pending
job_status_from_proto job_status_running = some running
job_status_from_proto job_status_completed = some completed
job_status_from_proto job_status_failed = some failed
job_status_from_proto job_status_cancelled = some cancelled
job_status_from_proto job_status_unspecified = none
job_status_from_proto (job_status_other n) = none

unfoldable pub node_status_to_proto : Node → PbNodeStatus
node_status_to_proto n = elim n.status [
  | offline ↦ node_status_offline
  | online ↦ ite (dec_string n.current_job_id "") node_status_online node_status_busy
  | Nodes.other s ↦ node_status_unspecified
]

-- The order of `sortJobs`.
unfoldable pub job_before : Job → Job → Bool
job_before a b =
    if a.submitted_at == b.submitted_at
    then is_lt (compare a.id b.id)
    else ltb a.submitted_at b.submitted_at

unfoldable pub insert_job : Job → List Job → List Job
insert_job j [] = j ∷ []
insert_job j (x ∷ xs) =
    let rest = insert_job j xs in if job_before x j then x ∷ rest else j ∷ x ∷ xs

unfoldable pub sort_jobs : List Job → List Job
unfolding insert_job
sort_jobs [] = []
sort_jobs (j ∷ js) = insert_job j (sort_jobs js)

-- The end of `specFromProto`.
unfoldable pub checked_spec : Spec → Result SpecError Spec
checked_spec spec = elim (validate_spec spec) [ err e ↦ err (invalid_spec e) | ok _ ↦ ok spec ]

module _ (w : WellKnown) where
  unfoldable pub timestamp_or_nil : Time → Option w.Timestamp
  timestamp_or_nil t = if is_zero t then none else some (w.new_timestamp t)

  unfoldable pub spec_to_proto : Spec → JobSpec w.DurationMessage
  spec_to_proto s = record {
    command = s.command;
    args = [] ++ s.args;
    env = s.env;
    resources = some (record {
      nodes_required = wrap32 s.resources.nodes_required;
      cpus_per_node = wrap32 s.resources.cpus_per_node;
      max_duration =
          if ltb_ℤ (pos 0) s.resources.max_duration
          then some (w.new_duration s.resources.max_duration)
          else none;
    });
  }

  unfoldable pub resources_from_proto :
      Option (PbResourceRequest w.DurationMessage) → ResourceRequest
  resources_from_proto none = record {
    nodes_required = pos 0;
    cpus_per_node = pos 0;
    max_duration = pos 0;
  }
  resources_from_proto (some r) = record {
    nodes_required = r.nodes_required;
    cpus_per_node = r.cpus_per_node;
    max_duration = elim r.max_duration [ none ↦ pos 0 | some d ↦ w.as_duration d ];
  }

  unfoldable pub spec_from_proto : Option (JobSpec w.DurationMessage) → Result SpecError Spec
  unfolding resources_from_proto copy_into checked_spec
  spec_from_proto none = err spec_required
  spec_from_proto (some p) = checked_spec (record {
    command = p.command;
    args = [] ++ p.args;
    env = copy_into [] p.env;
    resources = resources_from_proto p.resources;
  })

  unfoldable pub job_to_proto : Option Job → Option (PbJob w.DurationMessage w.Timestamp)
  unfolding job_status_to_proto spec_to_proto timestamp_or_nil
  job_to_proto none = none
  job_to_proto (some j) = some (record {
    id = j.id;
    status = job_status_to_proto j.status;
    spec = some (spec_to_proto j.spec);
    assigned_node_ids = [] ++ j.assigned_node_ids;
    submitted_at = timestamp_or_nil j.submitted_at;
    started_at = timestamp_or_nil j.started_at;
    finished_at = timestamp_or_nil j.finished_at;
    exit_code = wrap32 j.exit_code;
    error_message = j.error_message;
  })

  unfoldable pub node_to_proto : Node → PbNode w.Timestamp
  unfolding node_status_to_proto timestamp_or_nil
  node_to_proto n = record {
    id = n.id;
    hostname = n.hostname;
    address = n.address;
    status = node_status_to_proto n;
    total_cpus = wrap32 n.total_cpus;
    allocated_cpus = wrap32 n.allocated_cpus;
    last_heartbeat = timestamp_or_nil n.last_heartbeat;
    current_job_id = n.current_job_id;
  }
