-- ===== src/Cli/Tables.antt =====
-- cmd/slctl/commands.go: the cells of the tables that `slctl queue` and `slctl nodes` print. What
-- `Duration.String` and `Time.Format` print are parameters; the columns are those of the tabwriter.
use slurmlite.Protocol.{
  JobStatus, job_status_unspecified, job_status_pending, job_status_running, job_status_completed,
  job_status_failed, job_status_cancelled, PbNodeStatus, node_status_online, node_status_offline,
  node_status_busy, JobSpec, PbJob, PbNode, WellKnown,
}
use Prim.Native.String.{◌++◌ as text_append}
use slurmlite.Prelude.{
  ℤ, pos, leb_ℤ, Duration, itoa, dec_string, ite, if◌then◌else◌, String, List, [], ◌∷◌, Option,
  none, some,
}

unfoldable pub job_status_name : JobStatus → String
job_status_name job_status_pending = "pending"
job_status_name job_status_running = "running"
job_status_name job_status_completed = "completed"
job_status_name job_status_failed = "failed"
job_status_name job_status_cancelled = "cancelled"
job_status_name s = "unknown"

unfoldable pub node_status_name : PbNodeStatus → String
node_status_name node_status_online = "online"
node_status_name node_status_offline = "offline"
node_status_name node_status_busy = "busy"
node_status_name s = "unknown"

-- The loops that append a separator and a text.
unfoldable pub append_each : String → String → List String → String
append_each out sep [] = out
append_each out sep (x ∷ xs) = append_each (text_append out (text_append sep x)) sep xs

unfoldable pub format_command : {D : Type 0} → Option (JobSpec D) → String
unfolding append_each
format_command none = ""
format_command (some spec) = append_each spec.command " " spec.args

unfoldable pub format_duration : (Duration → String) → Duration → String
format_duration text d = if leb_ℤ d (pos 0) then "-" else text d

unfoldable pub join_ids : List String → String
unfolding append_each
join_ids [] = "-"
join_ids (id ∷ ids) = append_each id "," ids

unfoldable pub dash : String → String
dash s = ite (dec_string s "") "-" s

pub record QueueRow : Type 0 where
  pub id : String
  pub status : String
  pub nodes : String
  pub cpus : String
  pub time : String
  pub assigned : String
  pub command : String

pub record NodeRow : Type 0 where
  pub id : String
  pub status : String
  pub cpus : String
  pub used : String
  pub job : String
  pub heartbeat : String
  pub host : String

module _ (w : WellKnown) where
  -- The getters on a job that is missing, or whose specification is, return zero values.
  unfoldable pub resources_of : Option (JobSpec w.DurationMessage) → ℤ × ℤ × Duration
  resources_of none = (pos 0, pos 0, pos 0)
  resources_of (some spec) = elim spec.resources [
    | none ↦ (pos 0, pos 0, pos 0)
    | some r ↦ (
      r.nodes_required,
      r.cpus_per_node,
      elim r.max_duration [ none ↦ pos 0 | some d ↦ w.as_duration d ],
    )
  ]

  unfoldable pub queue_row :
      (Duration → String) → Option (PbJob w.DurationMessage w.Timestamp) → QueueRow
  unfolding resources_of job_status_name format_duration join_ids format_command
  queue_row text none = record {
    id = "";
    status = job_status_name job_status_unspecified;
    nodes = itoa (pos 0);
    cpus = itoa (pos 0);
    time = format_duration text (pos 0);
    assigned = join_ids [];
    command = "";
  }
  queue_row text (some j) =
      let (nodes, cpus, time) = resources_of j.spec in
      record {
        id = j.id;
        status = job_status_name j.status;
        nodes = itoa nodes;
        cpus = itoa cpus;
        time = format_duration text time;
        assigned = join_ids j.assigned_node_ids;
        command = format_command j.spec;
      }

  unfoldable pub node_row : (w.Timestamp → String) → PbNode w.Timestamp → NodeRow
  unfolding node_status_name dash
  node_row text n = record {
    id = n.id;
    status = node_status_name n.status;
    cpus = itoa n.total_cpus;
    used = itoa n.allocated_cpus;
    job = dash n.current_job_id;
    heartbeat = elim n.last_heartbeat [ none ↦ "-" | some t ↦ text t ];
    host = dash n.hostname;
  }
