-- ===== src/System/Tests/Agents.antt =====
-- Agents of a controller, and the theorems at them.
use slurmlite.Cluster.Registry.{Node}
use slurmlite.Controller.Tests.{plain}
use slurmlite.Jobs.Model.{Job}
use slurmlite.System.Controller.{controller}
use slurmlite.System.History.{SerialReach-Inv}
use slurmlite.Agent.Executor.{new_executor}
use slurmlite.Agent.Node.{Agent, heartbeat_tick}
use slurmlite.System.Membership.{direct, IsMember, heartbeat_tick_rejoins}
use text.Mathlib.TextEquality.{eq_iff}
use slurmlite.Controller.Reports.{handle_report}
use slurmlite.Jobs.Changes.{reports_of}
use slurmlite.Jobs.Completion.{IsLargest, with_report}
use slurmlite.Jobs.Model.{completed}
use slurmlite.Protocol.{ReportJobStatusRequest, job_event_completed}
use slurmlite.System.Completion.{success, last_report_frees}
use slurmlite.Agent.Executor.{waited, no_error}
use slurmlite.Agent.Node.{handle_assignment}
use slurmlite.Protocol.{WorkAssignment}
use slurmlite.System.Execution.{assignment_completes}
use slurmlite.Prelude.{
  ℤ, inr, pos, Duration, lookup, false, String, [], none, some, ◌≡◌, ◌≢◌, refl, inl, arith, In,
}
use slurmlite.System.Tests.{echo, opened, placed, placed-SerialReach, runs, timeout}

node_named : ◌≢◌ {A = String} "n1" ""
node_named e = ground (arith, eq_iff "n1" "")

-- An agent of a controller that does not know its node.
abbrev agent : Agent (direct plain 9)
agent = record {
  client = controller plain;
  cfg = record {
    id = "n1";
    hostname = "n1";
    address = "";
    total_cpus = pos 4;
    interval = pos 1000000000;
  };
  exec = new_executor;
}

heartbeat_tick_rejoins_example :
    let (a', stops) = heartbeat_tick (direct plain 9) agent false in
    (stops ≡ false) × (a'.cfg.id ≡ "n1") × IsMember a'.client "n1"
heartbeat_tick_rejoins_example = heartbeat_tick_rejoins plain 9 agent false node_named

abbrev done : ReportJobStatusRequest
done = record {
  node_id = "n1";
  job_id = "job-1";
  event = job_event_completed;
  exit_code = pos 3;
  error_message = "";
}

unreported : lookup "n1" (reports_of placed.jobs "job-1") ≡ none
unfolding opened reports_of
unreported = refl

last_report_frees_example :
    let s' = (handle_report plain placed done 9).0 in
    ((e : ℤ) × IsLargest e (with_report placed.jobs "job-1" "n1" (success done))
      × (lookup "job-1" s'.jobs.jobs
          ≡ some (record echo { status = completed; finished_at = 9; exit_code = e })))
    × ((k : String)
        → In k echo.assigned_node_ids
        → (n : Node) → lookup k s'.registry.nodes ≡ some n
        → (n.current_job_id ≡ "") × (n.allocated_cpus ≡ pos 0))
last_report_frees_example =
    last_report_frees plain placed done 9 echo
      (SerialReach-Inv plain timeout placed placed-SerialReach) refl
      (record { found = runs; is_running = refl; assigned = inl refl; unseen = unreported })
      (λ n i ne. absurd (elim i [ inl e ↦ ne e | inr h ↦ h ]))

-- The agent of the node that runs the job.
abbrev worker : Agent (direct plain 9)
worker = record {
  client = placed;
  cfg = record {
    id = "n1";
    hostname = "n1";
    address = "";
    total_cpus = pos 4;
    interval = pos 1000000000;
  };
  exec = new_executor;
}

abbrev echo_work : WorkAssignment Duration
echo_work = record {
  job_id = "job-1";
  command = "/bin/echo";
  args = [];
  env = [];
  max_duration = none;
  node_rank = pos 0;
  nnodes = pos 1;
  cpus_per_node = pos 2;
}

command_named : ◌≢◌ {A = String} "/bin/echo" ""
command_named e = ground (arith, eq_iff "/bin/echo" "")

free_slot : worker.exec.job_id ≡ ""
unfolding new_executor
free_slot = refl

assignment_completes_example :
    let a' = handle_assignment (direct plain 9) plain worker (some echo_work) 0 (waited no_error) in
    ((k : Job) × (lookup "job-1" a'.client.jobs.jobs ≡ some k) × (k.status ≡ completed))
    × ((n : Node)
        → lookup "n1" a'.client.registry.nodes ≡ some n
        → (n.current_job_id ≡ "") × (n.allocated_cpus ≡ pos 0))
    × (a'.exec.job_id ≡ "")
assignment_completes_example =
    assignment_completes plain 9 worker echo_work 0 echo
      (SerialReach-Inv plain timeout placed placed-SerialReach) command_named free_slot runs refl
      refl unreported
