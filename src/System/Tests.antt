-- ===== src/System/Tests.antt =====
-- A short life of a controller, and the theorems at it.
pub mod Agents
pub mod Races
use slurmlite.Cluster.Registry.{Node, Registry, online}
use slurmlite.Controller.Tests.{plain}
use slurmlite.Controller.Server.{Server}
use slurmlite.Controller.Requests.{registers, submits_job}
use slurmlite.Jobs.Model.{Job, running}
use slurmlite.Scheduling.Resources.{select_gang}
use slurmlite.System.Controller.{
  controller, SerialStep, request, schedules, serial_step, schedule_all,
}
use slurmlite.System.History.{
  SerialReach, started, after, SerialReach-Inv, SerialReach-gangs, SerialReach-no_leak,
}
use slurmlite.System.Invariant.{Inv}
use slurmlite.System.Loop.{IsBlocked, schedule_all_ends}
use native.Mathlib.Decide.{dec_le}
use slurmlite.Cluster.Registry as Nodes
use slurmlite.Cluster.Registry.{
  register_node, registered, list_nodes, sorted_nodes, insert_sorted, id_less, NodeStatus-discrete,
}
use slurmlite.Cluster.Reservations.{
  reserve_nodes, check_request, check_nodes, check_node, take_nodes, taken,
}
use slurmlite.Controller.Convert.{spec_from_proto, resources_from_proto, checked_spec}
use slurmlite.Controller.Hub.{new_hub, dispatch, send, enqueue, newest, queued}
use slurmlite.Controller.Server.{handle_register, kicked, handle_submit, submit_new, job_name}
use slurmlite.Controller.Requests.{serve}
use slurmlite.Jobs.Changes.{mark_running}
use slurmlite.Jobs.Manager as Manager
use slurmlite.Jobs.Manager.{
  submit, peek_pending_job, peek_pending, first, clone_job, copy_into, remove_pending, remove_first,
}
use slurmlite.Jobs.Model as Model
use slurmlite.Jobs.Model.{validate_spec, validate_resources, new_job, Status-discrete}
use slurmlite.Scheduling.Dispatch.{dispatch_work, dispatch_from, assignment_for, assignment_env}
use slurmlite.Scheduling.Resources.{gang_from, node_fits, free_cpus}
use slurmlite.Scheduling.Schedule.{try_schedule, place_gang, start_gang, send_out, kick}
use slurmlite.System.Controller.{schedule, scheduler_of, after_scheduling, or_else, new_server}
use slurmlite.Agent.Executor.{new_executor}
use slurmlite.Agent.Node.{Agent, start_up, heartbeat_tick}
use slurmlite.System.Membership.{direct, IsMember, start_up_joins, heartbeat_tick_rejoins}
use text.Mathlib.TextEquality.{eq_iff}
use slurmlite.Controller.Reports.{handle_report}
use slurmlite.Jobs.Changes.{max_exit, reports_of}
use slurmlite.Jobs.Model.{completed}
use slurmlite.Protocol.{ReportJobStatusRequest, job_event_completed}
use slurmlite.System.Completion.{success, last_report_frees}
use slurmlite.Agent.Executor.{waited, no_error}
use slurmlite.Agent.Node.{handle_assignment}
use slurmlite.Protocol.{WorkAssignment}
use slurmlite.System.Execution.{assignment_completes}
use slurmlite.Prelude.{
  sym, inr, pos, Duration, zero_time, lookup, insert, delete, is_blank, itoa, dec_string, if_neg,
  true, false, String, [], ◌∷◌, length, none, some, ◌≡◌, ◌≢◌, refl, ◌⊎◌, inl, arith, In, Distinct,
  wrap_at, ◌+ℤ◌, ◌-ℤ◌,
}

abbrev pub timeout : Duration
timeout = pos 15000000000

abbrev pub joined : SerialStep plain
joined =
    request
      (registers (some (record { id = "n1"; hostname = "n1"; address = ""; total_cpus = pos 4 })))

abbrev pub asked : SerialStep plain
asked = request (
    submits_job (
      some (record {
        command = "/bin/echo";
        args = [];
        env = [];
        resources =
            some (record { nodes_required = pos 1; cpus_per_node = pos 2; max_duration = none });
      })))

abbrev with_node : Server plain
with_node = serial_step plain timeout (controller plain) 5 joined

abbrev pub with_job : Server plain
with_job = serial_step plain timeout with_node 6 asked

abbrev pub placed : Server plain
placed = serial_step plain timeout with_job 7 schedules

with_job-SerialReach : SerialReach plain timeout with_job
with_job-SerialReach =
    after with_node 6 asked (after (controller plain) 5 joined started (omega arith))
      (omega arith, omega arith)

pub placed-SerialReach : SerialReach plain timeout placed
placed-SerialReach = after with_job 7 schedules with_job-SerialReach tt

SerialReach-Inv_example : Inv placed
SerialReach-Inv_example = SerialReach-Inv plain timeout placed placed-SerialReach

abbrev pub echo : Job
echo = record {
  id = "job-1";
  spec = record {
    resources = record { nodes_required = pos 1; cpus_per_node = pos 2; max_duration = pos 0 };
    command = "/bin/echo";
    args = [];
    env = [];
  };
  status = running;
  assigned_node_ids = "n1" ∷ [];
  submitted_at = 6;
  started_at = 7;
  finished_at = zero_time;
  exit_code = pos 0;
  error_message = "";
}

pub opened : Unit {0}
unfolding serial_step schedule scheduler_of after_scheduling or_else controller new_server
    Nodes.make Manager.make new_hub serve handle_register register_node registered kicked kick
    handle_submit submit_new job_name itoa spec_from_proto resources_from_proto checked_spec
    validate_spec validate_resources is_blank new_job submit Status-discrete try_schedule place_gang
    start_gang send_out peek_pending_job peek_pending first clone_job copy_into list_nodes
    sorted_nodes insert_sorted id_less select_gang gang_from node_fits free_cpus reserve_nodes
    check_request check_nodes check_node take_nodes taken NodeStatus-discrete dispatch_work
    dispatch_from dispatch assignment_for assignment_env send enqueue newest queued mark_running
    Model.mark_running remove_pending remove_first lookup insert delete dec_string ◌-ℤ◌ ◌+ℤ◌ wrap_at
    dec_le
opened = tt

pub runs : lookup "job-1" placed.jobs.jobs ≡ some echo
unfolding opened
runs = refl

abbrev busy : Node
busy = record {
  id = "n1";
  hostname = "n1";
  address = "";
  status = online;
  total_cpus = pos 4;
  allocated_cpus = pos 2;
  current_job_id = "job-1";
  last_heartbeat = 5;
}

carries : lookup "n1" placed.registry.nodes ≡ some busy
unfolding opened
carries = refl

one_waits : length with_job.jobs.pending ≡ 1
unfolding opened
one_waits = refl

SerialReach-gangs_example :
    (pos (length echo.assigned_node_ids) ≡ echo.spec.resources.nodes_required)
    × Distinct echo.assigned_node_ids
    × ((k : String)
        → In k echo.assigned_node_ids
        → (n : Node) × (lookup k placed.registry.nodes ≡ some n)
          × (n.current_job_id ≡ "job-1")
          × (n.allocated_cpus ≡ echo.spec.resources.cpus_per_node))
SerialReach-gangs_example =
    SerialReach-gangs plain timeout placed "job-1" echo placed-SerialReach runs refl

SerialReach-no_leak_example :
    ((busy.current_job_id ≡ "") × (busy.allocated_cpus ≡ pos 0))
    ⊎ ((j : Job) × (lookup busy.current_job_id placed.jobs.jobs ≡ some j)
        × (j.status ≡ running)
        × In "n1" j.assigned_node_ids
        × (busy.allocated_cpus ≡ j.spec.resources.cpus_per_node))
SerialReach-no_leak_example =
    SerialReach-no_leak plain timeout placed "n1" busy placed-SerialReach carries

schedule_all_ends_example :
    ((schedule_all plain 2 (λ n. n) with_job).1 ≡ true)
    × Inv (schedule_all plain 2 (λ n. n) with_job).0
    × IsBlocked (schedule_all plain 2 (λ n. n) with_job).0
schedule_all_ends_example =
    schedule_all_ends plain 2 (λ n. n) with_job
      (SerialReach-Inv plain timeout with_job with_job-SerialReach) (omega (arith, one_waits))
