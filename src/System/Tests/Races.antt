-- ===== src/System/Tests/Races.antt =====
-- The two races of System/Races in the life of a controller with one node.
use slurmlite.Cluster.Registry.{Node}
use slurmlite.Cluster.Registry as Nodes
use slurmlite.Cluster.Reservations.{release_nodes, freed}
use slurmlite.Controller.Hub.{clear_cancel}
use slurmlite.Controller.Reports.{
  handle_report, report_event, end_event, report_end, is_failed, settle_nodes,
}
use slurmlite.Controller.Requests.{reports}
use slurmlite.Controller.Server.{Server, cancel_read}
use slurmlite.Controller.Tests.{plain}
use slurmlite.Jobs.Changes.{record_report, reports_of, settle, max_exit, report_node_event}
use slurmlite.Jobs.Changes as Changes
use slurmlite.Jobs.Manager as Manager
use slurmlite.Jobs.Manager.{assigned_node, NodeReport}
use slurmlite.Jobs.Model as Model
use slurmlite.Jobs.Model.{Job, pending, running, completed, cancelled, terminal}
use slurmlite.Protocol.{ReportJobStatusRequest, job_event_completed}
use slurmlite.System.Controller.{request, schedules, serial_step}
use slurmlite.System.History.{SerialReach, after, SerialReach-Inv}
use slurmlite.System.Races.{cancel_read-leaks, report_end-frees_others}
use slurmlite.System.Tests.{
  timeout, asked, with_job, placed, placed-SerialReach, echo, opened, runs,
}
use slurmlite.Prelude.{
  ok, pos, zero_time, lookup, true, false, String, [], ◌∷◌, some, ◌≡◌, refl, inl, arith, In,
  Distinct,
}

-- The job as `CancelJob` reads it before the scheduler starts it.
abbrev read_early : Job
read_early = record echo { status = pending; assigned_node_ids = []; started_at = zero_time }

was_read : Manager.get with_job.jobs "job-1" ≡ ok read_early
unfolding opened Manager.get
was_read = refl

cancel_read-leaks_example :
    let s' = (cancel_read plain placed read_early "job-1" 8).0 in
    ((k : Job) × (lookup "job-1" s'.jobs.jobs ≡ some k) × (k.status ≡ cancelled))
    × ((k : String)
        → In k echo.assigned_node_ids
        → (n : Node) × (lookup k s'.registry.nodes ≡ some n)
          × (n.current_job_id ≡ "job-1")
          × (n.allocated_cpus ≡ echo.spec.resources.cpus_per_node))
cancel_read-leaks_example =
    cancel_read-leaks plain placed read_early "job-1" 8 echo
      (SerialReach-Inv plain timeout placed placed-SerialReach) refl runs refl

abbrev done : ReportJobStatusRequest
done = record {
  node_id = "n1";
  job_id = "job-1";
  event = job_event_completed;
  exit_code = pos 0;
  error_message = "";
}

abbrev ended : Server plain
ended = serial_step plain timeout placed 9 (request (reports done))

abbrev asked_again : Server plain
asked_again = serial_step plain timeout ended 10 asked

-- The node has gone on to a second job.
abbrev reused : Server plain
reused = serial_step plain timeout asked_again 11 schedules

reused-SerialReach : SerialReach plain timeout reused
reused-SerialReach =
    after asked_again 11 schedules
      (after ended 10 asked (after placed 9 (request (reports done)) placed-SerialReach tt)
        (omega arith, omega arith))
      tt

abbrev first_job : Job
first_job = record echo { status = completed; finished_at = 9 }

abbrev second_job : Job
second_job = record echo { id = "job-2"; submitted_at = 10; started_at = 11 }

reported : Unit {0}
unfolding opened handle_report report_event end_event report_end is_failed settle_nodes Nodes.get
    Manager.get report_node_event assigned_node record_report reports_of settle max_exit
    Changes.mark_completed Model.mark_completed terminal clear_cancel release_nodes freed
reported = tt

first_ended : lookup "job-1" reused.jobs.jobs ≡ some first_job
unfolding reported
first_ended = refl

second_runs : lookup "job-2" reused.jobs.jobs ≡ some second_job
unfolding reported
second_runs = refl

alone : Distinct ("n1" ∷ [])
alone = ((λ i. i), tt)

ends : terminal first_job.status ≡ true
unfolding terminal
ends = refl

lives : terminal echo.status ≡ false
unfolding terminal
lives = refl

abbrev again : NodeReport
again = record { failed = false; exit_code = pos 0; err_msg = "" }

-- The agent's call is made twice, and the second one read the job while it was running.
report_end-frees_others_example :
    let s' = (report_end plain reused echo "n1" "job-1" again 12).0 in
    (lookup "job-2" s'.jobs.jobs ≡ some second_job)
    × ((n : Node) × (lookup "n1" s'.registry.nodes ≡ some n) × (n.current_job_id ≡ ""))
report_end-frees_others_example =
    report_end-frees_others plain reused echo first_job "n1" "job-1" again 12 "job-2" "n1"
      second_job (SerialReach-Inv plain timeout reused reused-SerialReach) lives first_ended ends
      alone (inl refl) second_runs refl (inl refl)
