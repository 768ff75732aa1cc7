-- ===== src/Controller/Wiring.antt =====
-- How internal/controller/hub.go fills the interfaces of the scheduler and of the monitor: the hub is
-- the scheduler's dispatcher, and `Failer` the monitor's job failure.
use slurmlite.Cluster.Invariant as Registered
use slurmlite.Cluster.Registry.{list_nodes}
use slurmlite.Cluster.Reaper.{JobFailure}
use slurmlite.Controller.Hub.{Hub, dispatch, Failer, fail_for_node}
use slurmlite.Jobs.Changes.{fail_running_job}
use slurmlite.Jobs.Effects.{step, fails_running}
use slurmlite.Jobs.Invariant as Managed
use slurmlite.Jobs.Invariant.Kept.{step-Inv}
use slurmlite.Jobs.Manager.{JobManager, peek_pending}
use slurmlite.Jobs.Model.{Job}
use slurmlite.Protocol.{WellKnown}
use slurmlite.Scheduling.Dispatch.{Assignment, Dispatcher}
use slurmlite.Scheduling.Gang.{select_gang-IsGang}
use slurmlite.Scheduling.Progress.{try_schedule_progress}
use slurmlite.Scheduling.Resources.{select_gang}
use slurmlite.Scheduling.Schedule.{Scheduler, try_schedule}
use slurmlite.Prelude.{Time, lookup, true, String, List, none, some, ◌≡◌, ◌≢◌, arith, In}

abbrev pub hub_dispatcher : WellKnown → Dispatcher
hub_dispatcher w = record { Mailbox = Hub w.DurationMessage; dispatch = dispatch w }

pub dispatch_accepts :
    (w : WellKnown) (h : Hub w.DurationMessage) (id : String) (a : Assignment)
    → id ≢ ""
    → (dispatch w h id a).1 ≡ none
unfolding dispatch
dispatch_accepts w h id a n = ground (arith, n)

-- With the hub as the dispatcher nothing can stop a scheduling step: where the invariants of the
-- registry and of the job manager hold, the head of the queue has a name and a gang for it can be
-- chosen, the step starts the job.
pub hub_schedule_progress :
    (w : WellKnown) (s : Scheduler (hub_dispatcher w)) (now : Time) (id : String) (j : Job)
    (ids : List String)
    → Registered.Inv s.registry
    → Managed.Inv s.job_manager
    → peek_pending s.job_manager ≡ some id
    → id ≢ ""
    → lookup id s.job_manager.jobs ≡ some j
    → select_gang (list_nodes s.registry) j.spec.resources ≡ some ids
    → (try_schedule (hub_dispatcher w) s now).1 ≡ true
hub_schedule_progress w s now id j ids v m hd n st g =
    try_schedule_progress (hub_dispatcher w) s now id j ids v m hd n st g
      (λ k i h a. dispatch_accepts w h k a (named k i))
  where
    named : (k : String) → In k ids → k ≢ ""
    named k i =
        let (o, e, f) = (select_gang-IsGang s.registry j.spec.resources ids v g).free k i in
        (v.sound k o e).named

abbrev pub failer : Type 0 → JobFailure
failer D = record { State = Failer D; fail_running_job = fail_for_node }

pub fail_running-Inv :
    (m : JobManager) (id reason : String) (now : Time)
    → Managed.Inv m
    → Managed.Inv (fail_running_job m id reason now).0
unfolding step
fail_running-Inv m id reason now v = step-Inv m now (fails_running id reason) v
