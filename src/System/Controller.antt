-- ===== src/System/Controller.antt =====
-- The running controller: internal/controller/server.go with the scheduler, the monitor and the
-- streams over the same registry, jobs and hub, as cmd/controller/main.go makes them.
use slurmlite.Cluster.Monitor.{Monitor, make_monitor, tick, take_beat}
use slurmlite.Cluster.Registry as Nodes
use slurmlite.Cluster.Registry.{Registry}
use slurmlite.Jobs.Manager as Manager
use slurmlite.Jobs.Manager.{JobManager}
use slurmlite.Controller.Hub.{Hub, new_hub}
use slurmlite.Controller.Server.{Server}
use slurmlite.Controller.Streams.{stream_turn}
use slurmlite.Controller.Requests.{Request, serve}
use slurmlite.Controller.Wiring.{hub_dispatcher, failer}
use slurmlite.Protocol.{WellKnown}
use slurmlite.Scheduling.Schedule.{Scheduler, try_schedule}
use slurmlite.Prelude.{
  pos, Time, Duration, Bool, true, false, if◌then◌else◌, String, List, [], Option, none, some, ℕ,
  zero, suc, ◌-◌,
}

module _ (w : WellKnown) where
  -- `New`: of the monitor only the queue of heartbeats is a part of the state, of the scheduler what
  -- waits in its channel. A monitor that is missing is made over the same registry, jobs and hub.
  unfoldable pub new_server :
      Option Registry
      → Option (List String)
      → Option JobManager
      → Option (Hub w.DurationMessage)
      → Option ℕ
      → Server w
  new_server registry heartbeats jobs hub kicks = record {
    registry = elim registry [ none ↦ Nodes.make | some r ↦ r ];
    jobs = elim jobs [ none ↦ Manager.make | some m ↦ m ];
    heartbeats = elim heartbeats [ none ↦ [] | some ids ↦ ids ];
    hub = elim hub [ none ↦ new_hub | some h ↦ h ];
    kicks = kicks;
    id_seq = 0;
  }

  -- The server of `main`, with a scheduler whose channel is empty.
  unfoldable pub controller : Server w
  unfolding new_server
  controller = new_server (some Nodes.make) (some []) (some Manager.make) (some new_hub) (some 0)

  -- `Make`.
  unfoldable pub make_server : Option Registry → Option (List String) → Server w
  unfolding new_server
  make_server registry heartbeats = new_server registry heartbeats none none none

  -- The scheduler's view of the state, and the state after a scheduling step.
  unfoldable pub scheduler_of : Server w → Scheduler (hub_dispatcher w)
  scheduler_of s = record { job_manager = s.jobs; registry = s.registry; dispatch = some s.hub }

  unfoldable pub or_else : {A : Type 0} → Option A → A → A
  or_else none a = a
  or_else (some b) a = b

  unfoldable pub after_scheduling : Server w → Scheduler (hub_dispatcher w) → Server w
  unfolding or_else
  after_scheduling s c = record s {
    jobs = c.job_manager;
    registry = c.registry;
    hub = or_else c.dispatch s.hub;
  }

  unfoldable pub schedule : Server w → Time → Server w × Bool
  unfolding scheduler_of after_scheduling
  schedule s now =
      let (c, more) = try_schedule (hub_dispatcher w) (scheduler_of s) now in
      (after_scheduling s c, more)

  -- The inner loop of `Run`: the queue is tried until nothing more starts. `clock n` is the time
  -- of the step that leaves the fuel `n`; false where the fuel runs out.
  unfoldable pub schedule_all : ℕ → (ℕ → Time) → Server w → Server w × Bool
  schedule_all zero clock s = (s, false)
  schedule_all (suc n) clock s =
      let (s', more) = schedule s (clock n) in
      let rest = schedule_all n clock s' in if more then rest else (s', true)

  -- The monitor that `main` makes, over the state, and the state after one of its events.
  unfoldable pub monitor_of : Server w → Duration → Monitor (failer w.DurationMessage)
  unfolding make_monitor
  monitor_of s timeout =
      record (make_monitor (failer w.DurationMessage) (some s.registry) timeout (pos 0)
        (some (record { jobs = some s.jobs; hub = some s.hub }))) { heartbeats = s.heartbeats }

  unfoldable pub after_monitor : Server w → Monitor (failer w.DurationMessage) → Server w
  unfolding or_else
  after_monitor s m =
      let f = or_else m.jobs (record { jobs = none; hub = none }) in
      record s {
        registry = m.registry;
        heartbeats = m.heartbeats;
        jobs = or_else f.jobs s.jobs;
        hub = or_else f.hub s.hub;
      }

  -- The case `<-s.kick` of `Run`.
  unfoldable pub take_kick : Server w → Server w
  take_kick s = record s { kicks = elim s.kicks [ none ↦ none | some k ↦ some (k - 1) ] }

  -- A step that the controller takes while nothing else runs, from its start to its end: a request is
  -- handled, the scheduler is woken or tries the queue, the monitor's ticker fires or it takes a beat, a
  -- stream of `WatchWork` takes a turn. The program runs these in goroutines of their own and locks the
  -- registry, the job manager and the hub for single calls only, so that it has other runs too.
  pub data SerialStep : Type 0 where
    request : Request w.DurationMessage → SerialStep
    schedules wakes ticks takes_beat : SerialStep
    streams : (node_id : String) (ch : ℕ) (cancelled sends : Bool) → SerialStep

  unfoldable pub serial_step : Duration → Server w → Time → SerialStep → Server w
  unfolding schedule monitor_of after_monitor take_kick
  serial_step timeout s now (request r) = serve w s now r
  serial_step timeout s now schedules = (schedule s now).0
  serial_step timeout s now wakes = take_kick s
  serial_step timeout s now ticks =
      after_monitor s (tick (failer w.DurationMessage) (monitor_of s timeout) now)
  serial_step timeout s now takes_beat =
      after_monitor s (take_beat (failer w.DurationMessage) (monitor_of s timeout) now)
  serial_step timeout s now (streams id ch cancelled sends) =
      (stream_turn w s id ch cancelled sends).0
