-- ===== src/Scheduling/Schedule.antt =====
-- internal/scheduler/scheduler.go: one scheduling step, where nothing else happens between its
-- calls of the job manager, the registry and the dispatcher.
use slurmlite.Cluster.Registry as Nodes
use slurmlite.Cluster.Registry.{Registry, list_nodes}
use slurmlite.Cluster.Reservations.{reserve_nodes, release_nodes}
use slurmlite.Jobs.Changes.{mark_running, mark_failed}
use slurmlite.Jobs.Manager as Manager
use slurmlite.Jobs.Manager.{JobManager, peek_pending_job}
use slurmlite.Jobs.Model.{Job}
use slurmlite.Scheduling.Dispatch.{Dispatcher, dispatch_work}
use slurmlite.Scheduling.Resources.{select_gang}
use slurmlite.Prelude.{
  pos, ltb, Time, ok, err, Bool, true, false, if◌then◌else◌, String, List, Option, none, some, ℕ,
  ◌+◌,
}

-- The capacity of the channel `kick`, and a send that does not wait.
unfoldable pub kick : ℕ → ℕ
kick waiting = if ltb waiting 1 then waiting + 1 else waiting

module _ (d : Dispatcher) where
  pub record Scheduler : Type 0 where
    pub job_manager : JobManager
    pub registry : Registry
    pub dispatch : Option d.Mailbox

  -- `Make`, whose channel is empty.
  unfoldable pub make_scheduler : Option JobManager → Option Registry → Option d.Mailbox → Scheduler
  make_scheduler jobs registry dispatch = record {
    job_manager = elim jobs [ none ↦ Manager.make | some m ↦ m ];
    registry = elim registry [ none ↦ Nodes.make | some r ↦ r ];
    dispatch = dispatch;
  }

  -- The tail of `trySchedule`: the gang `ids` is reserved and the job is running. `now` is the time
  -- of a failure to dispatch.
  unfoldable pub send_out : Scheduler → Job → List String → Time → Scheduler × Bool
  send_out s j ids now =
      let cpus = j.spec.resources.cpus_per_node in
      let (box, e) = dispatch_work d s.dispatch j ids in
      elim e [
        | none ↦ (record s { dispatch = box }, true)
        | some text ↦ (
          record s {
            job_manager = (mark_failed s.job_manager j.id (pos 1) text now).0;
            registry = release_nodes s.registry ids cpus;
            dispatch = box;
          },
          false,
        )
      ]

  unfoldable pub start_gang : Scheduler → Job → List String → Time → Scheduler × Bool
  start_gang s j ids now =
      let cpus = j.spec.resources.cpus_per_node in
      let (m, result) = mark_running s.job_manager j.id ids now in
      elim result [
        | err e ↦
            (record s { job_manager = m; registry = release_nodes s.registry ids cpus }, false)
        | ok _ ↦ send_out (record s { job_manager = m }) j ids now
      ]

  unfoldable pub place_gang : Scheduler → Job → List String → Time → Scheduler × Bool
  place_gang s j ids now =
      let (r, result) = reserve_nodes s.registry j.id ids j.spec.resources.cpus_per_node in
      elim result [
        | err e ↦ (record s { registry = r }, false)
        | ok _ ↦ start_gang (record s { registry = r }) j ids now
      ]

  unfoldable pub try_schedule : Scheduler → Time → Scheduler × Bool
  try_schedule s now = elim (peek_pending_job s.job_manager) [
    | none ↦ (s, false)
    | some j ↦ elim (select_gang (list_nodes s.registry) j.spec.resources) [
      | none ↦ (s, false)
      | some ids ↦ place_gang s j ids now
    ]
  ]
