-- ===== src/Controller/Server.antt =====
-- internal/controller/server.go: the handlers over the controller's state, one at a time, with what
-- each calls in its order. The texts of gRPC errors are constructors that hold what they print.
use slurmlite.Cluster.Monitor.{queue_beat}
use slurmlite.Cluster.Registry as Nodes
use slurmlite.Cluster.Registry.{Node, Registry, online, register_node, list_nodes}
use slurmlite.Cluster.Reservations.{release_nodes}
use slurmlite.Controller.Convert.{
  SpecError, job_status_from_proto, sort_jobs, spec_from_proto, job_to_proto, node_to_proto,
}
use slurmlite.Controller.Hub.{Hub, subscribe, notify_cancel, pending_cancel}
use slurmlite.Jobs.Changes.{cancel}
use slurmlite.Jobs.Manager as Manager
use slurmlite.Jobs.Manager.{JobManager, NodeReport, submit, list}
use slurmlite.Jobs.Model.{Job, JobError, Status, new_job}
use slurmlite.Protocol.{WellKnown, JobStatus, NodeSpec, JobSpec, PbJob, PbNode, HeartbeatResponse}
use slurmlite.Scheduling.Schedule.{kick}
use Prim.Native.String.{◌++◌ as text_append}
use slurmlite.Prelude.{
  pos, ltb_ℤ, Time, itoa, Result, ok, err, dec_string, ite, true, if◌then◌else◌, String, List, [],
  ◌∷◌, map, Option, none, some, ℕ, ◌+◌, ◌%◌, ◌^◌,
}

pub data RpcError : Type 0 where
  missing : (field : String) → RpcError
  bad_spec : SpecError → RpcError
  bad_job bad_report : JobError → RpcError
  unknown_node : RpcError
  unknown_job : RpcError
  refused : JobError → RpcError
  internal : JobError → RpcError

module _ (w : WellKnown) where
  -- `heartbeats` is the monitor's queue, `kicks` what waits in the scheduler's channel, none where
  -- there is no scheduler.
  pub record Server : Type 0 where
    pub registry : Registry
    pub jobs : JobManager
    pub heartbeats : List String
    pub hub : Hub w.DurationMessage
    pub kicks : Option ℕ
    pub id_seq : ℕ

  unfoldable pub kicked : Server → Server
  unfolding kick
  kicked s = record s { kicks = elim s.kicks [ none ↦ none | some k ↦ some (kick k) ] }

  abbrev pub Reply : Type 0 → Type 0
  Reply A = Server × Result RpcError A

  abbrev pub offered : NodeSpec → String → Node
  offered spec id = record Nodes.zero_node {
    id = id;
    hostname = spec.hostname;
    address = spec.address;
    total_cpus = if ltb_ℤ spec.total_cpus (pos 1) then pos 1 else spec.total_cpus;
    status = online;
  }

  -- The id that is registered is the answer.
  unfoldable pub handle_register : Server → Option NodeSpec → Time → Reply String
  unfolding kicked
  handle_register s none now = (s, err (missing "spec"))
  handle_register s (some spec) now =
      let id = ite (dec_string spec.id "") spec.hostname spec.id in
      ite (dec_string id "") (s, err (missing "node id or hostname"))
        (kicked (record s { registry = register_node s.registry (offered spec id) now }), ok id)

  unfoldable pub handle_heartbeat : Server → String → Reply HeartbeatResponse
  unfolding queue_beat
  handle_heartbeat s id =
      ite (dec_string id "") (s, err (missing "node_id"))
        (elim (Nodes.get s.registry id) [
          | none ↦ (s, err unknown_node)
          | some _ ↦ (
            record s { heartbeats = queue_beat s.heartbeats id },
            ok (record { acknowledged = true; cancel_job_id = pending_cancel s.hub id }),
          )
        ])

  -- `fmt.Sprintf("job-%d", n)`.
  unfoldable pub job_name : ℕ → String
  job_name n = text_append "job-" (itoa (pos n))

  -- `s.jobs.Submit(j)` and what follows it.
  unfoldable pub submit_new :
      Server → String → Job → Reply (Option (PbJob w.DurationMessage w.Timestamp))
  unfolding kicked
  submit_new s id j =
      let (m, result) = submit s.jobs (some j) in
      let s' = record s { jobs = m } in
      elim result [
        | err e ↦ (s', err (internal e))
        | ok _ ↦ (
          kicked s',
          elim (Manager.get m id) [
            | err e ↦ err (internal e)
            | ok stored ↦ ok (job_to_proto w (some stored))
          ],
        )
      ]

  unfoldable pub handle_submit :
      Server
      → Option (JobSpec w.DurationMessage)
      → Time
      → Reply (Option (PbJob w.DurationMessage w.Timestamp))
  unfolding submit_new job_name
  handle_submit s p now = elim (spec_from_proto w p) [
    | err e ↦ (s, err (bad_spec e))
    | ok spec ↦
        let n = (s.id_seq + 1) % 2 ^ 64 in
        let s' = record s { id_seq = n } in
        elim (new_job (job_name n) spec now) [
          | err e ↦ (s', err (bad_job e))
          | ok j ↦ submit_new s' (job_name n) j
        ]
  ]

  unfoldable pub filter_of : List JobStatus → List Status
  filter_of [] = []
  filter_of (st ∷ sts) =
      let rest = filter_of sts in
      elim (job_status_from_proto st) [ none ↦ rest | some js ↦ js ∷ rest ]

  unfoldable pub handle_list_jobs :
      Server → List JobStatus → List (Option (PbJob w.DurationMessage w.Timestamp))
  unfolding filter_of
  handle_list_jobs s statuses =
      map (λ j. job_to_proto w (some j)) (sort_jobs (list s.jobs (filter_of statuses)))

  unfoldable pub handle_list_nodes : Server → List (PbNode w.Timestamp)
  handle_list_nodes s = map (node_to_proto w) (list_nodes s.registry)

  -- What `CancelJob` does for a running job: `j` is the copy taken before the cancellation.
  unfoldable pub stop_nodes : Server → Job → String → Server
  unfolding kicked
  stop_nodes s j id = kicked (record s {
    registry = release_nodes s.registry j.assigned_node_ids j.spec.resources.cpus_per_node;
    hub = notify_cancel s.hub j.assigned_node_ids id;
  })

  -- `CancelJob` once it has read the job: `j` is the copy that `Get` gave. The lock of the job
  -- manager is free between the two, and so other calls may come in between.
  abbrev pub cancel_read :
      Server → Job → String → Time → Reply (Option (PbJob w.DurationMessage w.Timestamp))
  cancel_read s j id now =
      let (m, result) = cancel s.jobs id now in
      let s' = record s { jobs = m } in
      elim result [
        | err e ↦ (s', err (refused e))
        | ok signal ↦
            let s'' = if signal then stop_nodes s' j id else s' in
            (
              s'',
              elim (Manager.get s''.jobs id) [
                | err e ↦ err (internal e)
                | ok c ↦ ok (job_to_proto w (some c))
              ],
            )
      ]

  unfoldable pub handle_cancel :
      Server → String → Time → Reply (Option (PbJob w.DurationMessage w.Timestamp))
  unfolding stop_nodes
  handle_cancel s id now =
      ite (dec_string id "") (s, err (missing "job_id"))
        (elim (Manager.get s.jobs id) [
          | err e ↦ (s, err unknown_job)
          | ok j ↦ cancel_read s j id now
        ])

  -- The start of `WatchWork`; the stream's receives are `Hub.receive`.
  unfoldable pub handle_watch : Server → String → Reply ℕ
  handle_watch s node_id =
      ite (dec_string node_id "") (s, err (missing "node_id"))
        (elim (Nodes.get s.registry node_id) [
          | none ↦ (s, err unknown_node)
          | some _ ↦ let (h, ch) = subscribe s.hub node_id in (record s { hub = h }, ok ch)
        ])
