-- ===== src/Controller/Reports.antt =====
-- internal/controller/server.go: `ReportJobStatus`, with what it calls in its order.
use slurmlite.Cluster.Registry as Nodes
use slurmlite.Cluster.Registry.{Node, Registry, online, register_node, list_nodes}
use slurmlite.Cluster.Reservations.{release_nodes}
use slurmlite.Controller.Hub.{notify_cancel, clear_cancel}
use slurmlite.Jobs.Changes.{report_node_event}
use slurmlite.Jobs.Manager as Manager
use slurmlite.Jobs.Manager.{JobManager, NodeReport, submit, list}
use slurmlite.Jobs.Model.{Job, Status-discrete, failed, terminal}
use slurmlite.Protocol.{
  WellKnown, JobEvent, job_event_unspecified, job_event_started, job_event_failed,
  job_event_cancelled, ReportJobStatusRequest,
}
use slurmlite.Prelude.{
  Time, ok, err, dec_string, ite, Bool, true, false, not, ◌&&◌, if◌then◌else◌, String, List, [],
  ◌∷◌, none, some,
}
use slurmlite.Controller.Server.{
  Server, Reply, missing, bad_report, unknown_node, unknown_job, internal, kicked,
}

unfoldable pub is_failed : JobEvent → Bool
is_failed job_event_failed = true
is_failed e = false

module _ (w : WellKnown) where
  -- The assigned nodes but one.
  unfoldable pub others_of : List String → String → List String
  others_of [] node_id = []
  others_of (x ∷ xs) node_id =
      let rest = others_of xs node_id in ite (dec_string x node_id) rest (x ∷ rest)

  -- The end of `ReportJobStatus`: `before` and `after` are the job around the report.
  unfoldable pub settle_nodes : Server w → Job → Job → String → String → Server w
  unfolding others_of kicked
  settle_nodes s before after node_id job_id =
      if terminal after.status && not (terminal before.status)
      then kicked w (record s {
        registry =
            release_nodes s.registry after.assigned_node_ids after.spec.resources.cpus_per_node;
        hub =
            ite (Status-discrete after.status failed)
              (notify_cancel s.hub (others_of after.assigned_node_ids node_id) job_id) s.hub;
      })
      else s

  -- What is left to do once the report is noted; other calls may come in between.
  abbrev pub report_noted : Server w → Job → String → String → Reply w (Unit {0})
  report_noted s before node_id job_id = elim (Manager.get s.jobs job_id) [
    | err e ↦ (s, err (internal e))
    | ok after ↦ (settle_nodes s before after node_id job_id, ok tt)
  ]

  -- The report of an end that is no cancellation.
  unfoldable pub report_end :
      Server w → Job → String → String → NodeReport → Time → Reply w (Unit {0})
  unfolding settle_nodes
  report_end s before node_id job_id r now =
      let (m, result) = report_node_event s.jobs job_id node_id r now in
      let s' = record s { jobs = m } in
      elim result [
        | err e ↦ (s', err (bad_report e))
        | ok _ ↦
            let s'' = record s' { hub = clear_cancel s'.hub node_id job_id } in
            report_noted s'' before node_id job_id
      ]

  -- The rest of `ReportJobStatus` for an event that is no start and no cancellation.
  unfoldable pub end_event :
      Server w → ReportJobStatusRequest → JobEvent → Time → Reply w (Unit {0})
  unfolding report_end is_failed
  end_event s req e now = elim (Manager.get s.jobs req.job_id) [
    | err x ↦ (s, err unknown_job)
    | ok before ↦
        report_end s before req.node_id req.job_id
          (record { failed = is_failed e; exit_code = req.exit_code; err_msg = req.error_message })
          now
  ]

  -- `ReportJobStatus` once the request names a registered node and a job, on the event.
  unfoldable pub report_event :
      Server w → ReportJobStatusRequest → JobEvent → Time → Reply w (Unit {0})
  unfolding end_event
  report_event s req job_event_unspecified now = (s, ok tt)
  report_event s req job_event_started now = (s, ok tt)
  report_event s req job_event_cancelled now = elim (Manager.get s.jobs req.job_id) [
    | err e ↦ (s, err unknown_job)
    | ok before ↦ (record s { hub = clear_cancel s.hub req.node_id req.job_id }, ok tt)
  ]
  report_event s req e now = end_event s req e now

  unfoldable pub handle_report : Server w → ReportJobStatusRequest → Time → Reply w (Unit {0})
  unfolding report_event
  handle_report s req now =
      ite (dec_string req.node_id "") (s, err (missing "node_id and job_id"))
        (ite (dec_string req.job_id "") (s, err (missing "node_id and job_id"))
          (elim (Nodes.get s.registry req.node_id) [
            | none ↦ (s, err unknown_node)
            | some _ ↦ report_event s req req.event now
          ]))
