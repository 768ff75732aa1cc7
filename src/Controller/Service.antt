-- ===== src/Controller/Service.antt =====
-- What each handler of internal/controller/server.go keeps.
use slurmlite.Controller.Hub.{clear_cancel}
use slurmlite.Controller.Channels as Channels
use slurmlite.Controller.History.{notify_cancel-Inv, clear_cancel-Inv}
use slurmlite.Controller.Mailboxes.{subscribe-Inv}
use slurmlite.Controller.Convert.{spec_from_proto}
use slurmlite.Controller.Server.{
  cancel_read, Server, kicked, Reply, handle_register, handle_heartbeat, job_name, submit_new,
  handle_submit, stop_nodes, handle_cancel, handle_watch,
}
use slurmlite.Controller.Reports.{
  report_noted, settle_nodes, report_end, end_event, report_event, handle_report, others_of,
}
use slurmlite.Jobs.Changes.{cancel, report_node_event}
use slurmlite.Jobs.Effects.{step, submits, cancels, reports_event}
use slurmlite.Jobs.Invariant as Managed
use slurmlite.Jobs.Invariant.Kept.{step-Inv}
use slurmlite.Jobs.Manager as Manager
use slurmlite.Jobs.Manager.{JobManager, NodeReport, submit}
use slurmlite.Jobs.Model.{Job, Status-discrete, failed, terminal, new_job}
use slurmlite.Cluster.Registry as Nodes
use slurmlite.Protocol.{
  WellKnown, JobEvent, job_event_unspecified, job_event_started, job_event_completed,
  job_event_failed, job_event_cancelled, job_event_other, NodeSpec, JobSpec, PbJob,
  HeartbeatResponse, ReportJobStatusRequest,
}
use slurmlite.Prelude.{
  Time, dec_string, ite, not, ◌&&◌, Option-cases, ite_ind, Result-cases, if_ind, String, Option,
  none, some, inl, inr, ℕ, ◌+◌, ◌%◌, ◌^◌,
}

submit-Inv : (m : JobManager) (j : Option Job) → Managed.Inv m → Managed.Inv (submit m j).0
unfolding step
submit-Inv m j v = step-Inv m 0 (submits j) v

cancel-Inv :
    (m : JobManager) (id : String) (now : Time) → Managed.Inv m → Managed.Inv (cancel m id now).0
unfolding step
cancel-Inv m id now v = step-Inv m now (cancels id) v

report-Inv :
    (m : JobManager) (job_id node_id : String) (r : NodeReport) (now : Time)
    → Managed.Inv m
    → Managed.Inv (report_node_event m job_id node_id r now).0
unfolding step
report-Inv m job_id node_id r now v = step-Inv m now (reports_event job_id node_id r) v

module _ {w : WellKnown} where
  pub record Inv (s : Server w) : Type 0 where
    pub jobs : Managed.Inv s.jobs
    pub mailboxes : Channels.Inv s.hub

  kicked-Inv : (s : Server w) → Inv s → Inv (kicked w s)
  unfolding kicked
  kicked-Inv s v = record { jobs = v.jobs; mailboxes = v.mailboxes }

  submit_new-Inv : (s : Server w) (id : String) (j : Job) → Inv s → Inv (submit_new w s id j).0
  unfolding submit_new
  submit_new-Inv s id j v = elim (Result-cases (submit s.jobs (some j)).1) [
    | inl (_, e) ↦
        rw (e, submit_new) (kicked-Inv (record s { jobs = (submit s.jobs (some j)).0 }) u)
    | inr (x, e) ↦ rw (e, submit_new) u
  ]
    where
      u : Inv (record s { jobs = (submit s.jobs (some j)).0 })
      u = record { jobs = submit-Inv s.jobs (some j) v.jobs; mailboxes = v.mailboxes }

  pub handle_register-Inv :
      (s : Server w) (p : Option NodeSpec) (now : Time) → Inv s → Inv (handle_register w s p now).0
  unfolding handle_register
  handle_register-Inv s none now v = v
  handle_register-Inv s (some spec) now v =
      ite_ind (λ (o : Reply w String). Inv o.0)
        (dec_string (ite (dec_string spec.id "") spec.hostname spec.id) "") (λ _. v)
        (λ _. kicked-Inv _ (record { jobs = v.jobs; mailboxes = v.mailboxes }))

  pub handle_heartbeat-Inv : (s : Server w) (id : String) → Inv s → Inv (handle_heartbeat w s id).0
  unfolding handle_heartbeat
  handle_heartbeat-Inv s id v =
      ite_ind (λ (o : Reply w HeartbeatResponse). Inv o.0) (dec_string id "") (λ _. v)
        (λ _. elim (Option-cases (Nodes.get s.registry id)) [
          | inl e ↦ rw (e, handle_heartbeat) v
          | inr (n, e) ↦
              rw (e, handle_heartbeat) (record { jobs = v.jobs; mailboxes = v.mailboxes })
        ])

  pub handle_submit-Inv :
      (s : Server w) (p : Option (JobSpec w.DurationMessage)) (now : Time)
      → Inv s
      → Inv (handle_submit w s p now).0
  unfolding handle_submit
  handle_submit-Inv s p now v = elim (Result-cases (spec_from_proto w p)) [
    | inr (x, e) ↦ rw (e, handle_submit) v
    | inl (spec, e) ↦
        let n = (s.id_seq + 1) % 2 ^ 64 in
        let u : Inv (record s { id_seq = n }) = record { jobs = v.jobs; mailboxes = v.mailboxes } in
        elim (Result-cases (new_job (job_name w n) spec now)) [
          | inr (x, q) ↦ rw (e, q, handle_submit) u
          | inl (j, q) ↦
              rw (e, q, handle_submit) (submit_new-Inv (record s { id_seq = n }) (job_name w n) j u)
        ]
  ]

  stop_nodes-Inv : (s : Server w) (j : Job) (id : String) → Inv s → Inv (stop_nodes w s j id)
  unfolding stop_nodes
  stop_nodes-Inv s j id v = kicked-Inv _ (record {
    jobs = v.jobs;
    mailboxes = notify_cancel-Inv s.hub j.assigned_node_ids id v.mailboxes;
  })

  pub handle_cancel-Inv :
      (s : Server w) (id : String) (now : Time) → Inv s → Inv (handle_cancel w s id now).0
  unfolding handle_cancel
  handle_cancel-Inv s id now v =
      ite_ind (λ (o : Reply w (Option (PbJob w.DurationMessage w.Timestamp))). Inv o.0)
        (dec_string id "") (λ _. v)
        (λ _. elim (Result-cases (Manager.get s.jobs id)) [
          | inr (x, e) ↦ rw (e, handle_cancel, cancel_read) v
          | inl (j, e) ↦ elim (Result-cases (cancel s.jobs id now).1) [
            | inr (x, q) ↦ rw (e, q, handle_cancel, cancel_read) u
            | inl (signal, q) ↦
                rw (e, q, handle_cancel, cancel_read)
                  (if_ind Inv signal
                    (λ _. stop_nodes-Inv (record s { jobs = (cancel s.jobs id now).0 }) j id u)
                    (λ _. u))
          ]
        ])
    where
      u : Inv (record s { jobs = (cancel s.jobs id now).0 })
      u = record { jobs = cancel-Inv s.jobs id now v.jobs; mailboxes = v.mailboxes }

  settle_nodes-Inv :
      (s : Server w) (before after : Job) (node_id job_id : String)
      → Inv s
      → Inv (settle_nodes w s before after node_id job_id)
  unfolding settle_nodes
  settle_nodes-Inv s before after node_id job_id v =
      if_ind Inv (terminal after.status && not (terminal before.status))
        (λ _. kicked-Inv _ (record {
          jobs = v.jobs;
          mailboxes =
              ite_ind Channels.Inv (Status-discrete after.status failed)
                (λ _.
                  notify_cancel-Inv s.hub (others_of w after.assigned_node_ids node_id) job_id
                    v.mailboxes)
                (λ _. v.mailboxes);
        }))
        (λ _. v)

  report_end-Inv :
      (s : Server w) (before : Job) (node_id job_id : String) (r : NodeReport) (now : Time)
      → Inv s
      → Inv (report_end w s before node_id job_id r now).0
  unfolding report_end
  report_end-Inv s before node_id job_id r now v =
      elim (Result-cases (report_node_event s.jobs job_id node_id r now).1) [
        | inr (x, e) ↦
            rw (e, report_end, report_noted) (record { jobs = u; mailboxes = v.mailboxes })
        | inl (_, e) ↦
            let s' = record s {
              jobs = (report_node_event s.jobs job_id node_id r now).0;
              hub = clear_cancel s.hub node_id job_id;
            } in
            let v' : Inv s' = record {
              jobs = u;
              mailboxes = clear_cancel-Inv s.hub node_id job_id v.mailboxes;
            } in
            elim (Result-cases
              (Manager.get (report_node_event s.jobs job_id node_id r now).0 job_id)) [
                | inr (x, q) ↦ rw (e, q, report_end, report_noted) v'
                | inl (after, q) ↦
                    rw (e, q, report_end, report_noted)
                      (settle_nodes-Inv s' before after node_id job_id v')
              ]
      ]
    where
      u : Managed.Inv (report_node_event s.jobs job_id node_id r now).0
      u = report-Inv s.jobs job_id node_id r now v.jobs

  ended-Inv :
      (s : Server w) (req : ReportJobStatusRequest) (e : JobEvent) (now : Time)
      → Inv s
      → Inv (end_event w s req e now).0
  unfolding end_event
  ended-Inv s req e now v = elim (Result-cases (Manager.get s.jobs req.job_id)) [
    | inr (x, q) ↦ rw (q, end_event) v
    | inl (before, q) ↦ rw (q, end_event) (report_end-Inv s before req.node_id req.job_id _ now v)
  ]

  report_event-Inv :
      (s : Server w) (req : ReportJobStatusRequest) (e : JobEvent) (now : Time)
      → Inv s
      → Inv (report_event w s req e now).0
  unfolding report_event
  report_event-Inv s req job_event_unspecified now v = v
  report_event-Inv s req job_event_started now v = v
  report_event-Inv s req job_event_cancelled now v =
      elim (Result-cases (Manager.get s.jobs req.job_id)) [
        | inr (x, q) ↦ rw (q, report_event) v
        | inl (before, q) ↦
            rw (q, report_event)
              (record {
                jobs = v.jobs;
                mailboxes = clear_cancel-Inv s.hub req.node_id req.job_id v.mailboxes;
              })
      ]
  report_event-Inv s req job_event_completed now v = ended-Inv s req job_event_completed now v
  report_event-Inv s req job_event_failed now v = ended-Inv s req job_event_failed now v
  report_event-Inv s req (job_event_other n) now v = ended-Inv s req (job_event_other n) now v

  pub handle_report-Inv :
      (s : Server w) (req : ReportJobStatusRequest) (now : Time)
      → Inv s
      → Inv (handle_report w s req now).0
  unfolding handle_report
  handle_report-Inv s req now v =
      ite_ind (λ (o : Reply w (Unit {0})). Inv o.0) (dec_string req.node_id "") (λ _. v)
        (λ _.
          ite_ind (λ (o : Reply w (Unit {0})). Inv o.0) (dec_string req.job_id "") (λ _. v)
            (λ _. elim (Option-cases (Nodes.get s.registry req.node_id)) [
              | inl e ↦ rw (e, handle_report) v
              | inr (n, e) ↦ rw (e, handle_report) (report_event-Inv s req req.event now v)
            ]))

  pub handle_watch-Inv : (s : Server w) (id : String) → Inv s → Inv (handle_watch w s id).0
  unfolding handle_watch
  handle_watch-Inv s id v =
      ite_ind (λ (o : Reply w ℕ). Inv o.0) (dec_string id "") (λ _. v)
        (λ _. elim (Option-cases (Nodes.get s.registry id)) [
          | inl e ↦ rw (e, handle_watch) v
          | inr (n, e) ↦
              rw (e, handle_watch)
                (record { jobs = v.jobs; mailboxes = subscribe-Inv s.hub id v.mailboxes })
        ])
