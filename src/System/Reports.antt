-- ===== src/System/Reports.antt =====
-- What internal/controller/server.go does on a report keeps jobs and nodes together, and so does
-- every request.
use slurmlite.Cluster.Invariant as Registered
use slurmlite.Cluster.Registry as Nodes
use slurmlite.Cluster.Reservations.{release_nodes}
use slurmlite.Controller.Hub.{clear_cancel}
use slurmlite.Controller.Server.{Server, Reply, kicked, handle_heartbeat, handle_watch}
use slurmlite.Controller.Reports.{
  report_noted, settle_nodes, report_end, end_event, report_event, handle_report,
}
use slurmlite.Controller.Requests.{
  Request, registers, beats, submits_job, cancels_job, reports, watches, serve, serve-Inv,
}
use slurmlite.Jobs.Changes.{report_node_event}
use slurmlite.Jobs.Manager.{JobManager, NodeReport, clone_job, get}
use slurmlite.Jobs.Model.{Job, JobError, Spec, Status, running, terminal}
use slurmlite.Jobs.Effects.{IsFinal}
use slurmlite.Jobs.Outcomes.{report_node_event-ReportCases}
use slurmlite.Protocol.{
  WellKnown, JobEvent, job_event_unspecified, job_event_started, job_event_completed,
  job_event_failed, job_event_cancelled, job_event_other, HeartbeatResponse, ReportJobStatusRequest,
}
use slurmlite.System.Coupling.{Coupled}
use slurmlite.System.Invariant.{Inv}
use slurmlite.System.Requests.{
  Held, InRange, ended-Held, get_ok, clone_nodes, clone_cpus, clone_status,
}
use slurmlite.System.Requests.Handlers.{
  same_jobs-Held, handle_register-Held, handle_submit-Held, handle_cancel-Held,
}
use slurmlite.Prelude.{
  Time, lookup, lookup-insert_self, ok, err, dec_string, Bool, true, false, not, ◌&&◌, Option-cases,
  ite_ind, some_inj, Result-cases, String, some, ◌≡◌, ◌≢◌, refl, sym, ap, subst, ◌∙◌, inl, inr, ℕ,
  arith,
}

not_both : (b : Bool) → (b && not b) ≡ false
not_both b = ground arith

final_terminal : (s : Status) → IsFinal s → terminal s ≡ true
unfolding terminal
final_terminal s (inl e) = rw e refl
final_terminal s (inr (inl e)) = rw e refl
final_terminal s (inr (inr e)) = rw e refl

ends_now :
    (before after : Status)
    → before ≡ running
    → IsFinal after
    → (terminal after && not (terminal before)) ≡ true
unfolding terminal
ends_now before after b a = rw (final_terminal after a, b) refl

get_err :
    (m : JobManager) (id : String) (j : Job) (x : JobError)
    → lookup id m.jobs ≡ some j
    → get m id ≢ err x
unfolding get
get_err m id j x e h = ground (arith, e, h)

module _ {w : WellKnown} where
  settle_same :
      (s : Server w) (before after : Job) (node_id job_id : String)
      → after.status ≡ before.status
      → settle_nodes w s before after node_id job_id ≡ s
  unfolding settle_nodes
  settle_same s before after node_id job_id e =
      rw (e, not_both (terminal before.status), settle_nodes) refl

  settle_end-Held :
      (s : Server w) (before after : Job) (node_id job_id : String)
      → before.status ≡ running
      → IsFinal after.status
      → (let r =
            release_nodes s.registry after.assigned_node_ids after.spec.resources.cpus_per_node in
          Registered.Inv r × Coupled s.jobs.jobs r.nodes)
      → Held (settle_nodes w s before after node_id job_id)
  unfolding settle_nodes kicked
  settle_end-Held s before after node_id job_id b a h =
      rw (ends_now before.status after.status b a, settle_nodes) h

  report_end-Held :
      (s : Server w) (before : Job) (node_id job_id : String) (r : NodeReport) (now : Time)
      → get s.jobs job_id ≡ ok before
      → Held s
      → Held (report_end w s before node_id job_id r now).0
  unfolding report_end
  report_end-Held s before node_id job_id r now g h =
      let o = report_node_event s.jobs job_id node_id r now in
      let (j, st, ce) = get_ok s.jobs job_id before g in
      elim (report_node_event-ReportCases s.jobs job_id node_id r now) [
        | inl k ↦ elim (Result-cases o.1) [
          | inr (x, e) ↦ rw (e, report_end, report_noted) (same_jobs-Held s o.0 k h)
          | inl (_, e) ↦ elim (Result-cases (get o.0 job_id)) [
            | inr (x, q) ↦ rw (e, q, report_end, report_noted) (same_jobs-Held s o.0 k h)
            | inl (after, q) ↦
                let (j', st', ce') = get_ok o.0 job_id after q in
                let same : after ≡ before =
                  sym ce'
                  ∙ ap clone_job (some_inj (sym st' ∙ ap (λ y. lookup job_id y) k ∙ st))
                  ∙ ce in
                rw
                  (
                    e,
                    q,
                    report_end,
                    report_noted,
                    settle_same (record s { jobs = o.0; hub = clear_cancel s.hub node_id job_id })
                        before after node_id job_id (ap (λ (y : Job). y.status) same),
                  )
                  (same_jobs-Held s o.0 k h)
          ]
        ]
        | inr (x, e) ↦
            let new : lookup job_id o.0.jobs ≡ some x.new =
              ap (λ y. lookup job_id y) x.becomes ∙ lookup-insert_self job_id x.new s.jobs.jobs in
            elim (Result-cases (get o.0 job_id)) [
              | inr (y, q) ↦ absurd (get_err o.0 job_id x.new y new q)
              | inl (after, q) ↦
                  let (j', st', ce') = get_ok o.0 job_id after q in
                  let a : after ≡ clone_job x.new =
                    sym ce' ∙ ap clone_job (some_inj (sym st' ∙ new)) in
                  let b : before ≡ clone_job x.old =
                    sym ce ∙ ap clone_job (some_inj (sym st ∙ x.stored)) in
                  rw (e, q, report_end, report_noted)
                    (settle_end-Held
                      (record s { jobs = o.0; hub = clear_cancel s.hub node_id job_id }) before
                      after node_id job_id (clone_status before x.old b ∙ x.was_running)
                      (subst IsFinal (sym (clone_status after x.new a)) x.final)
                      (ended-Held s.registry after h.0 h.1 x
                        (clone_nodes after x.new a ∙ x.same_nodes)
                        (clone_cpus after x.new a
                          ∙ ap (λ (y : Spec). y.resources.cpus_per_node) x.same_spec)))
            ]
      ]

  end_event-Held :
      (s : Server w) (req : ReportJobStatusRequest) (e : JobEvent) (now : Time)
      → Held s
      → Held (end_event w s req e now).0
  unfolding end_event
  end_event-Held s req e now h = elim (Result-cases (get s.jobs req.job_id)) [
    | inr (x, q) ↦ rw (q, end_event) h
    | inl (before, q) ↦
        rw (q, end_event) (report_end-Held s before req.node_id req.job_id _ now q h)
  ]

  report_event-Held :
      (s : Server w) (req : ReportJobStatusRequest) (e : JobEvent) (now : Time)
      → Held s
      → Held (report_event w s req e now).0
  unfolding report_event
  report_event-Held s req job_event_unspecified now h = h
  report_event-Held s req job_event_started now h = h
  report_event-Held s req job_event_cancelled now h = elim (Result-cases (get s.jobs req.job_id)) [
    | inr (x, q) ↦ rw (q, report_event) h
    | inl (before, q) ↦ rw (q, report_event) h
  ]
  report_event-Held s req job_event_completed now h = end_event-Held s req job_event_completed now h
  report_event-Held s req job_event_failed now h = end_event-Held s req job_event_failed now h
  report_event-Held s req (job_event_other n) now h = end_event-Held s req (job_event_other n) now h

  handle_report-Held :
      (s : Server w) (req : ReportJobStatusRequest) (now : Time)
      → Held s
      → Held (handle_report w s req now).0
  unfolding handle_report
  handle_report-Held s req now h =
      ite_ind (λ (o : Reply w (Unit {0})). Held o.0) (dec_string req.node_id "") (λ _. h)
        (λ _.
          ite_ind (λ (o : Reply w (Unit {0})). Held o.0) (dec_string req.job_id "") (λ _. h)
            (λ _. elim (Option-cases (Nodes.get s.registry req.node_id)) [
              | inl e ↦ rw (e, handle_report) h
              | inr (n, e) ↦ rw (e, handle_report) (report_event-Held s req req.event now h)
            ]))

  handle_heartbeat-Held : (s : Server w) (id : String) → Held s → Held (handle_heartbeat w s id).0
  unfolding handle_heartbeat
  handle_heartbeat-Held s id h =
      ite_ind (λ (o : Reply w HeartbeatResponse). Held o.0) (dec_string id "") (λ _. h)
        (λ _. elim (Option-cases (Nodes.get s.registry id)) [
          | inl e ↦ rw (e, handle_heartbeat) h
          | inr (n, e) ↦ rw (e, handle_heartbeat) h
        ])

  handle_watch-Held : (s : Server w) (id : String) → Held s → Held (handle_watch w s id).0
  unfolding handle_watch
  handle_watch-Held s id h =
      ite_ind (λ (o : Reply w ℕ). Held o.0) (dec_string id "") (λ _. h)
        (λ _. elim (Option-cases (Nodes.get s.registry id)) [
          | inl e ↦ rw (e, handle_watch) h
          | inr (n, e) ↦ rw (e, handle_watch) h
        ])

  serve-Held :
      (s : Server w) (now : Time) (r : Request w.DurationMessage)
      → InRange r
      → Held s
      → Held (serve w s now r)
  unfolding serve
  serve-Held s now (registers p) f h = handle_register-Held s p now f h
  serve-Held s now (beats id) f h = handle_heartbeat-Held s id h
  serve-Held s now (submits_job p) f h = handle_submit-Held s p now f h
  serve-Held s now (cancels_job id) f h = handle_cancel-Held s id now h
  serve-Held s now (reports r) f h = handle_report-Held s r now h
  serve-Held s now (watches id) f h = handle_watch-Held s id h

  pub serve-System_Inv :
      (s : Server w) (now : Time) (r : Request w.DurationMessage)
      → InRange r
      → Inv s
      → Inv (serve w s now r)
  serve-System_Inv s now r f v =
      let (a, b) = serve-Held s now r f (v.registry, v.coupled) in
      record { service = serve-Inv w s now r v.service; registry = a; coupled = b }
