-- ===== src/System/Completion.antt =====
-- The last report of a gang through `ReportJobStatus` of internal/controller/server.go.
use slurmlite.Cluster.Registry as Nodes
use slurmlite.Cluster.Registry.{Node}
use slurmlite.Controller.Reports.{
  report_noted, is_failed, settle_nodes, report_end, end_event, report_event, handle_report,
}
use slurmlite.Controller.Requests.{reports, serve}
use slurmlite.Controller.Server.{Server, Reply, kicked}
use slurmlite.Jobs.Changes.{report_node_event}
use slurmlite.Jobs.Completion.{Fresh, OthersReported, IsLargest, with_report, report_completes}
use slurmlite.Jobs.Manager.{JobManager, NodeReport, get, clone_job}
use slurmlite.Jobs.Model.{Job, running, completed, terminal}
use slurmlite.Jobs.Outcomes.{report_node_event-ReportCases}
use slurmlite.Protocol.{WellKnown, job_event_completed, ReportJobStatusRequest}
use slurmlite.System.Coupling.{Coupled, insert_cases}
use slurmlite.System.Invariant.{Inv, IsFinal-not_running}
use slurmlite.System.Reports.{serve-System_Inv}
use slurmlite.Prelude.{
  ℤ, pos, Time, Map, lookup, insert, ok, dec_string, false, not, ◌&&◌, ite_ind, some_inj,
  Result-cases, if_ind, String, Option, some, ◌≡◌, ◌≢◌, refl, sym, ap, ◌∙◌, inl, inr, arith, In,
}

-- The report of an agent that has ended well.
abbrev pub success : ReportJobStatusRequest → NodeReport
success req = record { failed = false; exit_code = req.exit_code; err_msg = req.error_message }

pub get_stored :
    (m : JobManager) (id : String) (j : Job)
    → lookup id m.jobs ≡ some j
    → get m id ≡ ok (clone_job j)
unfolding get
get_stored m id j e = rw (e, get) refl

module _ {w : WellKnown} where
  settle_nodes-jobs :
      (s : Server w) (before after : Job) (node_id job_id : String)
      → (settle_nodes w s before after node_id job_id).jobs ≡ s.jobs
  unfolding settle_nodes kicked
  settle_nodes-jobs s before after node_id job_id =
      if_ind (λ (x : Server w). x.jobs ≡ s.jobs)
        (terminal after.status && not (terminal before.status)) (λ _. refl) (λ _. refl)

  report_end-jobs :
      (s : Server w) (before : Job) (node_id job_id : String) (r : NodeReport) (now : Time)
      → (report_end w s before node_id job_id r now).0.jobs
        ≡ (report_node_event s.jobs job_id node_id r now).0
  unfolding report_end
  report_end-jobs s before node_id job_id r now =
      let o = report_node_event s.jobs job_id node_id r now in
      elim (Result-cases o.1) [
        | inr (x, e) ↦ rw (e, report_end, report_noted) refl
        | inl (_, e) ↦ elim (Result-cases (get o.0 job_id)) [
          | inr (x, q) ↦ rw (e, q, report_end, report_noted) refl
          | inl (after, q) ↦
              rw (e, q, report_end, report_noted) (settle_nodes-jobs _ before after node_id job_id)
        ]
      ]

  handle_report-jobs :
      (s : Server w) (req : ReportJobStatusRequest) (now : Time) (j : Job) (n : Node)
      → req.event ≡ job_event_completed
      → req.node_id ≢ ""
      → req.job_id ≢ ""
      → lookup req.node_id s.registry.nodes ≡ some n
      → lookup req.job_id s.jobs.jobs ≡ some j
      → (handle_report w s req now).0.jobs
        ≡ (report_node_event s.jobs req.job_id req.node_id (success req) now).0
  unfolding handle_report report_event end_event is_failed Nodes.get
  handle_report-jobs s req now j n ev a b e f =
      ite_ind
        (λ (o : Reply w (Unit {0})).
          o.0.jobs ≡ (report_node_event s.jobs req.job_id req.node_id (success req) now).0)
        (dec_string req.node_id "") (λ h. absurd (a h))
        (λ _.
          ite_ind
            (λ (o : Reply w (Unit {0})).
              o.0.jobs ≡ (report_node_event s.jobs req.job_id req.node_id (success req) now).0)
            (dec_string req.job_id "") (λ h. absurd (b h))
            (λ _.
              rw (e, ev, get_stored s.jobs req.job_id j f, handle_report, report_event, end_event)
                (report_end-jobs s (clone_job j) req.node_id req.job_id (success req) now)))

-- The nodes of a job that ran before and does not run after carry nothing after.
nodes_of_ended :
    (jobs jobs' : Map Job) (nodes nodes' : Map Node) (id : String) (j j' : Job)
    → Coupled jobs nodes
    → Coupled jobs' nodes'
    → lookup id jobs ≡ some j
    → j.status ≡ running
    → jobs' ≡ insert id j' jobs
    → j'.status ≢ running
    → (k : String) → In k j.assigned_node_ids
    → (n : Node) → lookup k nodes' ≡ some n
    → (n.current_job_id ≡ "") × (n.allocated_cpus ≡ pos 0)
nodes_of_ended jobs jobs' nodes nodes' id j j' u v e r b p k i n f =
    elim (dec_string n.current_job_id "") [
      | yes c ↦ (c, v.unused k n f c)
      | no c ↦
          let (x, g, q, h) = v.carried k n f c in
          let (o, a, d, _) = u.held id j k e r i in
          absurd
            (elim (insert_cases id n.current_job_id j' x jobs
              (sym (ap (λ y. lookup n.current_job_id y) b) ∙ g)) [
                | inl (_, s) ↦ p (ap (λ (y : Job). y.status) (sym s) ∙ q)
                | inr (ne, s) ↦
                    let (o', a', d', _) = u.held n.current_job_id x k s q h in
                    ne (sym d ∙ ap (λ (y : Node). y.current_job_id) (some_inj (sym a ∙ a')) ∙ d')
              ])
    ]

-- Where the controller's invariant holds and a running job waits for the report of one of its nodes
-- only, that node's report of success, handled with no other call in between, completes the job with the
-- largest exit code that its nodes reported, or with 0 where none of them is positive, and no node of
-- the job carries anything any more.
pub last_report_frees :
    (w : WellKnown) (s : Server w) (req : ReportJobStatusRequest) (now : Time) (j : Job)
    → Inv s
    → req.event ≡ job_event_completed
    → Fresh s.jobs req.job_id req.node_id j
    → OthersReported s.jobs req.job_id req.node_id j
    → let s' = (handle_report w s req now).0 in
      ((e : ℤ) × IsLargest e (with_report s.jobs req.job_id req.node_id (success req))
        × (lookup req.job_id s'.jobs.jobs
            ≡ some (record j { status = completed; finished_at = now; exit_code = e })))
      × ((k : String)
          → In k j.assigned_node_ids
          → (n : Node) → lookup k s'.registry.nodes ≡ some n
          → (n.current_job_id ≡ "") × (n.allocated_cpus ≡ pos 0))
unfolding serve
last_report_frees w s req now j v ev f others =
    let c = v.coupled in
    let (n, e, _, _) = c.held req.job_id j req.node_id f.found f.is_running f.assigned in
    let jobs =
      handle_report-jobs s req now j n ev (v.registry.sound req.node_id n e).named
        (c.named req.job_id j f.found) e f.found in
    let (code, largest, done) =
      report_completes v.service.jobs req.job_id req.node_id j (success req) now f
        (c.spread req.job_id j f.found f.is_running) refl others in
    let after = serve-System_Inv s now (reports req) tt v in
    (
      (code, largest, ap (λ (m : JobManager). lookup req.job_id m.jobs) jobs ∙ done),
      elim (report_node_event-ReportCases s.jobs req.job_id req.node_id (success req) now) [
        | inl q ↦ absurd (still _ refl (sym f.found ∙ sym (ap (λ y. lookup req.job_id y) q) ∙ done))
        | inr (x, _) ↦
            let same = some_inj (sym f.found ∙ x.stored) in
            nodes_of_ended s.jobs.jobs _ s.registry.nodes _ req.job_id j x.new c after.coupled
              f.found f.is_running (ap (λ (m : JobManager). m.jobs) jobs ∙ x.becomes)
              (IsFinal-not_running x.new.status x.final)
      ],
    )
  where
    still : (k : Job) → k.status ≡ completed → ◌≢◌ {A = Option Job} (some j) (some k)
    still k c q = ground (arith, ap (λ (y : Job). y.status) (some_inj q), f.is_running, c)
