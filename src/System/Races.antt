-- ===== src/System/Races.antt =====
-- Handlers of internal/controller/server.go with other calls between theirs: no lock is held from the
-- read of a job to the release of its nodes.
use slurmlite.Cluster.Registry.{Node}
use slurmlite.Cluster.Reservations.{freed, release_nodes}
use slurmlite.Cluster.Reservations.Exact.{lookup-release_nodes}
use slurmlite.Controller.Hub.{clear_cancel}
use slurmlite.Controller.Reports.{settle_nodes, report_noted, report_end}
use slurmlite.Controller.Server.{Server, Reply, stop_nodes, cancel_read, kicked}
use slurmlite.Jobs.Changes.{cancel, report_node_event}
use slurmlite.Jobs.Manager.{JobManager, NodeReport, Outcome, clone_job}
use slurmlite.Jobs.Model.{Job, running, cancelled, terminal}
use slurmlite.Jobs.Outcomes.{CancelOutcome, refuses, withdraws, stops, cancel-CancelOutcome}
use slurmlite.Protocol.{WellKnown}
use slurmlite.System.Completion.{get_stored}
use slurmlite.System.Invariant.{Inv}
use slurmlite.Prelude.{
  Time, lookup, lookup-insert_self, ok, Bool, true, false, some_inj, String, [], some, ◌≡◌, refl,
  sym, ap, ◌∙◌, arith, In, Distinct,
}

-- `Cancel` of a running job.
cancels_running :
    (m : JobManager) (id : String) (now : Time) (j : Job) (o : Outcome Bool)
    → lookup id m.jobs ≡ some j
    → j.status ≡ running
    → CancelOutcome m id now o
    → (o.1 ≡ ok true) × ((k : Job) × (lookup id o.0.jobs ≡ some k) × (k.status ≡ cancelled))
cancels_running m id now j _ e r (refuses m' x q n) = absurd ((n j e).1 r)
cancels_running m id now j _ e r (withdraws m' i f p q) =
    absurd (ground (arith, r, p, ap (λ (y : Job). y.status) (some_inj (sym f ∙ e))))
cancels_running m id now j _ e r (stops m' x c) =
    (refl, (x.new, ap (λ y. lookup id y) x.becomes ∙ lookup-insert_self id x.new m.jobs, c))

module _ (w : WellKnown) where
  stopped :
      (s : Server w) (before : Job) (id : String) (now : Time)
      → (cancel s.jobs id now).1 ≡ ok true
      → before.assigned_node_ids ≡ []
      → ((cancel_read w s before id now).0.jobs ≡ (cancel s.jobs id now).0)
        × ((cancel_read w s before id now).0.registry ≡ s.registry)
  unfolding stop_nodes kicked release_nodes
  stopped s before id now e b = (rw (e, cancel_read) refl, rw (e, b, cancel_read) refl)

  -- A job that starts after `CancelJob` has read it, as a job without nodes, and before its `Cancel`: the
  -- job is cancelled and its nodes are not released. Where the controller's invariant held, each of them
  -- still carries the cancelled job, with the job's CPUs allocated.
  pub cancel_read-leaks :
      (s : Server w) (before : Job) (id : String) (now : Time) (j : Job)
      → Inv s
      → before.assigned_node_ids ≡ []
      → lookup id s.jobs.jobs ≡ some j
      → j.status ≡ running
      → let s' = (cancel_read w s before id now).0 in
        ((k : Job) × (lookup id s'.jobs.jobs ≡ some k) × (k.status ≡ cancelled))
        × ((k : String)
            → In k j.assigned_node_ids
            → (n : Node) × (lookup k s'.registry.nodes ≡ some n)
              × (n.current_job_id ≡ id)
              × (n.allocated_cpus ≡ j.spec.resources.cpus_per_node))
  cancel_read-leaks s before id now j v b e r =
      let (signal, (k, f, c)) =
        cancels_running s.jobs id now j (cancel s.jobs id now) e r
          (cancel-CancelOutcome s.jobs id now) in
      let (jobs, registry) = stopped s before id now signal b in
      (
        (k, ap (λ (m : JobManager). lookup id m.jobs) jobs ∙ f, c),
        λ x i.
            let (n, g, d, a) = v.coupled.held id j x e r i in
            (n, ap (λ y. lookup x y.nodes) registry ∙ g, d, a),
      )

  noted :
      (s : Server w) (before after : Job) (node_id id : String)
      → lookup id s.jobs.jobs ≡ some after
      → terminal after.status ≡ true
      → terminal before.status ≡ false
      → let s' = (report_noted w s before node_id id).0 in
        (s'.jobs ≡ s.jobs)
        × (s'.registry
            ≡ release_nodes s.registry after.assigned_node_ids after.spec.resources.cpus_per_node)
  unfolding settle_nodes kicked terminal clone_job
  noted s before after node_id id e t f = (
    rw (get_stored s.jobs id after e, t, f, report_noted) refl,
    rw (get_stored s.jobs id after e, t, f, report_noted) refl,
  )

  -- A report that comes when its job runs no more changes nothing in the job manager.
  late :
      (m : JobManager) (id node_id : String) (after : Job) (r : NodeReport) (now : Time)
      → lookup id m.jobs ≡ some after
      → terminal after.status ≡ true
      → report_node_event m id node_id r now ≡ (m, ok tt)
  unfolding report_node_event terminal
  late m id node_id after r now e t = ground (arith, e, t)

  late_noted :
      (s : Server w) (before after : Job) (node_id id : String) (r : NodeReport) (now : Time)
      → lookup id s.jobs.jobs ≡ some after
      → terminal after.status ≡ true
      → report_end w s before node_id id r now
        ≡ report_noted w (record s { hub = clear_cancel s.hub node_id id }) before node_id id
  unfolding report_end
  late_noted s before after node_id id r now e t =
      let l = late s.jobs id node_id after r now e t in
      rw
        (ap (λ (o : Outcome (Unit {0})). o.1) l, ap (λ (o : Outcome (Unit {0})). o.0) l, report_end)
        refl

  -- A report whose handler read the job before it had ended, and which goes on after another report has
  -- ended the job and released its nodes: the nodes are released once more. A node that the scheduler
  -- has given to another job meanwhile then carries no job, while that job runs on.
  pub report_end-frees_others :
      (s : Server w) (before after : Job) (node_id id : String) (r : NodeReport) (now : Time)
      (other k : String) (j : Job)
      → Inv s
      → terminal before.status ≡ false
      → lookup id s.jobs.jobs ≡ some after
      → terminal after.status ≡ true
      → Distinct after.assigned_node_ids
      → In k after.assigned_node_ids
      → lookup other s.jobs.jobs ≡ some j
      → j.status ≡ running
      → In k j.assigned_node_ids
      → let s' = (report_end w s before node_id id r now).0 in
        (lookup other s'.jobs.jobs ≡ some j)
        × ((n : Node) × (lookup k s'.registry.nodes ≡ some n) × (n.current_job_id ≡ ""))
  unfolding freed
  report_end-frees_others s before after node_id id r now other k j v f e t d i g h l =
      let told : Server w = record s { hub = clear_cancel s.hub node_id id } in
      let (jobs, registry) = noted told before after node_id id e t f in
      let same =
        ap (λ (o : Reply w (Unit {0})). o.0) (late_noted s before after node_id id r now e t) in
      let (n, x, _, _) = v.coupled.held other j k g h l in
      let cpus = after.spec.resources.cpus_per_node in
      (
        ap (λ (y : Server w). lookup other y.jobs.jobs) same
            ∙ ap (λ (m : JobManager). lookup other m.jobs) jobs
            ∙ g,
        (
          freed n cpus,
          ap (λ (y : Server w). lookup k y.registry.nodes) same
              ∙ ap (λ y. lookup k y.nodes) registry
              ∙ lookup-release_nodes s.registry k after.assigned_node_ids cpus n d i x,
          refl,
        ),
      )
