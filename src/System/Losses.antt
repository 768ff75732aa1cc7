-- ===== src/System/Losses.antt =====
-- What the monitor's loop does about dead nodes (internal/cluster/heartbeat.go and reaper.go, with
-- the failure of internal/controller/hub.go) keeps jobs and nodes together.
pub mod Ticks
use slurmlite.Cluster.Invariant as Registered
use slurmlite.Cluster.Invariant.{reap_stale-Inv, lookup-reap_nodes, reaped, touch-Inv}
use slurmlite.Cluster.Monitor.{Monitor, tick, take_beat, touch_all, drain_heartbeats}
use slurmlite.Cluster.Reaper.{
  JobFailure, was_seen, handle_node, handle_from, handle_dead_nodes, lost_reason,
}
use slurmlite.Cluster.Registry.{Node, Registry, touch, reap_nodes, reap_stale, is_stale, gone}
use slurmlite.Cluster.Reservations.{release_nodes}
use slurmlite.Controller.Channels as Channels
use slurmlite.Controller.History.{notify_cancel-Inv}
use slurmlite.Controller.Hub.{Hub, Failer, fail_for_node, notify_cancel}
use slurmlite.Controller.Server.{Server}
use slurmlite.Controller.Wiring.{failer, fail_running-Inv}
use slurmlite.Jobs.Changes.{fail_running_job}
use slurmlite.Jobs.Invariant as Managed
use slurmlite.Jobs.Manager.{JobManager}
use slurmlite.Jobs.Model.{Job, running}
use slurmlite.Jobs.Outcomes.{Ended, fail_running_job-FailCases}
use slurmlite.Protocol.{WellKnown}
use slurmlite.System.Controller.{monitor_of, after_monitor}
use slurmlite.System.Coupling.{Coupled, Keeps-Coupled}
use slurmlite.System.Invariant.{Inv, released-Coupled, released-Inv}
use slurmlite.System.Nodes.{touch-Keeps, reap_stale-Keeps}
use slurmlite.Prelude.{
  ℤ, pos, leb_ℤ, Time, Duration, Map, lookup, HasUniqueKeys, lookup-insert_ne, dec_string, false,
  Bool-cases, if_ind, String, List, [], ◌∷◌, Option, none, some, ◌≡◌, ◌≢◌, refl, sym, ap, subst,
  ◌∙◌, inl, inr, arith, All, All-map,
}

-- The job that a node carries, where it was not met before, is running.
abbrev pub IsRunning : JobManager → List String → Node → Type 0
IsRunning m seen n =
    n.current_job_id ≢ ""
    → was_seen seen n.current_job_id ≡ false
    → (j : Job) × (lookup n.current_job_id m.jobs ≡ some j) × (j.status ≡ running)

seen_now :
    (id k : String) (seen : List String)
    → was_seen (id ∷ seen) k ≡ false
    → (id ≢ k) × (was_seen seen k ≡ false)
unfolding was_seen
seen_now id k seen h = (ground (arith, h), ground (arith, h))

-- The rest of the jobs still run when one of them has ended.
ended-IsRunning :
    (m m' : JobManager) (id : String) (seen : List String) (n : Node)
    → Ended id m.jobs m'.jobs
    → IsRunning m seen n
    → IsRunning m' (id ∷ seen) n
ended-IsRunning m m' id seen n x v c s =
    let (ne, s') = seen_now id n.current_job_id seen s in
    let (j, e, r) = v c s' in
    (
      j,
      ap (λ y. lookup n.current_job_id y) x.becomes
          ∙ lookup-insert_ne id n.current_job_id x.new m.jobs ne
          ∙ e,
      r,
    )

handle_node-some :
    (f : JobFailure) (r : Registry) (s s' : f.State) (n : Node) (now : Time) (ids : List String)
    (cpus : ℤ)
    → f.fail_running_job s n.current_job_id (lost_reason n) now ≡ (s', some (ids, cpus))
    → handle_node f r (some s) n now ≡ (release_nodes r ids cpus, some s')
unfolding handle_node
handle_node-some f r s s' n now ids cpus q =
    ap
      (λ (o : f.State × Option (List String × ℤ)). elim o.1 [
        | some (ids, cpus) ↦ (release_nodes r ids cpus, some o.0)
        | none ↦ (release_nodes r (n.id ∷ []) n.allocated_cpus, some o.0)
      ])
      q

module _ {D : Type 0} where
  -- A registry with a failure handler that has its job manager and its hub, all in order.
  pub record Standing (o : Registry × Option (Failer D)) : Type 0 where
    pub m : JobManager
    pub h : Hub D
    pub state : o.1 ≡ some (record { jobs = some m; hub = some h })
    pub registry : Registered.Inv o.0
    pub jobs : Managed.Inv m
    pub mailboxes : Channels.Inv h
    pub coupled : Coupled m.jobs o.0.nodes

  fail_for_node-some :
      (m : JobManager) (h : Hub D) (id reason : String) (now : Time) (ids : List String) (cpus : ℤ)
      → (fail_running_job m id reason now).1 ≡ some (ids, cpus)
      → fail_for_node (record { jobs = some m; hub = some h }) id reason now ≡ (
        record {
          jobs = some (fail_running_job m id reason now).0;
          hub = some (notify_cancel h ids id);
        },
        some (ids, cpus),
      )
  unfolding fail_for_node
  fail_for_node-some m h id reason now ids cpus q = rw (q, fail_for_node) refl

  -- A node whose job runs: the job fails and its nodes are released.
  handle_node-Standing :
      (r : Registry) (m : JobManager) (h : Hub D) (n : Node) (now : Time)
      → Registered.Inv r
      → Managed.Inv m
      → Channels.Inv h
      → Coupled m.jobs r.nodes
      → (x : Ended n.current_job_id m.jobs
          (fail_running_job m n.current_job_id (lost_reason n) now).0.jobs)
      → (fail_running_job m n.current_job_id (lost_reason n) now).1
        ≡ some (x.old.assigned_node_ids, x.old.spec.resources.cpus_per_node)
      → (let m' = (fail_running_job m n.current_job_id (lost_reason n) now).0 in
          let ids = x.old.assigned_node_ids in
          let r' = release_nodes r ids x.old.spec.resources.cpus_per_node in
          let h' = notify_cancel h ids n.current_job_id in
          (handle_node (failer D) r (some (record { jobs = some m; hub = some h })) n now
            ≡ (r', some (record { jobs = some m'; hub = some h' })))
          × Registered.Inv r'
          × Managed.Inv m'
          × Channels.Inv h'
          × Coupled m'.jobs r'.nodes)
  handle_node-Standing r m h n now u v y c x q = (
    handle_node-some (failer D) r _ _ n now x.old.assigned_node_ids
        x.old.spec.resources.cpus_per_node
        (fail_for_node-some m h n.current_job_id (lost_reason n) now x.old.assigned_node_ids
          x.old.spec.resources.cpus_per_node q),
    released-Inv r u c x,
    fail_running-Inv m n.current_job_id (lost_reason n) now v,
    notify_cancel-Inv h x.old.assigned_node_ids n.current_job_id y,
    released-Coupled r c x,
  )

  pub handle_from-Standing :
      (dead : List Node) (seen : List String) (r : Registry) (m : JobManager) (h : Hub D)
      (now : Time)
      → Registered.Inv r
      → Managed.Inv m
      → Channels.Inv h
      → Coupled m.jobs r.nodes
      → All (IsRunning m seen) dead
      → Standing
          (handle_from (failer D) seen r (some (record { jobs = some m; hub = some h })) dead now)
  unfolding handle_from
  handle_from-Standing [] seen r m h now u v y c t = record {
    m = m;
    h = h;
    state = refl;
    registry = u;
    jobs = v;
    mailboxes = y;
    coupled = c;
  }
  handle_from-Standing (n ∷ dead) seen r m h now u v y c t = elim (dec_string n.current_job_id "") [
    | yes p ↦
        subst Standing (sym (ground (arith, p)))
          (handle_from-Standing dead seen r m h now u v y c t.1)
    | no p ↦ elim (Bool-cases (was_seen seen n.current_job_id)) [
      | inl s ↦
          subst Standing (sym (ground (arith, p, s)))
            (handle_from-Standing dead seen r m h now u v y c t.1)
      | inr s ↦
          let (j, e, st) = t.0 p s in
          elim (fail_running_job-FailCases m n.current_job_id (lost_reason n) now) [
            | inl (_, _, no_run) ↦ absurd (no_run j e st)
            | inr (x, q) ↦
                let m' = (fail_running_job m n.current_job_id (lost_reason n) now).0 in
                let r' =
                  release_nodes r x.old.assigned_node_ids x.old.spec.resources.cpus_per_node in
                let h' = notify_cancel h x.old.assigned_node_ids n.current_job_id in
                let (step, u', v', y', c') = handle_node-Standing r m h n now u v y c x q in
                subst Standing (sym (ground (arith, p, s, step))) (
                  handle_from-Standing dead (n.current_job_id ∷ seen) r' m' h' now u' v' y' c' (
                    All-map (IsRunning m seen) (IsRunning m' (n.current_job_id ∷ seen)) dead
                      (λ k. ended-IsRunning m m' n.current_job_id seen k x) t.1))
          ]
    ]
  ]
