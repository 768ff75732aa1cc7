-- ===== src/Scheduling/Placed.antt =====
-- What a step of `trySchedule` (internal/scheduler/scheduler.go) that reports progress has done.
use slurmlite.Cluster.Gangs.{reserved, reserve_exact}
use slurmlite.Cluster.Invariant as Registered
use slurmlite.Cluster.Registry.{Node, Registry}
use slurmlite.Jobs.Changes.{mark_running}
use slurmlite.Jobs.Effects.{started_job}
use slurmlite.Jobs.Invariant as Managed
use slurmlite.Jobs.Transitions.{mark_running-Cases}
use slurmlite.Jobs.Manager.{
  JobManager, first, peek_pending, peek_pending_job, remove_first, remove_pending, clone_job,
}
use slurmlite.Jobs.Model.{Job, ResourceRequest, pending}
use slurmlite.Scheduling.Dispatch.{Dispatcher}
use slurmlite.Scheduling.Gang.{IsGang, select_gang-IsGang}
use slurmlite.Scheduling.Schedule.{Scheduler, try_schedule}
use slurmlite.Prelude.{
  [], ◌∷◌, dec_string, if_pos, Time, Map, lookup, lookup-insert_self, ok, true, Option-cases,
  some_inj, String, List, some, ◌≡◌, sym, ap, subst, ◌∙◌, inl, inr, arith,
}
use slurmlite.Scheduling.AllOrNothing.{place_gang-true, try_schedule_cases}

pub mark_running_ok :
    (m : JobManager) (id : String) (ids : List String) (now : Time)
    → (mark_running m id ids now).1 ≡ ok tt
    → (j : Job) × (lookup id m.jobs ≡ some j)
      × (j.status ≡ pending)
      × (lookup id (mark_running m id ids now).0.jobs ≡ some (started_job j ids now))
unfolding mark_running
mark_running_ok m id ids now h = elim (Option-cases (lookup id m.jobs)) [
  | inl e ↦ absurd (ground (arith, e, h))
  | inr (j, e) ↦ elim (mark_running-Cases j ids now) [
    | inl (p, q) ↦
        (j, e, p, rw (e, q, mark_running) (lookup-insert_self id (started_job j ids now) m.jobs))
    | inr (p, q) ↦ absurd (ground (arith, e, q, h))
  ]
]

-- The head of the queue is what a removal of its id takes.
first_leaves : (id : String) (xs : List String) → first xs ≡ some id → xs ≡ id ∷ remove_first id xs
unfolding first remove_first
first_leaves id [] h = absurd (ground (arith, h))
first_leaves id (x ∷ xs) h =
    let e = some_inj h in
    ap (λ y. y ∷ xs) e
    ∙ ap (λ ys. id ∷ ys) (sym (if_pos (dec_string x id) e xs (x ∷ remove_first id xs)))

mark_running-leaves :
    (m : JobManager) (id : String) (ids : List String) (now : Time)
    → (mark_running m id ids now).1 ≡ ok tt
    → peek_pending m ≡ some id
    → m.pending ≡ id ∷ (mark_running m id ids now).0.pending
unfolding mark_running remove_pending peek_pending
mark_running-leaves m id ids now h p = elim (Option-cases (lookup id m.jobs)) [
  | inl e ↦ absurd (ground (arith, e, h))
  | inr (j, e) ↦ elim (mark_running-Cases j ids now) [
    | inl (_, q) ↦ rw (e, q, mark_running) (first_leaves id m.pending p)
    | inr (_, q) ↦ absurd (ground (arith, e, q, h))
  ]
]

-- What a successful step has done: `j` is the head of the queue as the manager stores it, and it
-- holds the gang `ids`.
pub record Placed {d : Dispatcher} (s s' : Scheduler d) (now : Time) (j : Job) (ids : List String)
    : Type 0 where
  pub id : String
  pub head : peek_pending s.job_manager ≡ some id
  pub leaves : s.job_manager.pending ≡ id ∷ s'.job_manager.pending
  pub stored : lookup id s.job_manager.jobs ≡ some j
  pub was_pending : j.status ≡ pending
  pub starts : lookup id s'.job_manager.jobs ≡ some (started_job j ids now)
  pub gang : IsGang s.registry j.spec.resources ids
  pub nodes :
      (k : String) (n : Node)
      → lookup k s.registry.nodes ≡ some n
      → lookup k s'.registry.nodes ≡ some (reserved ids id j.spec.resources.cpus_per_node k n)

pub peek_pending_job_inv :
    (m : JobManager) (c : Job)
    → peek_pending_job m ≡ some c
    → (id : String) × (j : Job) × (peek_pending m ≡ some id)
      × (lookup id m.jobs ≡ some j)
      × (c ≡ clone_job j)
unfolding peek_pending_job
peek_pending_job_inv m c h = elim (Option-cases (peek_pending m)) [
  | inl e ↦ absurd (ground (arith, e, h))
  | inr (id, e) ↦ elim (Option-cases (lookup id m.jobs)) [
    | inl q ↦ absurd (ground (arith, e, q, h))
    | inr (j, q) ↦ (id, j, e, q, ground (arith, e, q, h))
  ]
]

same_stored :
    {A : Type 0} (k k' : String) (xs : Map A) (a b : A)
    → k ≡ k'
    → lookup k xs ≡ some a
    → lookup k' xs ≡ some b
    → b ≡ a
same_stored k k' xs a b e p q = some_inj (sym q ∙ ap (λ x. lookup x xs) (sym e) ∙ p)

-- Where the invariants of the registry and of the job manager hold, a scheduling step that reports
-- progress has taken the head of the queue, a pending job, off the queue, whose rest is as it was: the
-- job is now running on exactly the gang that it asked for, chosen among the free nodes, and each node of the
-- gang carries the job and has its CPUs added, while every other node is as it was.
pub try_schedule_places :
    (d : Dispatcher) (s : Scheduler d) (now : Time)
    → Registered.Inv s.registry
    → Managed.Inv s.job_manager
    → (try_schedule d s now).1 ≡ true
    → (j : Job) × (ids : List String) × Placed s (try_schedule d s now).0 now j ids
unfolding clone_job
try_schedule_places d s now v w h = elim (try_schedule_cases d s now) [
  | inl e ↦ absurd (ground (arith, e, h))
  | inr (c, ids, p, q, e) ↦
      let (id, j, hd, st, ce) = peek_pending_job_inv s.job_manager c p in
      let cid : c.id ≡ id = ap (λ (x : Job). x.id) ce ∙ w.keyed id j st in
      let cpus : c.spec.resources ≡ j.spec.resources = ap (λ (x : Job). x.spec.resources) ce in
      let (ok_r, ok_m, reg, man) = place_gang-true d s c ids now (ap (λ o. o.1) (sym e) ∙ h) in
      let (j', st', pend, run) = mark_running_ok s.job_manager c.id ids now ok_m in
      let same : j' ≡ j = sym (same_stored c.id id s.job_manager.jobs j' j cid st' st) in
      let g = select_gang-IsGang s.registry c.spec.resources ids v q in
      (
        j,
        ids,
        record {
          id = id;
          head = hd;
          leaves =
              mark_running-leaves s.job_manager id ids now
                (ap (λ x. (mark_running s.job_manager x ids now).1) (sym cid) ∙ ok_m) hd
              ∙ ap (λ (x : List String). id ∷ x)
                  (sym (
                    ap (λ o. o.0.job_manager.pending) e
                    ∙ ap (λ (m : JobManager). m.pending) man
                    ∙ ap (λ x. (mark_running s.job_manager x ids now).0.pending) cid));
          stored = st;
          was_pending = ap (λ (x : Job). x.status) (sym same) ∙ pend;
          starts =
              ap (λ o. lookup id o.0.job_manager.jobs) e
              ∙ ap (λ (m : JobManager). lookup id m.jobs) man
              ∙ ap (λ x. lookup x (mark_running s.job_manager c.id ids now).0.jobs) (sym cid)
              ∙ run
              ∙ ap (λ (x : Job). some (started_job x ids now)) same;
          gang = subst (λ x. IsGang s.registry x ids) cpus g;
          nodes = λ k n l.
              ap (λ o. lookup k o.0.registry.nodes) e
              ∙ ap (λ (r : Registry). lookup k r.nodes) reg
              ∙ reserve_exact s.registry c.id ids c.spec.resources.cpus_per_node v g.distinct ok_r k
                  n l
              ∙ ap (λ x. some (reserved ids x c.spec.resources.cpus_per_node k n)) cid
              ∙ ap (λ (x : ResourceRequest). some (reserved ids id x.cpus_per_node k n)) cpus;
        },
      )
]
