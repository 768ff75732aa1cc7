-- ===== src/System/Assignment.antt =====
-- The start and the end of a job keep jobs and nodes together: what trySchedule of
-- internal/scheduler/scheduler.go and the releases of internal/controller/server.go do.
use slurmlite.Cluster.Invariant.{IsCount}
use slurmlite.Cluster.Registry.{Node, Registry}
use slurmlite.Cluster.Reservations.{freed, release_nodes}
use slurmlite.Cluster.Reservations.Exact.{lookup-release_nodes, lookup-release_nodes_ne}
use slurmlite.Jobs.Effects.{started_job}
use slurmlite.Jobs.Model.{Job, Spec, pending, running}
use slurmlite.System.Coupling.{Coupled, insert_cases}
use slurmlite.Prelude.{
  ℤ, pos, Time, Map, lookup, insert, lookup-insert_self, lookup-insert_ne, some_inj, dec_In, String,
  List, length, some, ◌≡◌, ◌≢◌, refl, sym, ap, subst, ◌∙◌, inl, inr, arith, In, Distinct, ◌-ℤ◌,
  wrap64_of_Fits, int_laws,
}

-- What a start does to the nodes: those of the gang, which were idle, carry the job now.
pub record Takes (nodes nodes' : Map Node) (id : String) (ids : List String) (cpus : ℤ)
    : Type 0 where
  pub gang :
      (k : String)
      → In k ids
      → (n : Node) × (lookup k nodes ≡ some n)
        × (n.current_job_id ≡ "")
        × ((n' : Node) × (lookup k nodes' ≡ some n')
            × (n'.current_job_id ≡ id)
            × (n'.allocated_cpus ≡ cpus))
  pub others : (k : String) → ¬ In k ids → lookup k nodes' ≡ lookup k nodes

pub starts-Coupled :
    (jobs : Map Job) (nodes nodes' : Map Node) (id : String) (j : Job) (ids : List String)
    (now : Time)
    → Coupled jobs nodes
    → lookup id jobs ≡ some j
    → j.status ≡ pending
    → Distinct ids
    → pos (length ids) ≡ j.spec.resources.nodes_required
    → Takes nodes nodes' id ids j.spec.resources.cpus_per_node
    → Coupled (insert id (started_job j ids now) jobs) nodes'
starts-Coupled jobs nodes nodes' id j ids now v st p d l t = record {
  named = λ k x e. elim (insert_cases id k s x jobs e) [
    | inl (q, r) ↦ λ z. v.named id j st (q ∙ z)
    | inr (q, r) ↦ v.named k x r
  ];
  sized = λ k x e. elim (insert_cases id k s x jobs e) [
    | inl (q, r) ↦
        subst (λ (y : Job). IsCount y.spec.resources.cpus_per_node) (sym r) (v.sized id j st)
    | inr (q, r) ↦ v.sized k x r
  ];
  spread = λ k x e u. elim (insert_cases id k s x jobs e) [
    | inl (q, r) ↦ subst (λ (y : Job). Distinct y.assigned_node_ids) (sym r) d
    | inr (q, r) ↦ v.spread k x r u
  ];
  whole = λ k x e u. elim (insert_cases id k s x jobs e) [
    | inl (q, r) ↦
        subst (λ (y : Job). pos (length y.assigned_node_ids) ≡ y.spec.resources.nodes_required)
          (sym r) l
    | inr (q, r) ↦ v.whole k x r u
  ];
  held = λ k x a e u i. elim (insert_cases id k s x jobs e) [
    | inl (q, r) ↦
        let (n, f, c, (n', f', c', a')) =
          t.gang a (subst (λ (y : Job). In a y.assigned_node_ids) r i) in
        (n', f', c' ∙ q, a' ∙ ap (λ (y : Job). y.spec.resources.cpus_per_node) (sym r))
    | inr (q, r) ↦
        let (n, f, c, b) = v.held k x a r u i in (n, t.others a (not_gang k x a r n f c) ∙ f, c, b)
  ];
  carried = λ k n e c. elim (dec_In k ids) [
    | yes i ↦
        let (o, f, g, (n', f', c', a')) = t.gang k i in
        let same : n' ≡ n = some_inj (sym f' ∙ e) in
        let cur : n.current_job_id ≡ id = ap (λ (y : Node). y.current_job_id) (sym same) ∙ c' in
        (s, ap (λ z. lookup z (insert id s jobs)) cur ∙ lookup-insert_self id s jobs, refl, i)
    | no i ↦
        let (x, f, r, w) = v.carried k n (sym (t.others k i) ∙ e) c in
        (
          x,
          lookup-insert_ne id n.current_job_id s jobs
                (λ q. absurd (still x (ap (λ z. lookup z jobs) q ∙ f) r))
              ∙ f,
          r,
          w,
        )
  ];
  unused = λ k n e c. elim (dec_In k ids) [
    | yes i ↦
        let (o, f, g, (n', f', c', a')) = t.gang k i in
        let same : n' ≡ n = some_inj (sym f' ∙ e) in
        absurd (v.named id j st (sym c' ∙ ap (λ (y : Node). y.current_job_id) same ∙ c))
    | no i ↦ v.unused k n (sym (t.others k i) ∙ e) c
  ];
}
  where
    s : Job
    s = started_job j ids now

    still : (x : Job) → lookup id jobs ≡ some x → x.status ≡ running → ⊥
    still x f r = ground (arith, some_inj (sym st ∙ f), p, r)

    not_gang :
        (k : String) (x : Job) (a : String)
        → lookup k jobs ≡ some x
        → (n : Node) → lookup a nodes ≡ some n
        → n.current_job_id ≡ k
        → ¬ In a ids
    not_gang k x a r n f c i =
        let (o, g, h, _) = t.gang a i in
        let same : n ≡ o = some_inj (sym f ∙ g) in
        v.named k x r (sym c ∙ ap (λ (y : Node). y.current_job_id) same ∙ h)

-- A node is idle with nothing allocated once its own job's CPUs are given back.
pub freed_idle :
    (n : Node) (cpus : ℤ)
    → IsCount cpus
    → n.allocated_cpus ≡ cpus
    → ((freed n cpus).current_job_id ≡ "") × ((freed n cpus).allocated_cpus ≡ pos 0)
unfolding freed
freed_idle n cpus c e =
    let none_left : cpus -ℤ cpus ≡ pos 0 = omega int_laws in
    (refl, rw (e, none_left, wrap64_of_Fits (pos 0) (omega arith)) refl)

-- What an end does to the nodes.
pub ends-Coupled :
    (jobs : Map Job) (r : Registry) (id : String) (j j' : Job)
    → Coupled jobs r.nodes
    → lookup id jobs ≡ some j
    → j.status ≡ running
    → j'.spec ≡ j.spec
    → j'.status ≢ running
    → Coupled
        (insert id j' jobs)
        (release_nodes r j.assigned_node_ids j.spec.resources.cpus_per_node).nodes
ends-Coupled jobs r id j j' v st p sp np = record {
  named = λ k x e. elim (insert_cases id k j' x jobs e) [
    | inl (q, _) ↦ λ z. v.named id j st (q ∙ z)
    | inr (_, q) ↦ v.named k x q
  ];
  sized = λ k x e. elim (insert_cases id k j' x jobs e) [
    | inl (_, q) ↦
        subst IsCount
          (ap (λ (y : Spec). y.resources.cpus_per_node) (sym sp)
            ∙ ap (λ (y : Job). y.spec.resources.cpus_per_node) (sym q))
          (v.sized id j st)
    | inr (_, q) ↦ v.sized k x q
  ];
  spread = λ k x e u. elim (insert_cases id k j' x jobs e) [
    | inl (_, q) ↦ absurd (np (ap (λ (y : Job). y.status) (sym q) ∙ u))
    | inr (_, q) ↦ v.spread k x q u
  ];
  whole = λ k x e u. elim (insert_cases id k j' x jobs e) [
    | inl (_, q) ↦ absurd (np (ap (λ (y : Job). y.status) (sym q) ∙ u))
    | inr (_, q) ↦ v.whole k x q u
  ];
  held = λ k x a e u i. elim (insert_cases id k j' x jobs e) [
    | inl (_, q) ↦ absurd (np (ap (λ (y : Job). y.status) (sym q) ∙ u))
    | inr (ne, q) ↦
        let (n, f, c, b) = v.held k x a q u i in
        (
          n,
          lookup-release_nodes_ne r a j.assigned_node_ids cpus (λ h. ne (same_owner a n f h ∙ c))
              ∙ f,
          c,
          b,
        )
  ];
  carried = λ k n e c. elim (dec_In k j.assigned_node_ids) [
    | yes i ↦ absurd (c (emptied k n i e).0)
    | no i ↦
        let (x, f, u, h) =
          v.carried k n (sym (lookup-release_nodes_ne r k j.assigned_node_ids cpus i) ∙ e) c in
        (
          x,
          lookup-insert_ne id n.current_job_id j' jobs (λ q. i (
                subst (λ (y : Job). In k y.assigned_node_ids)
                  (some_inj (sym f ∙ ap (λ z. lookup z jobs) (sym q) ∙ st)) h))
              ∙ f,
          u,
          h,
        )
  ];
  unused = λ k n e c. elim (dec_In k j.assigned_node_ids) [
    | yes i ↦ (emptied k n i e).1
    | no i ↦ v.unused k n (sym (lookup-release_nodes_ne r k j.assigned_node_ids cpus i) ∙ e) c
  ];
}
  where
    cpus : ℤ
    cpus = j.spec.resources.cpus_per_node

    same_owner :
        (a : String) (n : Node)
        → lookup a r.nodes ≡ some n
        → In a j.assigned_node_ids
        → id ≡ n.current_job_id
    same_owner a n f h =
        let (o, g, c, b) = v.held id j a st p h in
        sym c ∙ ap (λ (y : Node). y.current_job_id) (some_inj (sym g ∙ f))

    emptied :
        (k : String) (n : Node)
        → In k j.assigned_node_ids
        → lookup k (release_nodes r j.assigned_node_ids cpus).nodes ≡ some n
        → (n.current_job_id ≡ "") × (n.allocated_cpus ≡ pos 0)
    emptied k n i e =
        let (o, g, c, b) = v.held id j k st p i in
        subst (λ (y : Node). (y.current_job_id ≡ "") × (y.allocated_cpus ≡ pos 0))
          (some_inj (
            sym (lookup-release_nodes r k j.assigned_node_ids cpus o (v.spread id j st p) i g) ∙ e))
          (freed_idle o cpus (v.sized id j st) b)
