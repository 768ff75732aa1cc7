-- ===== src/System/Coupling.antt =====
-- How the jobs of internal/job/manager.go and the nodes of internal/cluster/registry.go belong
-- together, and the changes that keep them together.
use slurmlite.Cluster.Invariant.{IsCount}
use slurmlite.Cluster.Registry.{Node}
use slurmlite.Jobs.Model.{Job, running}
use slurmlite.Prelude.{
  pos, Map, lookup, insert, lookup-insert_ne, lookup-insert_inv, dec_string, String, [], length,
  some, ◌≡◌, ◌≢◌, sym, ap, subst, ◌∙◌, ◌⊎◌, inl, inr, arith, In, Distinct,
}

-- Each running job holds all of its nodes, and a node that carries a job is held by it.
pub record Coupled (jobs : Map Job) (nodes : Map Node) : Type 0 where
  pub named : (id : String) (j : Job) → lookup id jobs ≡ some j → id ≢ ""
  pub sized :
      (id : String) (j : Job) → lookup id jobs ≡ some j → IsCount j.spec.resources.cpus_per_node
  pub spread :
      (id : String) (j : Job)
      → lookup id jobs ≡ some j
      → j.status ≡ running
      → Distinct j.assigned_node_ids
  pub whole :
      (id : String) (j : Job)
      → lookup id jobs ≡ some j
      → j.status ≡ running
      → pos (length j.assigned_node_ids) ≡ j.spec.resources.nodes_required
  pub held :
      (id : String) (j : Job) (k : String)
      → lookup id jobs ≡ some j
      → j.status ≡ running
      → In k j.assigned_node_ids
      → (n : Node) × (lookup k nodes ≡ some n)
        × (n.current_job_id ≡ id)
        × (n.allocated_cpus ≡ j.spec.resources.cpus_per_node)
  pub carried :
      (k : String) (n : Node)
      → lookup k nodes ≡ some n
      → n.current_job_id ≢ ""
      → (j : Job) × (lookup n.current_job_id jobs ≡ some j)
        × (j.status ≡ running)
        × In k j.assigned_node_ids
  pub unused :
      (k : String) (n : Node)
      → lookup k nodes ≡ some n
      → n.current_job_id ≡ ""
      → n.allocated_cpus ≡ pos 0

pub empty-Coupled : Coupled [] []
unfolding lookup
empty-Coupled = record {
  named = λ id j e. absurd (ground (arith, e));
  sized = λ id j e. absurd (ground (arith, e));
  spread = λ id j e r. absurd (ground (arith, e));
  whole = λ id j e r. absurd (ground (arith, e));
  held = λ id j k e r i. absurd (ground (arith, e));
  carried = λ k n e c. absurd (ground (arith, e));
  unused = λ k n e c. absurd (ground (arith, e));
}

-- What a map holds after an insertion: the new value under its key, or an old one under another.
pub insert_cases :
    {V : Type 0} (id k : String) (v x : V) (m : Map V)
    → lookup k (insert id v m) ≡ some x
    → ((id ≡ k) × (x ≡ v)) ⊎ ((id ≢ k) × (lookup k m ≡ some x))
insert_cases id k v x m e = elim (dec_string id k) [
  | yes p ↦ inl (p, sym (lookup-insert_inv id k v m p e))
  | no p ↦ inr (p, sym (lookup-insert_ne id k v m p) ∙ e)
]

-- A job that does not run, before and after, changes.
pub changes-Coupled :
    (jobs : Map Job) (nodes : Map Node) (id : String) (j : Job)
    → Coupled jobs nodes
    → id ≢ ""
    → IsCount j.spec.resources.cpus_per_node
    → j.status ≢ running
    → ((o : Job) → lookup id jobs ≡ some o → o.status ≢ running)
    → Coupled (insert id j jobs) nodes
changes-Coupled jobs nodes id j v n c r o = record {
  named = λ k x e. elim (insert_cases id k j x jobs e) [
    | inl (p, q) ↦ λ z. n (p ∙ z)
    | inr (p, q) ↦ v.named k x q
  ];
  sized = λ k x e. elim (insert_cases id k j x jobs e) [
    | inl (p, q) ↦ subst (λ (y : Job). IsCount y.spec.resources.cpus_per_node) (sym q) c
    | inr (p, q) ↦ v.sized k x q
  ];
  spread = λ k x e s. elim (insert_cases id k j x jobs e) [
    | inl (p, q) ↦ absurd (r (ap (λ (y : Job). y.status) (sym q) ∙ s))
    | inr (p, q) ↦ v.spread k x q s
  ];
  whole = λ k x e s. elim (insert_cases id k j x jobs e) [
    | inl (p, q) ↦ absurd (r (ap (λ (y : Job). y.status) (sym q) ∙ s))
    | inr (p, q) ↦ v.whole k x q s
  ];
  held = λ k x y e s i. elim (insert_cases id k j x jobs e) [
    | inl (p, q) ↦ absurd (r (ap (λ (y : Job). y.status) (sym q) ∙ s))
    | inr (p, q) ↦ v.held k x y q s i
  ];
  carried = λ k x e s.
      let (y, f, t, i) = v.carried k x e s in
      (
        y,
        lookup-insert_ne id x.current_job_id j jobs (λ p. o y (ap (λ z. lookup z jobs) p ∙ f) t)
            ∙ f,
        t,
        i,
      );
  unused = v.unused;
}

-- The nodes stay, with what they carry; new ones are idle.
pub record Keeps (nodes nodes' : Map Node) : Type 0 where
  pub kept :
      (k : String) (n : Node)
      → lookup k nodes ≡ some n
      → (n' : Node) × (lookup k nodes' ≡ some n')
        × (n'.current_job_id ≡ n.current_job_id)
        × (n'.allocated_cpus ≡ n.allocated_cpus)
  pub known :
      (k : String) (n' : Node)
      → lookup k nodes' ≡ some n'
      → ((n : Node) × (lookup k nodes ≡ some n)
          × (n'.current_job_id ≡ n.current_job_id)
          × (n'.allocated_cpus ≡ n.allocated_cpus))
        ⊎ ((n'.current_job_id ≡ "") × (n'.allocated_cpus ≡ pos 0))

pub Keeps-Coupled :
    (jobs : Map Job) (nodes nodes' : Map Node)
    → Coupled jobs nodes
    → Keeps nodes nodes'
    → Coupled jobs nodes'
Keeps-Coupled jobs nodes nodes' v s = record {
  named = v.named;
  sized = v.sized;
  spread = v.spread;
  whole = v.whole;
  held = λ id j k e r i.
      let (n, f, c, a) = v.held id j k e r i in
      let (n', f', c', a') = s.kept k n f in (n', f', c' ∙ c, a' ∙ a);
  carried = λ k n' e c. elim (s.known k n' e) [
    | inl (n, f, c', a') ↦
        let (j, g, r, i) = v.carried k n f (λ z. c (c' ∙ z)) in
        (j, ap (λ z. lookup z jobs) c' ∙ g, r, i)
    | inr (c', a') ↦ absurd (c c')
  ];
  unused = λ k n' e c. elim (s.known k n' e) [
    | inl (n, f, c', a') ↦ a' ∙ v.unused k n f (sym c' ∙ c)
    | inr (c', a') ↦ a'
  ];
}
