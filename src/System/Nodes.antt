-- ===== src/System/Nodes.antt =====
-- What internal/cluster/registry.go does to nodes without a reservation or a release keeps what they
-- carry.
use slurmlite.Cluster.Invariant.{reaped, lookup-reap_nodes}
use slurmlite.Cluster.Registry.{
  Node, Registry, registered, register_node, touch, reap_stale, is_stale, gone,
}
use slurmlite.System.Coupling.{Keeps, insert_cases}
use slurmlite.Prelude.{
  pos, leb_ℤ, Time, Duration, Map, lookup, insert, lookup-insert, lookup-insert_ne, dec_string,
  if_pos, Bool, if◌then◌else◌, Option-cases, ite_ind, some_inj, if_ind, String, List, none, some,
  ◌≡◌, refl, sym, ap, subst, ◌∙◌, inl, inr, arith,
}

abbrev Same : Node → Node → Type 0
Same n' n = (n'.current_job_id ≡ n.current_job_id) × (n'.allocated_cpus ≡ n.allocated_cpus)

same_nodes-Keeps : (nodes : Map Node) → Keeps nodes nodes
same_nodes-Keeps nodes = record {
  kept = λ k n e. (n, e, refl, refl);
  known = λ k n e. inl (n, e, refl, refl);
}

insert-Keeps :
    (nodes : Map Node) (id : String) (n' : Node)
    → ((n : Node) → lookup id nodes ≡ some n → Same n' n)
    → (lookup id nodes ≡ none → (n'.current_job_id ≡ "") × (n'.allocated_cpus ≡ pos 0))
    → Keeps nodes (insert id n' nodes)
insert-Keeps nodes id n' same new = record {
  kept = λ k n e. elim (dec_string id k) [
    | yes p ↦ (
      n',
      lookup-insert id k n' nodes ∙ if_pos (dec_string id k) p _ _,
      (same n (ap (λ z. lookup z nodes) p ∙ e)).0,
      (same n (ap (λ z. lookup z nodes) p ∙ e)).1,
    )
    | no p ↦ (n, lookup-insert_ne id k n' nodes p ∙ e, refl, refl)
  ];
  known = λ k x e. elim (insert_cases id k n' x nodes e) [
    | inl (p, q) ↦ elim (Option-cases (lookup id nodes)) [
      | inl f ↦ inr (
          subst (λ (y : Node). (y.current_job_id ≡ "") × (y.allocated_cpus ≡ pos 0)) (sym q)
            (new f))
      | inr (n, f) ↦
          let f' = ap (λ z. lookup z nodes) (sym p) ∙ f in
          let (c, a) = subst (λ (y : Node). Same y n) (sym q) (same n f) in inl (n, f', c, a)
    ]
    | inr (p, q) ↦ inl (x, q, refl, refl)
  ];
}

registered-Same :
    (r : Registry) (n : Node) (now : Time) (o : Node)
    → lookup n.id r.nodes ≡ some o
    → Same (registered r n now) o
unfolding registered
registered-Same r n now o e = rw (e, registered) (refl, refl)

registered_new :
    (r : Registry) (n : Node) (now : Time)
    → n.current_job_id ≡ ""
    → n.allocated_cpus ≡ pos 0
    → lookup n.id r.nodes ≡ none
    → ((registered r n now).current_job_id ≡ "") × ((registered r n now).allocated_cpus ≡ pos 0)
unfolding registered
registered_new r n now c a e = rw (e, registered) (c, a)

pub register_node-Keeps :
    (r : Registry) (n : Node) (now : Time)
    → n.current_job_id ≡ ""
    → n.allocated_cpus ≡ pos 0
    → Keeps r.nodes (register_node r n now).nodes
unfolding register_node
register_node-Keeps r n now c a =
    ite_ind (λ (x : Registry). Keeps r.nodes x.nodes) (dec_string n.id "")
      (λ _. same_nodes-Keeps r.nodes)
      (λ _.
        insert-Keeps r.nodes n.id (registered r n now) (registered-Same r n now)
          (registered_new r n now c a))

pub touch-Keeps : (r : Registry) (id : String) (now : Time) → Keeps r.nodes (touch r id now).0.nodes
unfolding touch
touch-Keeps r id now =
    ite_ind (λ (x : Registry × Bool). Keeps r.nodes x.0.nodes) (dec_string id "")
      (λ _. same_nodes-Keeps r.nodes)
      (λ _. elim (Option-cases (lookup id r.nodes)) [
        | inl e ↦ rw (e, touch) (same_nodes-Keeps r.nodes)
        | inr (n, e) ↦
            rw (e, touch)
              (insert-Keeps r.nodes id _
                (λ x f. (
                  ap (λ (y : Node). y.current_job_id) (some_inj (sym e ∙ f)),
                  ap (λ (y : Node). y.allocated_cpus) (some_inj (sym e ∙ f)),
                ))
                (λ f. absurd (ground (arith, e, f))))
      ])

reaped-Same :
    (now : Time) (timeout : Duration) (n : Node)
    → Same (if is_stale now timeout n then gone n else n) n
reaped-Same now timeout n =
    if_ind (λ x. Same x n) (is_stale now timeout n) (λ _. (refl, refl)) (λ _. (refl, refl))

pub reap_stale-Keeps :
    (r : Registry) (now : Time) (timeout : Duration)
    → Keeps r.nodes (reap_stale r now timeout).0.nodes
unfolding reap_stale
reap_stale-Keeps r now timeout =
    if_ind (λ (x : Registry × List Node). Keeps r.nodes x.0.nodes) (leb_ℤ timeout (pos 0))
      (λ _. same_nodes-Keeps r.nodes)
      (λ _. record {
        kept = λ k n e. (
          _,
          lookup-reap_nodes now timeout k r.nodes ∙ ap (reaped now timeout) e,
          (reaped-Same now timeout n).0,
          (reaped-Same now timeout n).1,
        );
        known = λ k x e. elim (Option-cases (lookup k r.nodes)) [
          | inl f ↦ absurd (ground (arith, lookup-reap_nodes now timeout k r.nodes, f, e))
          | inr (n, f) ↦
              let (c, a) =
                subst (λ (y : Node). Same y n)
                  (some_inj
                    (sym (lookup-reap_nodes now timeout k r.nodes ∙ ap (reaped now timeout) f) ∙ e))
                  (reaped-Same now timeout n) in
              inl (n, f, c, a)
        ];
      })
