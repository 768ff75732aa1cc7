-- ===== src/Cluster/Lost.antt =====
-- What the handling of dead nodes (internal/cluster/reaper.go) does to the jobs, and what a tick of
-- the monitor (internal/cluster/heartbeat.go) does to the nodes that are alive.
use slurmlite.Cluster.Monitor.{Monitor}
use slurmlite.Cluster.Reaper.{
  JobFailure, lost_reason, was_seen, handle_node, handle_from, handle_dead_nodes,
}
use slurmlite.Cluster.Registry.{Node, online, Registry}
use slurmlite.Prelude.{
  Time, lookup, dec_string, ite, true, false, Bool-cases, ite_ind, dec_In, String, List, [], ◌∷◌,
  some, ◌≡◌, ◌≢◌, refl, sym, subst, ◌∙◌, inl, inr, arith, In, Distinct,
}

-- The jobs of the dead nodes, each once, with the first node that carries it.
unfoldable pub lost_jobs : List String → List Node → List Node
lost_jobs seen [] = []
lost_jobs seen (n ∷ dead) = ite (dec_string n.current_job_id "") (lost_jobs seen dead) (
    ite (dec_In n.current_job_id seen) (lost_jobs seen dead)
      (n ∷ lost_jobs (n.current_job_id ∷ seen) dead))

abbrev pub job_ids : List Node → List String
job_ids [] = []
job_ids (n ∷ ns) = n.current_job_id ∷ job_ids ns

was_seen-In : (seen : List String) (id : String) → was_seen seen id ≡ true → In id seen
unfolding was_seen
was_seen-In [] id h = absurd (ground (arith, h))
was_seen-In (x ∷ xs) id h = elim (dec_string x id) [
  | yes e ↦ inl e
  | no n ↦ inr (was_seen-In xs id (ground (arith, h, n)))
]

In-was_seen : (seen : List String) (id : String) → In id seen → was_seen seen id ≡ true
unfolding was_seen
In-was_seen [] id i = absurd i
In-was_seen (x ∷ xs) id i = ground (arith, In-was_seen xs id)

lost_jobs_new :
    (dead : List Node) (seen : List String) (id : String)
    → In id (job_ids (lost_jobs seen dead))
    → ¬ In id seen
unfolding lost_jobs
lost_jobs_new [] seen id i = absurd i
lost_jobs_new (n ∷ dead) seen id i =
    ite_ind (λ x. In id (job_ids x) → ¬ In id seen) (dec_string n.current_job_id "")
      (λ _. lost_jobs_new dead seen id)
      (λ _.
        ite_ind (λ x. In id (job_ids x) → ¬ In id seen) (dec_In n.current_job_id seen)
          (λ _. lost_jobs_new dead seen id)
          (λ u h s. elim h [
            | inl e ↦ u (subst (λ x. In x seen) (sym e) s)
            | inr k ↦ lost_jobs_new dead (n.current_job_id ∷ seen) id k (inr s)
          ]))
      i

lost_jobs-Distinct :
    (dead : List Node) (seen : List String) → Distinct (job_ids (lost_jobs seen dead))
unfolding lost_jobs
lost_jobs-Distinct [] seen = tt
lost_jobs-Distinct (n ∷ dead) seen =
    ite_ind (λ x. Distinct (job_ids x)) (dec_string n.current_job_id "")
      (λ _. lost_jobs-Distinct dead seen)
      (λ _.
        ite_ind (λ x. Distinct (job_ids x)) (dec_In n.current_job_id seen)
          (λ _. lost_jobs-Distinct dead seen)
          (λ _. (
            λ i. lost_jobs_new dead (n.current_job_id ∷ seen) n.current_job_id i (inl refl),
            lost_jobs-Distinct dead (n.current_job_id ∷ seen),
          )))

-- No job of a dead node is forgotten.
lost_jobs-all :
    (dead : List Node) (seen : List String) (id : String)
    → id ≢ ""
    → In id (job_ids dead)
    → ¬ In id seen
    → In id (job_ids (lost_jobs seen dead))
unfolding lost_jobs
lost_jobs-all [] seen id b i u = absurd i
lost_jobs-all (n ∷ dead) seen id b i u =
    ite_ind (λ x. In id (job_ids x)) (dec_string n.current_job_id "")
      (λ p. elim i [ inl e ↦ absurd (b (sym e ∙ p)) | inr k ↦ lost_jobs-all dead seen id b k u ])
      (λ _.
        ite_ind (λ x. In id (job_ids x)) (dec_In n.current_job_id seen)
          (λ p. elim i [
            | inl e ↦ absurd (u (subst (λ x. In x seen) e p))
            | inr k ↦ lost_jobs-all dead seen id b k u
          ])
          (λ p. elim i [
            | inl e ↦ inl e
            | inr k ↦ elim (dec_string n.current_job_id id) [
              | yes e ↦ inl e
              | no ne ↦ inr (
                  lost_jobs-all dead (n.current_job_id ∷ seen) id b k
                    (λ h. elim h [ inl e ↦ ne e | inr s ↦ u s ]))
            ]
          ]))

module _ (f : JobFailure) where
  -- One failure after the other.
  unfoldable pub fail_each : f.State → List Node → Time → f.State
  fail_each s [] now = s
  fail_each s (n ∷ ns) now =
      fail_each (f.fail_running_job s n.current_job_id (lost_reason n) now).0 ns now

  handle_node-jobs :
      (r : Registry) (s : f.State) (n : Node) (now : Time)
      → (handle_node f r (some s) n now).1
        ≡ some (f.fail_running_job s n.current_job_id (lost_reason n) now).0
  unfolding handle_node
  handle_node-jobs r s n now = ground arith

  handle_from-jobs :
      (dead : List Node) (seen : List String) (r : Registry) (s : f.State) (now : Time)
      → (handle_from f seen r (some s) dead now).1 ≡ some (fail_each s (lost_jobs seen dead) now)
  unfolding handle_from lost_jobs fail_each
  handle_from-jobs [] seen r s now = refl
  handle_from-jobs (n ∷ dead) seen r s now = elim (dec_string n.current_job_id "") [
    | yes p ↦ ground (arith, p, handle_from-jobs dead seen r s now)
    | no p ↦ elim (dec_In n.current_job_id seen) [
      | yes i ↦
          let t = In-was_seen seen n.current_job_id i in
          ground (arith, p, i, t, handle_from-jobs dead seen r s now)
      | no i ↦
          let t : was_seen seen n.current_job_id ≡ false =
            elim (Bool-cases (was_seen seen n.current_job_id)) [
              | inl t ↦ absurd (i (was_seen-In seen n.current_job_id t))
              | inr t ↦ t
            ] in
          let o = handle_node f r (some s) n now in
          let s' = (f.fail_running_job s n.current_job_id (lost_reason n) now).0 in
          ground (
            arith,
            p,
            i,
            t,
            handle_node-jobs r s n now,
            handle_from-jobs dead (n.current_job_id ∷ seen) o.0 s' now,
          )
    ]
  ]

-- The handling of dead nodes fails the job of each dead node exactly once, in the order of the list
-- and with the first node that carries it as the reason, and does nothing else to the jobs.
pub handle_dead_nodes-jobs :
    (f : JobFailure) (r : Registry) (s : f.State) (dead : List Node) (now : Time)
    → ((handle_dead_nodes f r (some s) dead now).1 ≡ some (fail_each f s (lost_jobs [] dead) now))
      × Distinct (job_ids (lost_jobs [] dead))
      × ((id : String) → id ≢ "" → In id (job_ids dead) → In id (job_ids (lost_jobs [] dead)))
unfolding handle_dead_nodes
handle_dead_nodes-jobs f r s dead now = (
  handle_from-jobs f dead [] r s now,
  lost_jobs-Distinct dead [],
  λ id b i. lost_jobs-all dead [] id b i (λ h. h),
)

-- A node as a heartbeat at `now` leaves it.
abbrev pub refreshed : Time → Node → Node
refreshed now n = record n { last_heartbeat = now; status = online }

-- A node is online, with its last beat at `now`.
abbrev pub Beats : Time → String → Registry → Type 0
Beats now k r =
    (n : Node) × (lookup k r.nodes ≡ some n) × (n.status ≡ online) × (n.last_heartbeat ≡ now)
