-- ===== src/Cluster/Gangs.antt =====
-- The reservation of a gang as a whole: `ReserveNodes` and `ReleaseNodes` of
-- internal/cluster/registry.go.
use slurmlite.Cluster.Invariant.{Inv}
use slurmlite.Cluster.Invariant.Gangs.{
  IsFree, AllFree, check_nodes-AllFree, AllFree-check_nodes, taken_lem, take_nodes-Inv, freed-taken,
}
use slurmlite.Cluster.Registry.{Node, Registry}
use slurmlite.Cluster.Reservations.{
  ReserveError, check_request, taken, take_nodes, reserve_nodes, release_nodes,
}
use slurmlite.Cluster.Reservations.Exact.{
  lookup-take_nodes_ne, lookup-take_nodes, lookup-release_nodes_ne, lookup-release_nodes,
}
use slurmlite.Prelude.{
  ℤ, pos, lookup, ok, err, ite, ite_ind, some_inj, dec_In, Result-cases, String, List, [], ◌∷◌,
  some, ◌≡◌, ◌≢◌, refl, sym, ap, subst, ◌∙◌, ◌⊎◌, inl, inr, ◌↔◌, arith, In, Distinct, ◌+ℤ◌, ◌≤ℤ◌,
}

-- What a reservation needs.
pub record Grantable (r : Registry) (job_id : String) (ids : List String) (cpus : ℤ) : Type 0 where
  pub named : job_id ≢ ""
  pub some_node : ids ≢ []
  pub some_cpu : pos 1 ≤ℤ cpus
  pub free : AllFree r ids cpus

check_request-Grantable :
    (r : Registry) (job_id : String) (ids : List String) (cpus : ℤ)
    → check_request r job_id ids cpus ≡ ok tt
    → Grantable r job_id ids cpus
unfolding check_request
check_request-Grantable r job_id ids cpus h = record {
  named = λ e. ground (arith, e, h);
  some_node = λ e. ground (arith, e, h);
  some_cpu = ground (arith, h);
  free = check_nodes-AllFree r ids cpus (ground (arith, h));
}

Grantable-check_request :
    (r : Registry) (job_id : String) (ids : List String) (cpus : ℤ)
    → Grantable r job_id ids cpus
    → check_request r job_id ids cpus ≡ ok tt
unfolding check_request
Grantable-check_request r job_id [] cpus g = absurd (g.some_node refl)
Grantable-check_request r job_id (id ∷ ids) cpus g =
    ground (arith, g.named, g.some_cpu, AllFree-check_nodes r (id ∷ ids) cpus g.free)

reserve_granted :
    (r : Registry) (job_id : String) (ids : List String) (cpus : ℤ)
    → Grantable r job_id ids cpus
    → reserve_nodes r job_id ids cpus ≡ (take_nodes r job_id ids cpus, ok tt)
unfolding reserve_nodes
reserve_granted r job_id ids cpus g =
    rw (Grantable-check_request r job_id ids cpus g, reserve_nodes) refl

reserve_cases :
    (r : Registry) (job_id : String) (ids : List String) (cpus : ℤ)
    → ((check_request r job_id ids cpus ≡ ok tt)
        × (reserve_nodes r job_id ids cpus ≡ (take_nodes r job_id ids cpus, ok tt)))
      ⊎ ((e : ReserveError) × (reserve_nodes r job_id ids cpus ≡ (r, err e)))
unfolding reserve_nodes
reserve_cases r job_id ids cpus = elim (Result-cases (check_request r job_id ids cpus)) [
  | inl (a, e) ↦ inl (ground (arith, e), ground (arith, e))
  | inr (x, e) ↦ inr (x, rw (e, reserve_nodes) refl)
]

-- `ReserveNodes` succeeds exactly when the job has a name, some node and some CPU is asked for, and
-- every named node is registered, online, idle and has that many CPUs free.
pub reserve_ok_iff :
    (r : Registry) (job_id : String) (ids : List String) (cpus : ℤ)
    → ((reserve_nodes r job_id ids cpus).1 ≡ ok tt) ↔ Grantable r job_id ids cpus
reserve_ok_iff r job_id ids cpus = (
  λ h. elim (reserve_cases r job_id ids cpus) [
    | inl (c, e) ↦ check_request-Grantable r job_id ids cpus c
    | inr (x, e) ↦ absurd (ground (arith, e, h))
  ],
  λ g. ap (λ o. o.1) (reserve_granted r job_id ids cpus g),
)

-- The node `n` as a reservation leaves it.
abbrev pub reserved : List String → String → ℤ → String → Node → Node
reserved ids job_id cpus k n =
    ite (dec_In k ids)
      (record n { allocated_cpus = n.allocated_cpus +ℤ cpus; current_job_id = job_id }) n

-- A successful reservation changes the named nodes, all of them and nothing else: each carries the
-- job and has the CPUs added, with no wrap-around.
pub reserve_exact :
    (r : Registry) (job_id : String) (ids : List String) (cpus : ℤ)
    → Inv r
    → Distinct ids
    → (reserve_nodes r job_id ids cpus).1 ≡ ok tt
    → (k : String) (n : Node) → lookup k r.nodes ≡ some n
    → lookup k (reserve_nodes r job_id ids cpus).0.nodes ≡ some (reserved ids job_id cpus k n)
reserve_exact r job_id ids cpus v d h k n e =
    ap (λ o. lookup k o.0.nodes) (reserve_granted r job_id ids cpus g)
    ∙ ite_ind (λ x. lookup k (take_nodes r job_id ids cpus).nodes ≡ some x) (dec_In k ids)
        (λ i.
          let (o, q, f) = g.free k i in
          lookup-take_nodes r job_id k ids cpus n d i e
          ∙ ap some (
              taken_lem k job_id n cpus (v.sound k n e)
                (subst (λ x. IsFree x cpus) (some_inj (sym q ∙ e)) f) g.some_cpu))
        (λ i. lookup-take_nodes_ne r job_id k ids cpus i ∙ e)
  where
    g : Grantable r job_id ids cpus
    g = (reserve_ok_iff r job_id ids cpus).0 h

pub reserve_others :
    (r : Registry) (job_id k : String) (ids : List String) (cpus : ℤ)
    → (reserve_nodes r job_id ids cpus).1 ≡ ok tt
    → ¬ In k ids
    → lookup k (reserve_nodes r job_id ids cpus).0.nodes ≡ lookup k r.nodes
reserve_others r job_id k ids cpus h i =
    ap (λ o. lookup k o.0.nodes)
      (reserve_granted r job_id ids cpus ((reserve_ok_iff r job_id ids cpus).0 h))
    ∙ lookup-take_nodes_ne r job_id k ids cpus i

-- A reservation that is refused changes nothing.
pub reserve_error_unchanged :
    (r : Registry) (job_id : String) (ids : List String) (cpus : ℤ) {e : ReserveError}
    → (reserve_nodes r job_id ids cpus).1 ≡ err e
    → (reserve_nodes r job_id ids cpus).0 ≡ r
unfolding reserve_nodes
reserve_error_unchanged r job_id ids cpus h = ground arith

pub reserve_nodes-Inv :
    (r : Registry) (job_id : String) (ids : List String) (cpus : ℤ)
    → Inv r
    → Distinct ids
    → Inv (reserve_nodes r job_id ids cpus).0
reserve_nodes-Inv r job_id ids cpus v d = elim (reserve_cases r job_id ids cpus) [
  | inl (c, e) ↦
      let g = check_request-Grantable r job_id ids cpus c in
      rw e (take_nodes-Inv r job_id ids cpus v d g.some_cpu g.free)
  | inr (x, e) ↦ rw e v
]

-- To release what was just reserved gives back every node as it was.
pub release-reserve :
    (r : Registry) (job_id : String) (ids : List String) (cpus : ℤ)
    → Inv r
    → Distinct ids
    → (reserve_nodes r job_id ids cpus).1 ≡ ok tt
    → (k : String)
    → lookup k (release_nodes (reserve_nodes r job_id ids cpus).0 ids cpus).nodes ≡ lookup k r.nodes
release-reserve r job_id ids cpus v d h k =
    rw (reserve_granted r job_id ids cpus g) (elim (dec_In k ids) [
      | yes i ↦
          let (n, e, f) = g.free k i in
          lookup-release_nodes (take_nodes r job_id ids cpus) k ids cpus (taken n job_id cpus) d i
            (lookup-take_nodes r job_id k ids cpus n d i e)
          ∙ ap some (freed-taken k job_id n cpus (v.sound k n e) f g.some_cpu)
          ∙ sym e
      | no i ↦
          lookup-release_nodes_ne (take_nodes r job_id ids cpus) k ids cpus i
          ∙ lookup-take_nodes_ne r job_id k ids cpus i
    ])
  where
    g : Grantable r job_id ids cpus
    g = (reserve_ok_iff r job_id ids cpus).0 h
