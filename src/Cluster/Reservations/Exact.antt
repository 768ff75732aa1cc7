-- ===== src/Cluster/Reservations/Exact.antt =====
-- What a reservation and a release do to each node: exactly the named nodes change, all of them
-- or none, and a release undoes a reservation.
use slurmlite.Cluster.Registry.{Node, Registry, set_node}
use slurmlite.Cluster.Reservations.{or_zero, taken, take_nodes, freed, release_nodes}
use slurmlite.Prelude.{
  ℤ, lookup, lookup-insert, lookup-insert_ne, dec_string, if_pos, Option-cases, String, List, [],
  ◌∷◌, some, ◌≡◌, refl, ap, ◌∙◌, inl, inr, In, Distinct,
}

pub lookup-take_nodes_ne :
    (r : Registry) (job_id k : String) (ids : List String) (cpus : ℤ)
    → ¬ In k ids
    → lookup k (take_nodes r job_id ids cpus).nodes ≡ lookup k r.nodes
unfolding take_nodes
lookup-take_nodes_ne r job_id k [] cpus h = refl
lookup-take_nodes_ne r job_id k (id ∷ ids) cpus h =
    lookup-take_nodes_ne (set_node r id new) job_id k ids cpus (λ i. h (inr i))
    ∙ lookup-insert_ne id k new r.nodes (λ e. h (inl e))
  where
    new : Node
    new = taken (or_zero (lookup id r.nodes)) job_id cpus

pub lookup-take_nodes :
    (r : Registry) (job_id k : String) (ids : List String) (cpus : ℤ) (n : Node)
    → Distinct ids
    → In k ids
    → lookup k r.nodes ≡ some n
    → lookup k (take_nodes r job_id ids cpus).nodes ≡ some (taken n job_id cpus)
unfolding take_nodes
lookup-take_nodes r job_id k [] cpus n d i e = absurd i
lookup-take_nodes r job_id k (id ∷ ids) cpus n d (inl p) e =
    lookup-take_nodes_ne (set_node r id new) job_id k ids cpus (λ i. d.0 (rw p i))
    ∙ lookup-insert id k new r.nodes
    ∙ if_pos (dec_string id k) p (some new) _
    ∙ ap (λ x. some (taken (or_zero x) job_id cpus)) (ap (λ x. lookup x r.nodes) p ∙ e)
  where
    new : Node
    new = taken (or_zero (lookup id r.nodes)) job_id cpus
lookup-take_nodes r job_id k (id ∷ ids) cpus n d (inr i) e =
    lookup-take_nodes (set_node r id new) job_id k ids cpus n d.1 i
      (lookup-insert_ne id k new r.nodes (λ p. d.0 (rw p i)) ∙ e)
  where
    new : Node
    new = taken (or_zero (lookup id r.nodes)) job_id cpus

pub lookup-release_nodes_ne :
    (r : Registry) (k : String) (ids : List String) (cpus : ℤ)
    → ¬ In k ids
    → lookup k (release_nodes r ids cpus).nodes ≡ lookup k r.nodes
unfolding release_nodes
lookup-release_nodes_ne r k [] cpus h = refl
lookup-release_nodes_ne r k (id ∷ ids) cpus h = elim (Option-cases (lookup id r.nodes)) [
  | inl e ↦ rw (e, release_nodes) (lookup-release_nodes_ne r k ids cpus (λ i. h (inr i)))
  | inr (n, e) ↦
      rw (e, release_nodes)
        (lookup-release_nodes_ne (set_node r id (freed n cpus)) k ids cpus (λ i. h (inr i))
          ∙ lookup-insert_ne id k (freed n cpus) r.nodes (λ p. h (inl p)))
]

pub lookup-release_nodes :
    (r : Registry) (k : String) (ids : List String) (cpus : ℤ) (n : Node)
    → Distinct ids
    → In k ids
    → lookup k r.nodes ≡ some n
    → lookup k (release_nodes r ids cpus).nodes ≡ some (freed n cpus)
unfolding release_nodes
lookup-release_nodes r k [] cpus n d i e = absurd i
lookup-release_nodes r k (id ∷ ids) cpus n d (inl p) e =
    rw (q, release_nodes)
      (lookup-release_nodes_ne (set_node r id (freed n cpus)) k ids cpus (λ i. d.0 (rw p i))
        ∙ lookup-insert id k (freed n cpus) r.nodes
        ∙ if_pos (dec_string id k) p (some (freed n cpus)) _)
  where
    q : lookup id r.nodes ≡ some n
    q = ap (λ x. lookup x r.nodes) p ∙ e
lookup-release_nodes r k (id ∷ ids) cpus n d (inr i) e = elim (Option-cases (lookup id r.nodes)) [
  | inl x ↦ rw (x, release_nodes) (lookup-release_nodes r k ids cpus n d.1 i e)
  | inr (o, x) ↦
      rw (x, release_nodes)
        (lookup-release_nodes (set_node r id (freed o cpus)) k ids cpus n d.1 i
          (lookup-insert_ne id k (freed o cpus) r.nodes (λ p. d.0 (rw p i)) ∙ e))
]
