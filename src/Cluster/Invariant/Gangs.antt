-- ===== src/Cluster/Invariant/Gangs.antt =====
-- Reservations and releases keep the registry sound, and a release undoes a reservation.
use slurmlite.Cluster.Invariant.{IsCount, IsSound, Inv, set_node-Inv}
use slurmlite.Cluster.Registry.{Node, online, Registry, set_node}
use slurmlite.Cluster.Reservations.{
  check_node, check_nodes, taken, take_nodes, freed, release_nodes, not_registered,
}
use slurmlite.Prelude.{
  ℤ, pos, ltb_ℤ, lookup, lookup-insert_ne, ok, err, Option-cases, if_ind, String, List, [], ◌∷◌,
  none, some, ◌≡◌, refl, sym, ap, ◌∙◌, inl, inr, arith, In, Distinct, ◌+ℤ◌, ◌-ℤ◌, ◌≤ℤ◌, wrap64,
  wrap64_of_Fits, -ℤ_parts, int_laws, parts_disjoint,
}

-- The node can be reserved with that many CPUs.
pub record IsFree (n : Node) (cpus : ℤ) : Type 0 where
  pub is_online : n.status ≡ online
  pub idle : n.current_job_id ≡ ""
  pub enough : cpus ≤ℤ wrap64 (n.total_cpus -ℤ n.allocated_cpus)

-- All the named nodes are there and free.
abbrev pub AllFree : Registry → List String → ℤ → Type 0
AllFree r ids cpus =
    (k : String) → In k ids → (n : Node) × (lookup k r.nodes ≡ some n) × IsFree n cpus

check_node-IsFree :
    (n : Node) (id : String) (cpus : ℤ) → check_node (some n) id cpus ≡ ok tt → IsFree n cpus
unfolding check_node
check_node-IsFree n id cpus h = ground arith

pub IsFree-check_node :
    (n : Node) (id : String) (cpus : ℤ) → IsFree n cpus → check_node (some n) id cpus ≡ ok tt
unfolding check_node
IsFree-check_node n id cpus f = ground arith

check_node-none : (id : String) (cpus : ℤ) → check_node none id cpus ≡ err (not_registered id)
unfolding check_node
check_node-none id cpus = refl

pub check_nodes-AllFree :
    (r : Registry) (ids : List String) (cpus : ℤ)
    → check_nodes r ids cpus ≡ ok tt
    → AllFree r ids cpus
unfolding check_nodes
check_nodes-AllFree r [] cpus h k i = absurd i
check_nodes-AllFree r (id ∷ ids) cpus h k i = elim (Option-cases (lookup id r.nodes)) [
  | inl e ↦ absurd (missing e)
  | inr (n, e) ↦ elim i [
    | inl p ↦ (
      n,
      ap (λ x. lookup x r.nodes) (sym p) ∙ e,
      check_node-IsFree n id cpus (ground (arith, e, h)),
    )
    | inr q ↦ check_nodes-AllFree r ids cpus (ground (arith, h)) k q
  ]
]
  where
    missing : lookup id r.nodes ≡ none → ⊥
    missing e = ground (arith, e, h, check_node-none id cpus)

pub AllFree-check_nodes :
    (r : Registry) (ids : List String) (cpus : ℤ)
    → AllFree r ids cpus
    → check_nodes r ids cpus ≡ ok tt
unfolding check_nodes
AllFree-check_nodes r [] cpus f = refl
AllFree-check_nodes r (id ∷ ids) cpus f =
    let (n, e, g) = f id (inl refl) in
    rw (e, IsFree-check_node n id cpus g) (AllFree-check_nodes r ids cpus (λ k i. f k (inr i)))

room :
    (n : Node) (k : String) (cpus : ℤ)
    → IsSound k n
    → IsFree n cpus
    → cpus ≤ℤ n.total_cpus -ℤ n.allocated_cpus
room n k cpus s f =
    rw (wrap64_of_Fits (n.total_cpus -ℤ n.allocated_cpus) (omega (int_laws, s.total, s.allocated)))
      at f.enough

-- The sum in a reservation does not wrap, and stays within the node.
taken_exact :
    (n : Node) (k : String) (cpus : ℤ)
    → IsSound k n
    → IsFree n cpus
    → pos 1 ≤ℤ cpus
    → (wrap64 (n.allocated_cpus +ℤ cpus) ≡ n.allocated_cpus +ℤ cpus)
      × IsCount (n.allocated_cpus +ℤ cpus)
taken_exact n k cpus s f c = (
  wrap64_of_Fits (n.allocated_cpus +ℤ cpus)
      (omega (int_laws, room n k cpus s f, s.total, s.allocated)),
  omega (int_laws, room n k cpus s f, s.total, s.allocated),
)

pub taken_lem :
    (k job_id : String) (n : Node) (cpus : ℤ)
    → IsSound k n
    → IsFree n cpus
    → pos 1 ≤ℤ cpus
    → taken n job_id cpus
      ≡ record n { allocated_cpus = n.allocated_cpus +ℤ cpus; current_job_id = job_id }
unfolding taken
taken_lem k job_id n cpus s f c = rw (taken_exact n k cpus s f c).0 refl

taken-IsSound :
    (k job_id : String) (n : Node) (cpus : ℤ)
    → IsSound k n
    → IsFree n cpus
    → pos 1 ≤ℤ cpus
    → IsSound k (taken n job_id cpus)
unfolding taken
taken-IsSound k job_id n cpus s f c = record {
  keyed = s.keyed;
  named = s.named;
  total = s.total;
  allocated = let (e, h) = taken_exact n k cpus s f c in rw e h;
}

freed-IsSound :
    (k : String) (n : Node) (cpus : ℤ) → IsSound k n → IsCount cpus → IsSound k (freed n cpus)
unfolding freed
freed-IsSound k n cpus s c = record {
  keyed = s.keyed;
  named = s.named;
  total = s.total;
  allocated = rw (wrap64_of_Fits (n.allocated_cpus -ℤ cpus) (omega (int_laws, s.allocated))) (
      if_ind IsCount (ltb_ℤ (n.allocated_cpus -ℤ cpus) (pos 0)) (λ _. omega arith)
        (λ l. ground (
          arith,
          s.allocated,
          -ℤ_parts n.allocated_cpus cpus,
          parts_disjoint (n.allocated_cpus -ℤ cpus),
        )));
}

-- Freeing what was taken gives back the node.
pub freed-taken :
    (k job_id : String) (n : Node) (cpus : ℤ)
    → IsSound k n
    → IsFree n cpus
    → pos 1 ≤ℤ cpus
    → freed (taken n job_id cpus) cpus ≡ n
unfolding freed taken
freed-taken k job_id n cpus s f c =
    let (e, h) = taken_exact n k cpus s f c in
    let back : n.allocated_cpus +ℤ cpus -ℤ cpus ≡ n.allocated_cpus = omega int_laws in
    rw (e, back, wrap64_of_Fits n.allocated_cpus (omega (arith, s.allocated)))
      (ground (arith, s.allocated, f.idle))

pub take_nodes-Inv :
    (r : Registry) (job_id : String) (ids : List String) (cpus : ℤ)
    → Inv r
    → Distinct ids
    → pos 1 ≤ℤ cpus
    → AllFree r ids cpus
    → Inv (take_nodes r job_id ids cpus)
unfolding take_nodes
take_nodes-Inv r job_id [] cpus v d c f = v
take_nodes-Inv r job_id (id ∷ ids) cpus v d c f =
    let (n, e, g) = f id (inl refl) in
    rw e (
      take_nodes-Inv (set_node r id (taken n job_id cpus)) job_id ids cpus
        (set_node-Inv r id (taken n job_id cpus) v
          (taken-IsSound id job_id n cpus (v.sound id n e) g c))
        d.1 c
        (λ k i.
          let (o, h, q) = f k (inr i) in
          (o, lookup-insert_ne id k (taken n job_id cpus) r.nodes (λ p. d.0 (rw p i)) ∙ h, q)))

pub release_nodes-Inv :
    (r : Registry) (ids : List String) (cpus : ℤ)
    → Inv r
    → IsCount cpus
    → Inv (release_nodes r ids cpus)
unfolding release_nodes
release_nodes-Inv r [] cpus v c = v
release_nodes-Inv r (id ∷ ids) cpus v c = elim (Option-cases (lookup id r.nodes)) [
  | inl e ↦ rw (e, release_nodes) (release_nodes-Inv r ids cpus v c)
  | inr (n, e) ↦
      rw (e, release_nodes)
        (release_nodes-Inv (set_node r id (freed n cpus)) ids cpus
          (set_node-Inv r id (freed n cpus) v (freed-IsSound id n cpus (v.sound id n e) c)) c)
]
