-- ===== src/Scheduling/Gang.antt =====
-- `SelectGang` of internal/scheduler/resources.go against its specification, and its fit with
-- `ReserveNodes`.
use native.Mathlib.Decide.{dec_le}
use slurmlite.Cluster.Gangs.{reserve_ok_iff}
use slurmlite.Cluster.Invariant.{Inv}
use slurmlite.Cluster.Invariant.Gangs.{IsFree, AllFree}
use slurmlite.Cluster.Listing.{ids_of, list_nodes_found, list_nodes-Distinct}
use slurmlite.Cluster.Registry.{Node, Registry, list_nodes}
use slurmlite.Cluster.Reservations.{reserve_nodes}
use slurmlite.Jobs.Model.{ResourceRequest}
use slurmlite.Scheduling.Resources.{can_satisfy, node_fits, gang_from, select_gang}
use mathlib.Core.List.{append_assoc}
use slurmlite.Prelude.{
  ℤ, pos, pos_part, lookup, ok, ite, true, if◌then◌else◌, Bool-cases, if_ind, String, List, [], ◌∷◌,
  ◌++◌, length, Option, none, some, ◌≡◌, ◌≢◌, sym, ap, ◌∙◌, inl, inr, ◌↔◌, ℕ, zero, suc, ◌+◌, ◌-◌,
  ◌≤◌, arith, In, Distinct, All, length-append, take, length-take, In-take, take-Distinct, ◌≤ℤ◌,
}

-- The ids of the nodes that fit, in the order of the list.
unfoldable pub fitting : List Node → ℤ → List String
fitting [] cpus = []
fitting (n ∷ ns) cpus = let rest = fitting ns cpus in if node_fits n cpus then n.id ∷ rest else rest

-- The first `k` ids, if there are so many.
abbrev pub first_ids : ℕ → List String → Option (List String)
first_ids k ids = ite (dec_le k (length ids)) (some (take k ids)) none

abbrev after : List String → Option (List String) → Option (List String)
after ids none = none
after ids (some rest) = some (ids ++ rest)

pub record IsRequest (req : ResourceRequest) : Type 0 where
  pub some_node : pos 1 ≤ℤ req.nodes_required
  pub some_cpu : pos 1 ≤ℤ req.cpus_per_node

gang_from_lem :
    (nodes : List Node) (req : ResourceRequest) (ids : List String) (k : ℕ)
    → req.nodes_required ≡ pos (length ids + suc k)
    → gang_from nodes req ids ≡ after ids (first_ids (suc k) (fitting nodes req.cpus_per_node))
unfolding gang_from fitting
gang_from_lem [] req ids k h = ground arith
gang_from_lem (n ∷ nodes) req ids zero h =
    ground (arith, length-append ids (n.id ∷ []), gang_from_lem nodes req ids zero)
gang_from_lem (n ∷ nodes) req ids (suc k) h = ground (
  arith,
  length-append ids (n.id ∷ []),
  gang_from_lem nodes req ids (suc k),
  gang_from_lem nodes req (ids ++ n.id ∷ []) k,
  append_assoc ids (n.id ∷ []) (take (suc k) (fitting nodes req.cpus_per_node)),
)

select_gang_lem :
    (nodes : List Node) (req : ResourceRequest)
    → IsRequest req
    → select_gang nodes req
      ≡ first_ids (pos_part req.nodes_required) (fitting nodes req.cpus_per_node)
unfolding select_gang
select_gang_lem nodes req q =
    let k : ℕ = pos_part req.nodes_required - 1 in
    let e : req.nodes_required ≡ pos (suc k) = ground (arith, q.some_node) in
    let e' : pos_part req.nodes_required ≡ suc k = omega (arith, q.some_node) in
    rw e' (ground (arith, q.some_node, q.some_cpu, gang_from_lem nodes req [] k))

not-IsRequest-select_gang :
    (nodes : List Node) (req : ResourceRequest) {ids : List String}
    → select_gang nodes req ≡ some ids
    → IsRequest req
unfolding select_gang
not-IsRequest-select_gang nodes req h = ground arith

-- For a well-formed request, `SelectGang` picks the first nodes that fit, as many as the job needs, or
-- none if they are fewer, and `CanSatisfy` says whether there are enough.
pub select_gang-can_satisfy :
    (nodes : List Node) (req : ResourceRequest)
    → IsRequest req
    → (select_gang nodes req
        ≡ first_ids (pos_part req.nodes_required) (fitting nodes req.cpus_per_node))
      × ((can_satisfy nodes req ≡ true)
          ↔ (pos_part req.nodes_required ≤ length (fitting nodes req.cpus_per_node)))
unfolding can_satisfy
select_gang-can_satisfy nodes req q = (
  select_gang_lem nodes req q,
  rw (select_gang_lem nodes req q) (
      ground (
        arith,
        q.some_node,
        length-take (pos_part req.nodes_required) (fitting nodes req.cpus_per_node),
      )),
)

-- A node fits exactly when a reservation of it would be granted.
pub node_fits_iff :
    (n : Node) (cpus : ℤ) → pos 1 ≤ℤ cpus → (node_fits n cpus ≡ true) ↔ IsFree n cpus
unfolding node_fits
node_fits_iff n cpus c = (
  λ h. record {
    is_online = ground (arith, h);
    idle = ground (arith, h);
    enough = ground (arith, h);
  },
  λ f. ground (arith, f.is_online, f.idle, f.enough),
)

In-fitting :
    (r : Registry) (k : String) (nodes : List Node) (cpus : ℤ)
    → All (λ n. lookup n.id r.nodes ≡ some n) nodes
    → In k (fitting nodes cpus)
    → (n : Node) × (lookup k r.nodes ≡ some n) × (node_fits n cpus ≡ true)
unfolding fitting
In-fitting r k [] cpus a i = absurd i
In-fitting r k (n ∷ ns) cpus a i = elim (Bool-cases (node_fits n cpus)) [
  | inl f ↦ elim (rw f at i) [
    | inl e ↦ (n, ap (λ x. lookup x r.nodes) (sym e) ∙ a.0, f)
    | inr j ↦ In-fitting r k ns cpus a.1 j
  ]
  | inr f ↦ In-fitting r k ns cpus a.1 (rw f at i)
]

In-fitting_ids :
    (k : String) (nodes : List Node) (cpus : ℤ) → In k (fitting nodes cpus) → In k (ids_of nodes)
unfolding fitting
In-fitting_ids k [] cpus i = i
In-fitting_ids k (n ∷ ns) cpus i = ground (arith, In-fitting_ids k ns cpus)

fitting-Distinct :
    (nodes : List Node) (cpus : ℤ) → Distinct (ids_of nodes) → Distinct (fitting nodes cpus)
unfolding fitting
fitting-Distinct [] cpus d = tt
fitting-Distinct (n ∷ ns) cpus d =
    if_ind Distinct (node_fits n cpus)
      (λ _. ((λ i. d.0 (In-fitting_ids n.id ns cpus i)), fitting-Distinct ns cpus d.1))
      (λ _. fitting-Distinct ns cpus d.1)

-- What the scheduler relies on in a gang.
pub record IsGang (r : Registry) (req : ResourceRequest) (ids : List String) : Type 0 where
  pub distinct : Distinct ids
  pub exact : pos (length ids) ≡ req.nodes_required
  pub some_node : ids ≢ []
  pub some_cpu : pos 1 ≤ℤ req.cpus_per_node
  pub free : AllFree r ids req.cpus_per_node

-- A gang chosen from the registry's own list has exactly the number of nodes asked for, all
-- different, and each of them is registered, online, idle and has the CPUs.
pub select_gang-IsGang :
    (r : Registry) (req : ResourceRequest) (ids : List String)
    → Inv r
    → select_gang (list_nodes r) req ≡ some ids
    → IsGang r req ids
select_gang-IsGang r req ids v h = record {
  distinct = rw e (
      take-Distinct k fit
        (fitting-Distinct (list_nodes r) req.cpus_per_node (list_nodes-Distinct r v)));
  exact = rw e (ground (arith, length-take k fit l, q.some_node));
  some_node = λ x.
      ground (arith, length-take k fit l, q.some_node, e, ap (λ (y : List String). length y) x);
  some_cpu = q.some_cpu;
  free = λ j i.
      let (n, f, g) =
        In-fitting r j (list_nodes r) req.cpus_per_node (list_nodes_found r v)
          (In-take k j fit (rw e at i)) in
      (n, f, (node_fits_iff n req.cpus_per_node q.some_cpu).0 g);
}
  where
    q : IsRequest req
    q = not-IsRequest-select_gang (list_nodes r) req {ids = ids} h

    k : ℕ
    k = pos_part req.nodes_required

    fit : List String
    fit = fitting (list_nodes r) req.cpus_per_node

    both : (k ≤ length fit) × (ids ≡ take k fit)
    both = ground (arith, select_gang_lem (list_nodes r) req q, h)

    l : k ≤ length fit
    l = both.0

    e : ids ≡ take k fit
    e = both.1

-- So the reservation that follows the choice is granted.
pub select_gang_reservable :
    (r : Registry) (req : ResourceRequest) (job_id : String) (ids : List String)
    → Inv r
    → job_id ≢ ""
    → select_gang (list_nodes r) req ≡ some ids
    → (reserve_nodes r job_id ids req.cpus_per_node).1 ≡ ok tt
select_gang_reservable r req job_id ids v n h =
    let g = select_gang-IsGang r req ids v h in
    (reserve_ok_iff r job_id ids req.cpus_per_node).1
      (record { named = n; some_node = g.some_node; some_cpu = g.some_cpu; free = g.free })
