-- ===== src/Cluster/Reservations.antt =====
-- internal/cluster/registry.go: the reservation of a gang of nodes for a job, and its release.
pub mod Exact
use slurmlite.Cluster.Registry.{
  Node, NodeStatus, NodeStatus-discrete, online, offline, zero_node, Registry, set_node,
}
use slurmlite.Prelude.{
  ℤ, pos, negsuc, pos_part, neg_part, ltb_ℤ, leb_ℤ, ltb, leb, ◌==◌, Time, Duration, zero_time,
  is_zero, sub_time, eqb_ℤ, Map, lookup, insert, delete, HasUniqueKeys, lookup-insert,
  lookup-insert_self, lookup-insert_ne, lookup-delete, delete-insert_self, lookup-insert_inv,
  insert-HasUniqueKeys, delete-HasUniqueKeys, is_blank, Result, ok, err, ◌>>=◌, ◌>>◌, fail_if,
  dec_string, ite, if_pos, if_neg, Bool, true, false, not, ◌&&◌, ◌||◌, if◌then◌else◌, Bool-cases,
  Option-cases, ite_ind, if_ind, KeysIn, Covers, length_of_KeysIn, Covers-of_length,
  length_of_Covers, String, List, [], ◌∷◌, ◌++◌, map, length, Option, none, some, ◌≡◌, ◌≢◌, refl,
  sym, ap, subst, ◌∙◌, ◌⊎◌, inl, inr, ◌↔◌, ℕ, zero, suc, ◌+◌, ◌-◌, ◌<◌, ◌≤◌, ◌^◌, arith, In,
  Distinct, All, length-append, In-append_left, In-append_right, In-append_cases, Distinct-snoc,
  ◌+ℤ◌, ◌-ℤ◌, ◌≤ℤ◌, ◌<ℤ◌, wrap64, wrap32, Fits,
}

pub data ReserveError : Type 0 where
  empty_job_id no_nodes : ReserveError
  bad_cpus : ℤ → ReserveError
  not_registered not_online : (id : String) → ReserveError
  busy : (id job_id : String) → ReserveError
  insufficient_cpus : (id : String) → ReserveError

-- The checks on one node, and the loop over them.
unfoldable pub check_node : Option Node → String → ℤ → Result ReserveError (Unit {0})
check_node none id cpus = err (not_registered id)
check_node (some n) id cpus =
    ite (NodeStatus-discrete n.status online)
      (ite (dec_string n.current_job_id "")
        (if ltb_ℤ (wrap64 (n.total_cpus -ℤ n.allocated_cpus)) cpus
          then err (insufficient_cpus id)
          else ok tt)
        (err (busy id n.current_job_id)))
      (err (not_online id))

unfoldable pub check_nodes : Registry → List String → ℤ → Result ReserveError (Unit {0})
check_nodes r [] cpus = ok tt
check_nodes r (id ∷ ids) cpus = do check_node (lookup id r.nodes) id cpus; check_nodes r ids cpus

-- A read of a missing key gives the zero value.
abbrev pub or_zero : Option Node → Node
or_zero none = zero_node
or_zero (some n) = n

unfoldable pub taken : Node → String → ℤ → Node
taken n job_id cpus = record n {
  allocated_cpus = wrap64 (n.allocated_cpus +ℤ cpus);
  current_job_id = job_id;
}

unfoldable pub take_nodes : Registry → String → List String → ℤ → Registry
take_nodes r job_id [] cpus = r
take_nodes r job_id (id ∷ ids) cpus =
    take_nodes (set_node r id (taken (or_zero (lookup id r.nodes)) job_id cpus)) job_id ids cpus

is_empty : List String → Bool
is_empty [] = true
is_empty (x ∷ xs) = false

unfoldable pub check_request : Registry → String → List String → ℤ → Result ReserveError (Unit {0})
unfolding is_empty
check_request r job_id ids cpus = do
  ite (dec_string job_id "") (err empty_job_id) (ok tt)
  fail_if (ltb_ℤ cpus (pos 1)) (bad_cpus cpus)
  fail_if (is_empty ids) no_nodes
  check_nodes r ids cpus

unfoldable pub reserve_nodes :
    Registry → String → List String → ℤ → Registry × Result ReserveError (Unit {0})
reserve_nodes r job_id ids cpus = elim (check_request r job_id ids cpus) [
  | err e ↦ (r, err e)
  | ok _ ↦ (take_nodes r job_id ids cpus, ok tt)
]

unfoldable pub freed : Node → ℤ → Node
freed n cpus =
    let left = wrap64 (n.allocated_cpus -ℤ cpus) in
    record n { allocated_cpus = if ltb_ℤ left (pos 0) then pos 0 else left; current_job_id = "" }

-- `ReleaseNodes`, whose error is always nil. Unknown ids are skipped.
unfoldable pub release_nodes : Registry → List String → ℤ → Registry
release_nodes r [] cpus = r
release_nodes r (id ∷ ids) cpus = elim (lookup id r.nodes) [
  | none ↦ release_nodes r ids cpus
  | some n ↦ release_nodes (set_node r id (freed n cpus)) ids cpus
]
