-- ===== src/Scheduling/Tests.antt =====
-- Runs of the registry and of the gang selection on small inputs, and the theorems at them.
use slurmlite.Cluster.Gangs.{Grantable, reserve_ok_iff, reserve_exact, reserved, release-reserve}
use slurmlite.Cluster.Invariant.{Inv, IsOffer, make-Inv, register_node-Inv}
use slurmlite.Cluster.Registry.{
  Node, NodeStatus-discrete, online, Registry, make, registered, register_node, id_less,
  insert_sorted, sorted_nodes, list_nodes,
}
use slurmlite.Cluster.Reservations.{
  reserve_nodes, release_nodes, check_request, check_nodes, check_node, take_nodes, taken, freed,
}
use slurmlite.Jobs.Model.{ResourceRequest}
use slurmlite.Scheduling.Gang.{
  fitting, first_ids, IsRequest, select_gang-can_satisfy, IsGang, select_gang-IsGang,
  select_gang_reservable,
}
use slurmlite.Scheduling.Resources.{free_cpus, node_fits, gang_from, select_gang, can_satisfy}
use native.Mathlib.Decide.{dec_le}
use text.Mathlib.TextEquality.{eq_iff}
use slurmlite.Prelude.{
  true, length, ◌≤◌, ℤ, pos, wrap_at, lookup, insert, ok, dec_string, String, [], ◌∷◌, some, ◌≡◌,
  ◌≢◌, refl, ◌↔◌, arith, Distinct, ◌+ℤ◌, ◌-ℤ◌,
}

opened : Unit {0}
unfolding make registered register_node id_less insert_sorted sorted_nodes list_nodes reserve_nodes
    release_nodes check_request check_nodes check_node take_nodes taken freed node_fits free_cpus
    gang_from select_gang can_satisfy lookup insert dec_string NodeStatus-discrete ◌-ℤ◌ ◌+ℤ◌ wrap_at
    fitting dec_le
opened = tt

abbrev offer : String → ℤ → Node
offer id cpus = record {
  id = id;
  hostname = id;
  address = "";
  status = online;
  total_cpus = cpus;
  allocated_cpus = pos 0;
  last_heartbeat = 0;
  current_job_id = "";
}

-- Two nodes of four CPUs, registered in the order n2, n1.
pair : Registry
pair = register_node (register_node make (offer "n2" (pos 4)) 5) (offer "n1" (pos 4)) 6

four_cpus : (id : String) → IsOffer (offer id (pos 4))
four_cpus id = record { total = omega arith; allocated = omega arith }

pair-Inv : Inv pair
unfolding pair
pair-Inv =
    register_node-Inv (register_node make (offer "n2" (pos 4)) 5) (offer "n1" (pos 4)) 6
      (register_node-Inv make (offer "n2" (pos 4)) 5 make-Inv (four_cpus "n2")) (four_cpus "n1")

abbrev two_nodes : ResourceRequest
two_nodes = record { nodes_required = pos 2; cpus_per_node = pos 3; max_duration = pos 0 }

two_nodes-IsRequest : IsRequest two_nodes
two_nodes-IsRequest = record { some_node = omega arith; some_cpu = omega arith }

gang_chosen : select_gang (list_nodes pair) two_nodes ≡ some ("n1" ∷ "n2" ∷ [])
unfolding opened pair
gang_chosen = refl

select_gang-can_satisfy_example :
    (select_gang (list_nodes pair) two_nodes ≡ first_ids 2 (fitting (list_nodes pair) (pos 3)))
    × ((can_satisfy (list_nodes pair) two_nodes ≡ true)
        ↔ (2 ≤ length (fitting (list_nodes pair) (pos 3))))
select_gang-can_satisfy_example =
    select_gang-can_satisfy (list_nodes pair) two_nodes two_nodes-IsRequest

select_gang-IsGang_example : IsGang pair two_nodes ("n1" ∷ "n2" ∷ [])
select_gang-IsGang_example =
    select_gang-IsGang pair two_nodes ("n1" ∷ "n2" ∷ []) pair-Inv gang_chosen

job_named : ◌≢◌ {A = String} "job-1" ""
job_named e = ground (arith, eq_iff "job-1" "")

select_gang_reservable_example : (reserve_nodes pair "job-1" ("n1" ∷ "n2" ∷ []) (pos 3)).1 ≡ ok tt
select_gang_reservable_example =
    select_gang_reservable pair two_nodes "job-1" ("n1" ∷ "n2" ∷ []) pair-Inv job_named gang_chosen

reserve_ok_iff_example :
    ((reserve_nodes pair "job-1" ("n1" ∷ "n9" ∷ []) (pos 3)).1 ≡ ok tt)
    ↔ Grantable pair "job-1" ("n1" ∷ "n9" ∷ []) (pos 3)
reserve_ok_iff_example = reserve_ok_iff pair "job-1" ("n1" ∷ "n9" ∷ []) (pos 3)

one_node : Distinct ("n1" ∷ [])
one_node = ((λ h. h), tt)

one_reserved : (reserve_nodes pair "job-1" ("n1" ∷ []) (pos 3)).1 ≡ ok tt
unfolding opened pair
one_reserved = refl

second_found : lookup "n2" pair.nodes ≡ some (record (offer "n2" (pos 4)) { last_heartbeat = 5 })
unfolding opened pair
second_found = refl

reserve_exact_example :
    lookup "n2" (reserve_nodes pair "job-1" ("n1" ∷ []) (pos 3)).0.nodes
    ≡ some (
        reserved
          ("n1" ∷ [])
          "job-1"
          (pos 3)
          "n2"
          (record (offer "n2" (pos 4)) { last_heartbeat = 5 }))
reserve_exact_example =
    reserve_exact pair "job-1" ("n1" ∷ []) (pos 3) pair-Inv one_node one_reserved "n2"
      (record (offer "n2" (pos 4)) { last_heartbeat = 5 }) second_found

release-reserve_example :
    lookup "n1"
      (release_nodes (reserve_nodes pair "job-1" ("n1" ∷ []) (pos 3)).0 ("n1" ∷ []) (pos 3)).nodes
    ≡ lookup "n1" pair.nodes
release-reserve_example =
    release-reserve pair "job-1" ("n1" ∷ []) (pos 3) pair-Inv one_node one_reserved "n1"
