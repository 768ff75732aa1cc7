-- ===== src/Cluster/Registry.antt =====
-- internal/cluster/registry.go. Every method takes the registry's lock for its whole body.
-- `time.Now()` is the argument `now`; `int` wraps at 64 bits.
use text.Mathlib.Text.{is_lt}
use Prim.Native.String.{compare}
use slurmlite.Prelude.{
  ℤ, pos, leb_ℤ, Time, Duration, zero_time, is_zero, sub_time, eqb_ℤ, Map, lookup, insert,
  dec_string, ite, Bool, true, false, not, if◌then◌else◌, String, List, [], ◌∷◌, Option, none, some,
}

-- A status is a text; `other` is any text that no constant names, `other ""` among them.
pub data NodeStatus : Type 0 where
  online offline : NodeStatus
  other : String → NodeStatus

unfoldable pub NodeStatus-discrete : Discrete NodeStatus
unfolding dec_string
NodeStatus-discrete = hlevel dec_string

pub record Node : Type 0 where
  pub id : String
  pub hostname : String
  pub address : String
  pub status : NodeStatus
  pub total_cpus : ℤ
  pub allocated_cpus : ℤ
  pub last_heartbeat : Time
  pub current_job_id : String

-- The zero value of the struct.
abbrev pub zero_node : Node
zero_node = record {
  id = "";
  hostname = "";
  address = "";
  status = other "";
  total_cpus = pos 0;
  allocated_cpus = pos 0;
  last_heartbeat = zero_time;
  current_job_id = "";
}

pub record Registry : Type 0 where
  pub nodes : Map Node

abbrev pub set_node : Registry → String → Node → Registry
set_node r id n = record { nodes = insert id n r.nodes }

unfoldable pub make : Registry
make = record { nodes = [] }

-- What a registration takes over from the node that is there.
merge_existing : Node → Node → Node
merge_existing node existing = record node {
  hostname = ite (dec_string node.hostname "") existing.hostname node.hostname;
  address = ite (dec_string node.address "") existing.address node.address;
  total_cpus = if eqb_ℤ node.total_cpus (pos 0) then existing.total_cpus else node.total_cpus;
  allocated_cpus = existing.allocated_cpus;
  current_job_id = existing.current_job_id;
}

-- The defaults of a registration.
complete_node : Node → Time → Node
complete_node node now = record node {
  status = ite (NodeStatus-discrete node.status (other "")) online node.status;
  last_heartbeat = if is_zero node.last_heartbeat then now else node.last_heartbeat;
}

unfoldable pub registered : Registry → Node → Time → Node
unfolding merge_existing complete_node
registered r node now = elim (lookup node.id r.nodes) [
  | none ↦ complete_node node now
  | some existing ↦ complete_node (merge_existing node existing) now
]

unfoldable pub register_node : Registry → Node → Time → Registry
register_node r node now =
    ite (dec_string node.id "") r (set_node r node.id (registered r node now))

unfoldable pub get : Registry → String → Option Node
get r id = lookup id r.nodes

unfoldable pub touch : Registry → String → Time → Registry × Bool
touch r node_id now =
    ite (dec_string node_id "") (r, false)
      (elim (lookup node_id r.nodes) [
        | none ↦ (r, false)
        | some n ↦ (set_node r node_id (record n { last_heartbeat = now; status = online }), true)
      ])

-- The test of the loop of `ReapStale`.
unfoldable pub is_stale : Time → Duration → Node → Bool
is_stale now timeout n =
    ite (NodeStatus-discrete n.status online) (not (leb_ℤ (sub_time now n.last_heartbeat) timeout))
      false

abbrev pub gone : Node → Node
gone n = record n { status = offline }

-- The loop of `ReapStale`: the new map, and the dead nodes in the order of the visit.
unfoldable pub reap_nodes : Time → Duration → Map Node → Map Node × List Node
reap_nodes now timeout [] = ([], [])
reap_nodes now timeout ((k, n) ∷ m) =
    let (m', dead) = reap_nodes now timeout m in
    if is_stale now timeout n then ((k, gone n) ∷ m', gone n ∷ dead) else ((k, n) ∷ m', dead)

unfoldable pub reap_stale : Registry → Time → Duration → Registry × List Node
reap_stale r now timeout =
    if leb_ℤ timeout (pos 0)
    then (r, [])
    else (let (m, dead) = reap_nodes now timeout r.nodes in (record { nodes = m }, dead))

unfoldable pub update_node : Registry → Node → Registry
update_node r node =
    ite (dec_string node.id "") r
      (elim (lookup node.id r.nodes) [ none ↦ r | some _ ↦ set_node r node.id node ])

unfoldable pub mark_node_offline : Registry → Node → Registry
mark_node_offline r node = elim (lookup node.id r.nodes) [
  | none ↦ r
  | some n ↦ set_node r node.id (gone n)
]

-- The order of `sort.Slice`.
unfoldable pub id_less : Node → Node → Bool
id_less a b = is_lt (compare a.id b.id)

-- `sort.Slice` by id.
unfoldable pub insert_sorted : Node → List Node → List Node
insert_sorted n [] = n ∷ []
insert_sorted n (x ∷ xs) =
    let rest = insert_sorted n xs in if id_less x n then x ∷ rest else n ∷ x ∷ xs

unfoldable pub sorted_nodes : Map Node → List Node
sorted_nodes [] = []
sorted_nodes ((k, n) ∷ m) = insert_sorted n (sorted_nodes m)

unfoldable pub list_nodes : Registry → List Node
list_nodes r = sorted_nodes r.nodes
