-- ===== src/Scheduling/Resources.antt =====
-- internal/scheduler/resources.go. A nil slice of ids is `none`.
use slurmlite.Cluster.Registry.{Node, NodeStatus-discrete, online}
use slurmlite.Jobs.Model.{ResourceRequest}
use slurmlite.Prelude.{
  ℤ, pos, ltb_ℤ, leb_ℤ, eqb_ℤ, dec_string, ite, Bool, false, ◌||◌, if◌then◌else◌, String, List, [],
  ◌∷◌, ◌++◌, length, Option, none, some, ℕ, ◌-ℤ◌, wrap64,
}

unfoldable pub free_cpus : Node → ℤ
free_cpus n =
    let free = wrap64 (n.total_cpus -ℤ n.allocated_cpus) in
    if ltb_ℤ free (pos 0) then pos 0 else free

unfoldable pub node_fits : Node → ℤ → Bool
unfolding free_cpus
node_fits n cpus_per_node =
    ite (NodeStatus-discrete n.status online)
      (ite (dec_string n.current_job_id "") (leb_ℤ cpus_per_node (free_cpus n)) false) false

-- The loop of `SelectGang`; `ids` are those chosen so far.
unfoldable pub gang_from : List Node → ResourceRequest → List String → Option (List String)
gang_from [] req ids = none
gang_from (n ∷ nodes) req ids =
    let skip = gang_from nodes req ids in
    let ids' = ids ++ n.id ∷ [] in
    let next = gang_from nodes req ids' in
    if node_fits n req.cpus_per_node
    then (if eqb_ℤ (pos (length ids')) req.nodes_required then some ids' else next)
    else skip

unfoldable pub select_gang : List Node → ResourceRequest → Option (List String)
select_gang nodes req =
    if ltb_ℤ req.nodes_required (pos 1) || ltb_ℤ req.cpus_per_node (pos 1)
    then none
    else gang_from nodes req []

-- The length of a slice that may be nil.
abbrev len_or_nil : Option (List String) → ℕ
len_or_nil none = 0
len_or_nil (some ids) = length ids

unfoldable pub can_satisfy : List Node → ResourceRequest → Bool
can_satisfy nodes req = eqb_ℤ (pos (len_or_nil (select_gang nodes req))) req.nodes_required
