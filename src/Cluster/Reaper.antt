-- ===== src/Cluster/Reaper.antt =====
-- internal/cluster/reaper.go: what is done about dead nodes. The interface `JobFailure` is a record
-- with the state of its implementation; internal/controller/hub.go implements it (`Failer`).
use slurmlite.Cluster.Registry.{Node, Registry}
use slurmlite.Cluster.Reservations.{release_nodes}
use Prim.Native.String.{◌++◌ as text_append}
use slurmlite.Prelude.{
  ℤ, Time, dec_string, ite, Bool, true, false, if◌then◌else◌, String, List, [], ◌∷◌, Option, none,
  some,
}

-- `fail_running_job` returns the assignment and the CPUs to release, or none where `ok` is false.
pub record JobFailure : Type 1 where
  pub State : Type 0
  pub fail_running_job : State → String → String → Time → State × Option (List String × ℤ)

-- `fmt.Sprintf("node %s lost", n.ID)`.
unfoldable pub lost_reason : Node → String
lost_reason n = text_append "node " (text_append n.id " lost")

unfoldable pub was_seen : List String → String → Bool
was_seen [] id = false
was_seen (x ∷ xs) id = ite (dec_string x id) true (was_seen xs id)

module _ (f : JobFailure) where
  -- The body of the loop for a node whose job is met for the first time.
  unfoldable pub handle_node : Registry → Option f.State → Node → Time → Registry × Option f.State
  handle_node r none n now = (release_nodes r (n.id ∷ []) n.allocated_cpus, none)
  handle_node r (some s) n now =
      let (s', failed) = f.fail_running_job s n.current_job_id (lost_reason n) now in
      elim failed [
        | some (ids, cpus) ↦ (release_nodes r ids cpus, some s')
        | none ↦ (release_nodes r (n.id ∷ []) n.allocated_cpus, some s')
      ]

  -- The loop; `seen` is the set of the jobs met so far.
  unfoldable pub handle_from :
      List String → Registry → Option f.State → List Node → Time → Registry × Option f.State
  unfolding was_seen
  handle_from seen r s [] now = (r, s)
  handle_from seen r s (n ∷ dead) now =
      ite (dec_string n.current_job_id "") (handle_from seen r s dead now) (
        if was_seen seen n.current_job_id
        then handle_from seen r s dead now
        else (let (r', s') = handle_node r s n now in
            handle_from (n.current_job_id ∷ seen) r' s' dead now))

  unfoldable pub handle_dead_nodes :
      Registry → Option f.State → List Node → Time → Registry × Option f.State
  unfolding handle_from
  handle_dead_nodes r s dead now = handle_from [] r s dead now
