-- ===== src/Scheduling/Dispatch.antt =====
-- internal/scheduler/scheduler.go: what is sent to the nodes of a gang. The dispatcher is an
-- interface of the scheduler; internal/controller/hub.go implements it.
use slurmlite.Jobs.Manager.{copy_into}
use slurmlite.Jobs.Model.{Job}
use slurmlite.Prelude.{
  ℤ, pos, Duration, Map, insert, itoa, String, List, [], ◌∷◌, ◌++◌, length, Option, none, some, ℕ,
  ◌+◌,
}

pub record Assignment : Type 0 where
  pub job_id : String
  pub command : String
  pub args : List String
  pub env : Map String
  pub max_duration : Duration
  pub node_rank : ℤ
  pub n_nodes : ℤ
  pub cpus_per_node : ℤ

-- A dispatcher with its state. `dispatch` returns the text of the error, if there is one.
pub record Dispatcher : Type 1 where
  pub Mailbox : Type 0
  pub dispatch : Mailbox → String → Assignment → Mailbox × Option String

unfoldable pub assignment_env : Job → ℤ → ℤ → Map String
assignment_env j rank n_nodes =
    insert "SLURMLITE_CPUS_PER_NODE" (itoa j.spec.resources.cpus_per_node) (
      insert "SLURMLITE_NNODES" (itoa n_nodes) (
        insert "SLURMLITE_NODE_RANK" (itoa rank)
          (insert "SLURMLITE_JOB_ID" j.id (copy_into [] j.spec.env))))

unfoldable pub assignment_for : Job → ℤ → ℤ → Assignment
assignment_for j rank n_nodes = record {
  job_id = j.id;
  command = j.spec.command;
  args = [] ++ j.spec.args;
  env = assignment_env j rank n_nodes;
  max_duration = j.spec.resources.max_duration;
  node_rank = rank;
  n_nodes = n_nodes;
  cpus_per_node = j.spec.resources.cpus_per_node;
}

module _ (d : Dispatcher) where
  -- The loop of `dispatchWork`, from the rank `rank` on.
  unfoldable pub dispatch_from : d.Mailbox → Job → ℕ → ℕ → List String → d.Mailbox × Option String
  dispatch_from s j n_nodes rank [] = (s, none)
  dispatch_from s j n_nodes rank (id ∷ ids) =
      let (s', e) = d.dispatch s id (assignment_for j (pos rank) (pos n_nodes)) in
      elim e [ some text ↦ (s', some text) | none ↦ dispatch_from s' j n_nodes (rank + 1) ids ]

  -- With no dispatcher nothing is sent.
  unfoldable pub dispatch_work :
      Option d.Mailbox → Job → List String → Option d.Mailbox × Option String
  dispatch_work none j ids = (none, none)
  dispatch_work (some s) j ids = let (s', e) = dispatch_from s j (length ids) 0 ids in (some s', e)
