-- ===== src/System/Invariant.antt =====
-- What holds of the controller as a whole between two of its steps.
use slurmlite.Cluster.Invariant as Registered
use slurmlite.Cluster.Invariant.Gangs.{release_nodes-Inv}
use slurmlite.Cluster.Registry.{Registry}
use slurmlite.Cluster.Reservations.{release_nodes}
use slurmlite.Controller.Server.{Server}
use slurmlite.Controller.Service as Service
use slurmlite.Jobs.Effects.{IsFinal}
use slurmlite.Jobs.Model.{Job, Status, running}
use slurmlite.Jobs.Outcomes.{Ended}
use slurmlite.Protocol.{WellKnown}
use slurmlite.System.Assignment.{ends-Coupled}
use slurmlite.System.Coupling.{Coupled}
use slurmlite.Prelude.{Map, String, ◌≢◌, sym, subst, inl, inr, arith}

-- The invariants of the parts, and that jobs and nodes belong together.
pub record Inv {w : WellKnown} (s : Server w) : Type 0 where
  pub service : Service.Inv s
  pub registry : Registered.Inv s.registry
  pub coupled : Coupled s.jobs.jobs s.registry.nodes

pub IsFinal-not_running : (s : Status) → IsFinal s → s ≢ running
IsFinal-not_running s (inl e) r = ground (arith, e, r)
IsFinal-not_running s (inr (inl e)) r = ground (arith, e, r)
IsFinal-not_running s (inr (inr e)) r = ground (arith, e, r)

-- The end of a job and the release of its nodes.
pub released-Coupled :
    {id : String} {jobs jobs' : Map Job} (r : Registry)
    → Coupled jobs r.nodes
    → (x : Ended id jobs jobs')
    → Coupled jobs'
        (release_nodes r x.old.assigned_node_ids x.old.spec.resources.cpus_per_node).nodes
released-Coupled {id} {jobs} {jobs'} r v x =
    subst
      (λ y.
        Coupled y
          (release_nodes r x.old.assigned_node_ids x.old.spec.resources.cpus_per_node).nodes)
      (sym x.becomes)
      (ends-Coupled jobs r id x.old x.new v x.stored x.was_running x.same_spec
        (IsFinal-not_running x.new.status x.final))

pub released-Inv :
    {id : String} {jobs jobs' : Map Job} (r : Registry)
    → Registered.Inv r
    → Coupled jobs r.nodes
    → (x : Ended id jobs jobs')
    → Registered.Inv (release_nodes r x.old.assigned_node_ids x.old.spec.resources.cpus_per_node)
released-Inv {id} r u v x =
    release_nodes-Inv r x.old.assigned_node_ids x.old.spec.resources.cpus_per_node u
      (v.sized id x.old x.stored)
