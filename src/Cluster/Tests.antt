-- ===== src/Cluster/Tests.antt =====
-- Runs of the monitor and of the handling of dead nodes, and the theorems at them.
use slurmlite.Cluster.Lost.{lost_jobs, job_ids, fail_each, handle_dead_nodes-jobs}
use slurmlite.Cluster.Monitor.{Monitor}
use slurmlite.Cluster.Reaper.{JobFailure, handle_dead_nodes}
use slurmlite.Cluster.Registry.{Node, online, Registry}
use slurmlite.Prelude.{pos, String, List, [], ◌∷◌, some, ◌≡◌, ◌≢◌, Distinct, In}

-- Jobs that are only the ids that were failed, the last first.
abbrev noting : JobFailure
noting = record {
  State = List String;
  fail_running_job = λ s id reason now. (id ∷ s, some ("n1" ∷ "n2" ∷ [], pos 1));
}

abbrev busy_node : String → Node
busy_node id = record {
  id = id;
  hostname = id;
  address = "";
  status = online;
  total_cpus = pos 4;
  allocated_cpus = pos 1;
  last_heartbeat = 5;
  current_job_id = "job-1";
}

abbrev two_busy : Registry
two_busy = record { nodes = ("n1", busy_node "n1") ∷ ("n2", busy_node "n2") ∷ [] }

abbrev both : List Node
both = busy_node "n1" ∷ busy_node "n2" ∷ []

handle_dead_nodes-jobs_example :
    ((handle_dead_nodes noting two_busy (some []) both 30).1
      ≡ some (fail_each noting [] (lost_jobs [] both) 30))
    × Distinct (job_ids (lost_jobs [] both))
    × ((id : String) → id ≢ "" → In id (job_ids both) → In id (job_ids (lost_jobs [] both)))
handle_dead_nodes-jobs_example = handle_dead_nodes-jobs noting two_busy [] both 30

abbrev watching : Monitor noting
watching = record {
  registry = two_busy;
  jobs = some [];
  heartbeats = "n2" ∷ [];
  timeout = pos 10;
  interval = pos 3;
}
