-- ===== src/Scheduling/PlacedTests.antt =====
-- Runs of a scheduling step on two nodes and one job, and the theorems at them.
use slurmlite.Cluster.Invariant as Registered
use slurmlite.Cluster.Invariant.{IsOffer, make-Inv, register_node-Inv}
use slurmlite.Cluster.Registry.{
  Node, NodeStatus-discrete, online, Registry, make, registered, register_node, id_less,
  insert_sorted, sorted_nodes, list_nodes,
}
use slurmlite.Cluster.Reservations.{
  reserve_nodes, release_nodes, check_request, check_nodes, check_node, take_nodes, taken, freed,
}
use slurmlite.Jobs.Changes as Changes
use slurmlite.Jobs.Effects.{Call, submits, step, run}
use slurmlite.Jobs.Invariant.Kept.{run-Inv}
use slurmlite.Jobs.Manager as Manager
use slurmlite.Jobs.Manager.{JobManager, peek_pending, peek_pending_job, clone_job, first, submit}
use slurmlite.Jobs.Model as Model
use slurmlite.Jobs.Model.{Job, Spec, Status-discrete, pending}
use slurmlite.Scheduling.AllOrNothing.{SameNodes, try_schedule_all_or_nothing}
use slurmlite.Scheduling.Placed.{Placed, try_schedule_places}
use slurmlite.Scheduling.Dispatch.{Dispatcher, dispatch_from, dispatch_work}
use slurmlite.Scheduling.Progress.{try_schedule_progress}
use slurmlite.Scheduling.Resources.{free_cpus, node_fits, gang_from, select_gang}
use slurmlite.Scheduling.Schedule.{Scheduler, send_out, start_gang, place_gang, try_schedule}
use native.Mathlib.Decide.{dec_le}
use text.Mathlib.TextEquality.{eq_iff}
use slurmlite.Controller.Hub.{new_hub}
use slurmlite.Controller.Wiring.{hub_dispatcher, hub_schedule_progress}
use slurmlite.Protocol.{WellKnown}
use slurmlite.Prelude.{
  Duration, ℤ, pos, Time, lookup, insert, delete, dec_string, ite, true, false, String, List, [],
  ◌∷◌, none, some, ◌≡◌, ◌≢◌, refl, ℕ, ◌+◌, arith, ◌+ℤ◌, ◌-ℤ◌, wrap_at,
}

opened : Unit {0}
unfolding make registered register_node id_less insert_sorted sorted_nodes list_nodes reserve_nodes
    release_nodes check_request check_nodes check_node take_nodes taken freed node_fits free_cpus
    gang_from select_gang lookup insert delete dec_string NodeStatus-discrete ◌-ℤ◌ ◌+ℤ◌ wrap_at
    dec_le try_schedule place_gang start_gang send_out dispatch_work dispatch_from peek_pending_job
    peek_pending first clone_job Changes.mark_running Changes.mark_failed Model.mark_running
    Model.mark_failed Model.transition Model.can_transition submit step run Manager.remove_first
    Status-discrete Manager.copy_into Manager.make
opened = tt

-- A dispatcher that counts what it takes, and one that refuses what is sent to n2.
abbrev counting : Dispatcher
counting = record { Mailbox = ℕ; dispatch = λ s id a. (s + 1, none) }

abbrev half_refusing : Dispatcher
half_refusing = record {
  Mailbox = ℕ;
  dispatch = λ s id a. ite (dec_string id "n2") (s, some "mailbox gone") (s + 1, none);
}

abbrev offer : String → ℤ → Node
offer id cpus = record {
  id = id;
  hostname = id;
  address = "";
  status = online;
  total_cpus = cpus;
  allocated_cpus = pos 0;
  last_heartbeat = 0;
  current_job_id = "";
}

two_offers : Registry
two_offers = register_node (register_node make (offer "n2" (pos 4)) 5) (offer "n1" (pos 4)) 6

two_offers-Inv : Registered.Inv two_offers
unfolding two_offers
two_offers-Inv =
    register_node-Inv (register_node make (offer "n2" (pos 4)) 5) (offer "n1" (pos 4)) 6
      (register_node-Inv make (offer "n2" (pos 4)) 5 make-Inv four_cpus) four_cpus
  where
    four_cpus : {id : String} → IsOffer (offer id (pos 4))
    four_cpus = record { total = omega arith; allocated = omega arith }

abbrev waiting_job : Job
waiting_job = record {
  id = "job-1";
  status = pending;
  spec = record {
    resources = record { nodes_required = pos 2; cpus_per_node = pos 3; max_duration = pos 0 };
    command = "/bin/echo";
    args = [];
    env = [];
  };
  assigned_node_ids = [];
  submitted_at = 10;
  started_at = 0;
  finished_at = 0;
  exit_code = pos 0;
  error_message = "";
}

abbrev one_submitted : List (Time × Call)
one_submitted = (10, submits (some waiting_job)) ∷ []

ready : (d : Dispatcher) → d.Mailbox → Scheduler d
ready d s = record {
  job_manager = run Manager.make one_submitted;
  registry = two_offers;
  dispatch = some s;
}

refused : (try_schedule half_refusing (ready half_refusing 0) 20).1 ≡ false
unfolding opened ready two_offers
refused = refl

-- The first assignment was sent, the second was not, and no node is held.
try_schedule_all_or_nothing_example :
    SameNodes (try_schedule half_refusing (ready half_refusing 0) 20).0.registry two_offers
unfolding ready
try_schedule_all_or_nothing_example =
    try_schedule_all_or_nothing half_refusing (ready half_refusing 0) 20 two_offers-Inv refused

placed : (try_schedule counting (ready counting 0) 20).1 ≡ true
unfolding opened ready two_offers
placed = refl

try_schedule_places_example :
    (j : Job) × (ids : List String) × Placed
      (ready counting 0)
      (try_schedule counting (ready counting 0) 20).0
      20
      j
      ids
unfolding ready
try_schedule_places_example =
    try_schedule_places counting (ready counting 0) 20 two_offers-Inv (run-Inv one_submitted) placed

head_named : peek_pending (ready counting 0).job_manager ≡ some "job-1"
unfolding opened ready
head_named = refl

head_stored : lookup "job-1" (ready counting 0).job_manager.jobs ≡ some waiting_job
unfolding opened ready
head_stored = refl

gang_found :
    select_gang (list_nodes two_offers) waiting_job.spec.resources ≡ some ("n1" ∷ "n2" ∷ [])
unfolding opened two_offers
gang_found = refl

named : ◌≢◌ {A = String} "job-1" ""
named e = ground (arith, eq_iff "job-1" "")

try_schedule_progress_example : (try_schedule counting (ready counting 0) 20).1 ≡ true
unfolding ready
try_schedule_progress_example =
    try_schedule_progress counting (ready counting 0) 20 "job-1" waiting_job ("n1" ∷ "n2" ∷ [])
      two_offers-Inv (run-Inv one_submitted) head_named named head_stored gang_found
      (λ id i s a. refl)

hub_head_named : peek_pending (run Manager.make one_submitted) ≡ some "job-1"
unfolding opened
hub_head_named = refl

hub_head_stored : lookup "job-1" (run Manager.make one_submitted).jobs ≡ some waiting_job
unfolding opened
hub_head_stored = refl

abbrev plain : WellKnown
plain = record {
  DurationMessage = Duration;
  Timestamp = Time;
  new_duration = λ d. d;
  as_duration = λ d. d;
  new_timestamp = λ t. t;
}

hub_schedule_progress_example :
    (try_schedule (hub_dispatcher plain) (ready (hub_dispatcher plain) new_hub) 20).1 ≡ true
unfolding ready
hub_schedule_progress_example =
    hub_schedule_progress plain (ready (hub_dispatcher plain) new_hub) 20 "job-1" waiting_job
      ("n1" ∷ "n2" ∷ []) two_offers-Inv (run-Inv one_submitted) hub_head_named named hub_head_stored
      gang_found
