-- ===== src/Agent/Tests.antt =====
-- Runs of the executor and of the merge of environments, and the theorem on its slot at an input.
use slurmlite.Agent.Executor.{waited, no_error, key_of, index_keys, set_at, merge_from, merge_env}
use slurmlite.Agent.Environment.{AreKeys, Wins, merge_env-sets}
use slurmlite.Agent.Slot.{Event, begins, ends, stops, Exclusive, happen_all, idle, slot-Exclusive}
use slurmlite.Protocol.{WellKnown, WorkAssignment}
use text.Mathlib.TextEquality.{eq_iff}
use slurmlite.Agent.Answers.{
  IsBackoff, watch_pauses-IsBackoff, RunCases, reported, handle_assignment_cases,
}
use slurmlite.Agent.Executor.{RunResult}
use slurmlite.Agent.Node.{
  Client, Streams, Config, Cancelled, Agent, second, first_backoff, next_backoff, make, watch_turn,
  watch_pauses, handle_assignment,
}
use slurmlite.Prelude.{
  Map, true, false, err, All, ◌+ℤ◌, pos, Time, Duration, lookup, insert, dec_string, String, List,
  [], ◌∷◌, none, some, ◌≡◌, ◌≢◌, refl, arith,
}

abbrev base : List String
base = "PATH=/bin" ∷ "HOME=/root" ∷ []

abbrev extra : Map String
extra = ("HOME", "/tmp") ∷ ("JOB", "1") ∷ []

merge_runs : merge_env base extra ≡ "PATH=/bin" ∷ "HOME=/tmp" ∷ "JOB=1" ∷ []
unfolding merge_env merge_from index_keys key_of set_at lookup insert dec_string
merge_runs = refl

extra-AreKeys : AreKeys extra
unfolding lookup dec_string
extra-AreKeys = (
  refl,
  (λ e. ground arith, (λ e. ground arith, (λ e. ground arith, (λ e. ground arith, tt)))),
  (refl, (λ e. ground arith, (λ e. ground arith, (λ e. ground arith, tt))), tt),
)

extra_home : lookup "HOME" extra ≡ some "/tmp"
unfolding lookup dec_string
extra_home = refl

merge_env-sets_example : Wins "HOME" "/tmp" (merge_env base extra)
merge_env-sets_example = merge_env-sets base extra "HOME" "/tmp" extra-AreKeys extra_home

abbrev plain : WellKnown
plain = record {
  DurationMessage = Duration;
  Timestamp = Time;
  new_duration = λ d. d;
  as_duration = λ d. d;
  new_timestamp = λ t. t;
}

abbrev work : String → WorkAssignment Duration
work id = record {
  job_id = id;
  command = "/bin/echo";
  args = [];
  env = [];
  max_duration = none;
  node_rank = pos 0;
  nnodes = pos 1;
  cpus_per_node = pos 1;
}

abbrev day : List (Event Duration)
day =
    begins (some (work "job-1")) 0
    ∷ begins (some (work "job-2")) 1
    ∷ stops "job-1"
    ∷ ends "job-1" 0 (waited no_error)
    ∷ begins (some (work "job-2")) 2
    ∷ []

first_named : ◌≢◌ {A = String} "job-1" ""
first_named e = ground (arith, eq_iff "job-1" "")

second_named : ◌≢◌ {A = String} "job-2" ""
second_named e = ground (arith, eq_iff "job-2" "")

slot-Exclusive_example : Exclusive (happen_all plain idle day)
slot-Exclusive_example =
    slot-Exclusive plain day (first_named, (second_named, (tt, (tt, (second_named, tt)))))

-- A client whose calls all fail.
abbrev silent : Client
silent = record {
  State = Unit {0};
  Failure = Unit {0};
  is_not_found = λ e. true;
  register_node = λ s spec. (s, err tt);
  heartbeat = λ s req. (s, err tt);
  report_job_status = λ s req. (s, some tt);
}

abbrev closed : Streams silent Duration
closed = record { watch_work = λ s id. (s, err tt) }

abbrev host : Config
host = record {
  id = "n1";
  hostname = "n1";
  address = "";
  total_cpus = pos 4;
  interval = pos second;
}

abbrev lives : Cancelled
lives = record { at_start = false; after_call = false; in_pause = false }

abbrev agent : Agent silent
agent = make silent tt host

abbrev turns : List Cancelled
turns = lives ∷ lives ∷ lives ∷ lives ∷ lives ∷ lives ∷ lives ∷ []

pauses :
    watch_pauses silent closed agent first_backoff turns
    ≡ pos 100000000
      ∷ pos 200000000
      ∷ pos 400000000
      ∷ pos 800000000
      ∷ pos 1600000000
      ∷ pos 3200000000
      ∷ pos 3200000000
      ∷ []
unfolding watch_pauses watch_turn next_backoff ◌+ℤ◌
pauses = refl

watch_pauses-IsBackoff_example :
    All IsBackoff (watch_pauses silent closed agent first_backoff turns)
watch_pauses-IsBackoff_example = watch_pauses-IsBackoff silent closed agent turns

handle_assignment_cases_example :
    let a' = handle_assignment silent plain agent (some (work "job-1")) 0 (waited no_error) in
    (res : RunResult) × (a'.client ≡ reported silent plain agent (work "job-1") res)
    × (a'.cfg ≡ agent.cfg)
    × RunCases agent.exec (work "job-1") (waited no_error) (a'.exec, res)
handle_assignment_cases_example =
    handle_assignment_cases silent plain agent (work "job-1") 0 (waited no_error)
