-- ===== src/Cli/Tests.antt =====
-- Runs of the command line, and the theorem on what it submits at an input.
use slurmlite.Cli.Cancellation.{direct, cancelled_line, run_cancel_cases}
use slurmlite.Cli.Commands.{call_failed, run_cancel, submit_spec}
use slurmlite.Controller.Server.{Server, RpcError}
use slurmlite.Jobs.Model.{Job, pending, running, cancelled}
use text.Mathlib.TextEquality.{eq_iff}
use slurmlite.Cli.Submission.{asked, submit_spec_iff}
use slurmlite.Cli.Tables.{join_ids, append_each}
use slurmlite.Controller.Convert.{spec_from_proto}
use slurmlite.Controller.Tests.{plain}
use slurmlite.Jobs.Model.{Spec}
use slurmlite.Prelude.{
  pos, zero_time, lookup, is_blank, ok, err, dec_string, false, String, [], ◌∷◌, none, some, ◌≡◌,
  ◌≢◌, refl, ◌⊎◌, ◌↔◌, arith, ◌≤ℤ◌, wrap_at,
}

joined : join_ids ("n1" ∷ "n2" ∷ "n3" ∷ []) ≡ "n1,n2,n3"
unfolding join_ids append_each
joined = refl

-- A number of nodes that an int32 cannot hold is sent as another.
wrapped :
    submit_spec plain (pos 4294967297) (pos 1) (pos 0) "/bin/echo" []
    ≡ submit_spec plain (pos 1) (pos 1) (pos 0) "/bin/echo" []
unfolding submit_spec wrap_at
wrapped = refl

submit_spec_iff_example :
    let sent =
      spec_from_proto plain (some (submit_spec plain (pos 2) (pos 1) (pos 5) "/bin/echo" [])) in
    (((x : Spec) × (sent ≡ ok x))
      ↔ ((pos 1 ≤ℤ pos 2) × (pos 1 ≤ℤ pos 1) × (is_blank "/bin/echo" ≡ false)))
    × ((x : Spec) → sent ≡ ok x → x ≡ asked (pos 2) (pos 1) (pos 5) "/bin/echo" [])
submit_spec_iff_example =
    submit_spec_iff plain (λ d. refl) (pos 2) (pos 1) (pos 5) "/bin/echo" [] (omega arith)
      (omega arith)

abbrev sleeper : Job
sleeper = record {
  id = "job-1";
  spec = record {
    resources = record { nodes_required = pos 1; cpus_per_node = pos 1; max_duration = pos 0 };
    command = "/bin/sleep";
    args = [];
    env = [];
  };
  status = pending;
  assigned_node_ids = [];
  submitted_at = 6;
  started_at = zero_time;
  finished_at = zero_time;
  exit_code = pos 0;
  error_message = "";
}

abbrev waiting_server : Server plain
waiting_server = record {
  registry = record { nodes = [] };
  jobs = record { pending = "job-1" ∷ []; jobs = ("job-1", sleeper) ∷ []; reports = [] };
  heartbeats = [];
  hub = record { sub = []; queue = []; cancels = []; channels = [] };
  kicks = none;
  id_seq = 1;
}

sleeper_named : ◌≢◌ {A = String} "job-1" ""
sleeper_named e = ground (arith, eq_iff "job-1" "")

sleeps : lookup "job-1" waiting_server.jobs.jobs ≡ some sleeper
unfolding lookup dec_string
sleeps = refl

run_cancel_cases_example :
    let o = run_cancel plain (direct plain 9) waiting_server ("job-1" ∷ []) in
    (((sleeper.status ≡ pending) ⊎ (sleeper.status ≡ running))
      × (o.1 ≡ ok (cancelled_line "job-1"))
      × ((k : Job) × (lookup "job-1" o.0.jobs.jobs ≡ some k) × (k.status ≡ cancelled)))
    ⊎ ((sleeper.status ≢ pending)
        × (sleeper.status ≢ running)
        × ((e : RpcError) × (o.1 ≡ err (call_failed e)))
        × (o.0.jobs.jobs ≡ waiting_server.jobs.jobs))
run_cancel_cases_example =
    run_cancel_cases plain waiting_server "job-1" 9 sleeper sleeper_named sleeps refl
