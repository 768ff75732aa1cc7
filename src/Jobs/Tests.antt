-- ===== src/Jobs/Tests.antt =====
-- Runs of the job manager on small inputs, and the theorems at them.
use text.Mathlib.TextEquality.{eq_iff}
use slurmlite.Jobs.Changes
use slurmlite.Jobs.Changes.{max_exit, reports_of, report_node_event}
use slurmlite.Jobs.Completion.{Fresh, IsLargest, with_report, report_completes, report_waits}
use slurmlite.Jobs.Effects.{
  Call, submits, marks_running, fails_running, cancels, reports_event, step, run, added,
}
use slurmlite.Jobs.Errors.{step_error_unchanged}
use slurmlite.Jobs.Invariant.{Inv}
use slurmlite.Jobs.Invariant.Kept.{run-Inv}
use slurmlite.Jobs.Lifecycle.{Advance, step-Advance, run_final}
use slurmlite.Jobs.Manager.{JobManager, NodeReport, make, submit, remove_first}
use slurmlite.Jobs.Model
use slurmlite.Jobs.Model.{
  Job, Spec, Status, Status-discrete, pending, running, completed, failed, cancelled, new_job,
  validate_spec, job_not_found,
}
use slurmlite.Jobs.Order.{run_fifo, still_pending, is_pending_in, added_run}
use slurmlite.Prelude.{
  ℤ, pos, Time, lookup, insert, delete, is_blank, ok, dec_string, true, false, String, List, [],
  ◌∷◌, ◌++◌, some, ◌≡◌, refl, subst, inl, inr, arith, Distinct,
}

abbrev small_spec : Spec
small_spec = record {
  resources = record { nodes_required = pos 2; cpus_per_node = pos 1; max_duration = pos 0 };
  command = "/bin/echo";
  args = "hello" ∷ [];
  env = [];
}

abbrev fresh_job : String → Job
fresh_job id = record {
  id = id;
  status = pending;
  spec = small_spec;
  assigned_node_ids = [];
  submitted_at = 10;
  started_at = 0;
  finished_at = 0;
  exit_code = pos 0;
  error_message = "";
}

new_job_runs : new_job "job-1" small_spec 10 ≡ ok (fresh_job "job-1")
unfolding new_job validate_spec is_blank
new_job_runs = refl

abbrev success : NodeReport
success = record { failed = false; exit_code = pos 0; err_msg = "" }

abbrev failure : NodeReport
failure = record { failed = true; exit_code = pos 3; err_msg = "exit status 3" }

-- Two jobs are submitted and the first starts on two nodes.
abbrev started_history : List (Time × Call)
started_history =
    (10, submits (some (fresh_job "job-1")))
    ∷ (11, submits (some (fresh_job "job-2")))
    ∷ (12, marks_running "job-1" ("n1" ∷ "n2" ∷ []))
    ∷ []

abbrev running_job : Job
running_job = record (fresh_job "job-1") {
  status = running;
  assigned_node_ids = "n1" ∷ "n2" ∷ [];
  started_at = 12;
}

two_jobs : JobManager
two_jobs = record {
  pending = "job-2" ∷ [];
  jobs = ("job-1", running_job) ∷ ("job-2", fresh_job "job-2") ∷ [];
  reports = ("job-1", []) ∷ [];
}

-- To unfold this is to unfold what a run computes with.
opened : Unit {0}
unfolding run step make submit Changes.mark_running Model.mark_running remove_first insert delete
    lookup dec_string Status-discrete two_jobs added added_run still_pending is_pending_in
    reports_of report_node_event Changes.cancel Changes.mark_failed Model.mark_failed
    Model.mark_cancelled Changes.mark_completed Model.mark_completed max_exit
opened = tt

started_run : run make started_history ≡ two_jobs
unfolding opened
started_run = refl

two_jobs-Inv : Inv two_jobs
two_jobs-Inv = subst Inv started_run (run-Inv started_history)

run-Inv_example : Inv (run make started_history)
run-Inv_example = run-Inv started_history

found_first : lookup "job-1" two_jobs.jobs ≡ some running_job
unfolding opened
found_first = refl

step-Advance_example :
    (j' : Job) × (lookup "job-1" (step two_jobs 20 (cancels "job-1")).0.jobs ≡ some j')
    × Advance running_job j'
step-Advance_example = step-Advance two_jobs 20 (cancels "job-1") "job-1" running_job found_first

abbrev cancelled_job : Job
cancelled_job = record (fresh_job "job-3") { status = cancelled; finished_at = 15 }

cancelled_only : JobManager
cancelled_only = record { pending = []; jobs = ("job-3", cancelled_job) ∷ []; reports = [] }

run_final_example :
    lookup "job-3"
      (run cancelled_only ((16, cancels "job-3") ∷ (17, fails_running "job-3" "lost") ∷ [])).jobs
    ≡ some cancelled_job
unfolding opened cancelled_only
run_final_example =
    run_final cancelled_only ((16, cancels "job-3") ∷ (17, fails_running "job-3" "lost") ∷ [])
      "job-3" cancelled_job refl (inr (inr refl))

step_error_unchanged_example : (step two_jobs 20 (cancels "job-9")).0 ≡ two_jobs
step_error_unchanged_example =
    step_error_unchanged two_jobs 20 (cancels "job-9") {e = job_not_found} (unfold opened in refl)

run_fifo_example :
    (run two_jobs started_history).pending
    ≡ still_pending
        (run two_jobs started_history).jobs
        (two_jobs.pending ++ added_run two_jobs started_history)
run_fifo_example = run_fifo two_jobs started_history two_jobs-Inv

-- The first node has reported, and the second reports next.
half_done : JobManager
half_done = record {
  pending = [];
  jobs = ("job-1", running_job) ∷ [];
  reports = ("job-1", ("n1", success) ∷ []) ∷ [];
}

half_history : List (Time × Call)
half_history =
    (10, submits (some (fresh_job "job-1")))
    ∷ (12, marks_running "job-1" ("n1" ∷ "n2" ∷ []))
    ∷ (13, reports_event "job-1" "n1" success)
    ∷ []

half_run : run make half_history ≡ half_done
unfolding opened half_history half_done
half_run = refl

half_done-Inv : Inv half_done
half_done-Inv = subst Inv half_run (run-Inv half_history)

second-Fresh : Fresh half_done "job-1" "n2" running_job
unfolding opened half_done
second-Fresh = record { found = refl; is_running = refl; assigned = inr (inl refl); unseen = refl }

Distinct-nodes : Distinct ("n1" ∷ "n2" ∷ [])
Distinct-nodes =
    ((λ h. elim h [ inl e ↦ ground (arith, eq_iff "n2" "n1") | inr f ↦ f ]), ((λ h. h), tt))

report_completes_example :
    (e : ℤ) × IsLargest e (with_report half_done "job-1" "n2" success)
    × (lookup "job-1" (report_node_event half_done "job-1" "n2" success 14).0.jobs
        ≡ some (record running_job { status = completed; finished_at = 14; exit_code = e }))
unfolding opened half_done
report_completes_example =
    report_completes half_done-Inv "job-1" "n2" running_job success 14 second-Fresh Distinct-nodes
      refl
      (λ n i ne. elim i [
        | inl e ↦ (success, rw (← e) refl)
        | inr (inl e) ↦ absurd (ne e)
        | inr (inr f) ↦ absurd f
      ])

first-Fresh : Fresh two_jobs "job-1" "n1" running_job
unfolding opened
first-Fresh = record { found = refl; is_running = refl; assigned = inl refl; unseen = refl }

report_waits_example : report_node_event two_jobs "job-1" "n1" success 14 ≡ (
  record two_jobs {
    reports = insert "job-1" (insert "n1" success (reports_of two_jobs "job-1")) two_jobs.reports;
  },
  ok tt,
)
report_waits_example =
    report_waits two_jobs-Inv "job-1" "n1" "n2" running_job success 14 first-Fresh refl
      (inr (inl refl)) (λ e. ground (arith, eq_iff "n1" "n2")) (unfold opened in refl)
