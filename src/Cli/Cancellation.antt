-- ===== src/Cli/Cancellation.antt =====
-- `slctl cancel` of cmd/slctl/commands.go against the handlers of internal/controller/server.go.
use slurmlite.Cli.Commands.{Client, call_failed, run_cancel}
use slurmlite.Cli.Tables.{job_status_name}
use slurmlite.Controller.Convert.{job_to_proto, job_status_to_proto}
use slurmlite.Controller.Server.{
  cancel_read, Server, RpcError, refused, Reply, kicked, handle_submit, handle_list_jobs,
  handle_list_nodes, handle_cancel, stop_nodes,
}
use slurmlite.Jobs.Changes.{cancel}
use slurmlite.Jobs.Effects.{withdrawn_job}
use slurmlite.Jobs.Manager.{JobManager, Outcome, get, clone_job}
use slurmlite.Jobs.Model.{Job, JobError, pending, running, cancelled}
use slurmlite.Jobs.Outcomes.{CancelOutcome, refuses, withdraws, stops, cancel-CancelOutcome}
use slurmlite.Protocol.{WellKnown, PbJob}
use Prim.Native.String.{◌++◌ as text_append}
use slurmlite.Prelude.{
  Time, lookup, lookup-insert_self, ok, err, dec_string, Bool, true, false, Bool-cases, ite_ind,
  some_inj, String, [], ◌∷◌, Option, some, ◌≡◌, ◌≢◌, refl, sym, ap, ◌∙◌, ◌⊎◌, inl, inr,
}

-- The controller's handlers as the client, at one time.
abbrev pub direct : (w : WellKnown) → Time → Client w
direct w now = record {
  State = Server w;
  Failure = RpcError;
  submit_job = λ s spec. handle_submit w s (some spec) now;
  list_jobs = λ s. (s, ok (handle_list_jobs w s []));
  cancel_job = λ s id. handle_cancel w s id now;
  list_nodes = λ s. (s, ok (handle_list_nodes w s));
}

abbrev pub cancelled_line : String → String
cancelled_line id =
    text_append "cancelled " (text_append id (text_append "  " (text_append "cancelled" "\n")))

-- What `CancelJob` has done where it succeeds.
record Withdrawn {w : WellKnown} (id : String)
    (o : Reply w (Option (PbJob w.DurationMessage w.Timestamp))) : Type 0 where
  job : Job
  stored : lookup id o.0.jobs.jobs ≡ some job
  named : job.id ≡ id
  is_cancelled : job.status ≡ cancelled
  answer : o.1 ≡ ok (job_to_proto w (some (clone_job job)))

get_stored :
    (m : JobManager) (id : String) (j : Job)
    → lookup id m.jobs ≡ some j
    → get m id ≡ ok (clone_job j)
unfolding get
get_stored m id j e = rw (e, get) refl

-- What `Cancel` does to a job `j` that is stored.
abbrev Cancels : JobManager → String → Job → Outcome Bool → Type 0
Cancels m id j o =
    ((signal : Bool) × (k : Job) × ((j.status ≡ pending) ⊎ (j.status ≡ running))
      × (o.1 ≡ ok signal)
      × (lookup id o.0.jobs ≡ some k)
      × (k.id ≡ j.id)
      × (k.status ≡ cancelled))
    ⊎ ((e : JobError) × (j.status ≢ pending)
        × (j.status ≢ running)
        × (o.1 ≡ err e)
        × (o.0.jobs ≡ m.jobs))

CancelOutcome-Cancels :
    (m : JobManager) (id : String) (now : Time) (j : Job) (o : Outcome Bool)
    → lookup id m.jobs ≡ some j
    → CancelOutcome m id now o
    → Cancels m id j o
CancelOutcome-Cancels m id now j _ st (refuses m' e q n) =
    let (a, b) = n j st in inr (e, a, b, refl, q)
CancelOutcome-Cancels m id now j _ st (withdraws m' i e p q) =
    let same : i ≡ j = some_inj (sym e ∙ st) in
    inl (
      false,
      withdrawn_job i now,
      inl (ap (λ (y : Job). y.status) (sym same) ∙ p),
      refl,
      ap (λ y. lookup id y) q ∙ lookup-insert_self id (withdrawn_job i now) m.jobs,
      ap (λ (y : Job). y.id) same,
      refl,
    )
CancelOutcome-Cancels m id now j _ st (stops m' x c) =
    let same : x.old ≡ j = some_inj (sym x.stored ∙ st) in
    inl (
      true,
      x.new,
      inr (ap (λ (y : Job). y.status) (sym same) ∙ x.was_running),
      refl,
      ap (λ y. lookup id y) x.becomes ∙ lookup-insert_self id x.new m.jobs,
      x.same_id ∙ ap (λ (y : Job). y.id) same,
      c,
    )

module _ (w : WellKnown) where
  cancels-Withdrawn :
      (s : Server w) (id : String) (now : Time) (signal : Bool) (c j : Job)
      → id ≢ ""
      → get s.jobs id ≡ ok c
      → (cancel s.jobs id now).1 ≡ ok signal
      → lookup id (cancel s.jobs id now).0.jobs ≡ some j
      → j.id ≡ id
      → j.status ≡ cancelled
      → Withdrawn {w = w} id (handle_cancel w s id now)
  unfolding handle_cancel stop_nodes kicked
  cancels-Withdrawn s id now signal c j n g q e k p =
      ite_ind
        (λ (o : Reply w (Option (PbJob w.DurationMessage w.Timestamp))). Withdrawn {w = w} id o)
        (dec_string id "") (λ h. absurd (n h))
        (λ _. elim (Bool-cases signal) [
          | inl t ↦
              rw (g, q, t, handle_cancel, cancel_read, get_stored (cancel s.jobs id now).0 id j e)
                (record { job = j; stored = e; named = k; is_cancelled = p; answer = refl })
          | inr t ↦
              rw (g, q, t, handle_cancel, cancel_read, get_stored (cancel s.jobs id now).0 id j e)
                (record { job = j; stored = e; named = k; is_cancelled = p; answer = refl })
        ])

  refused_cancel :
      (s : Server w) (id : String) (now : Time) (c : Job) (e : JobError)
      → id ≢ ""
      → get s.jobs id ≡ ok c
      → (cancel s.jobs id now).1 ≡ err e
      → handle_cancel w s id now ≡ (record s { jobs = (cancel s.jobs id now).0 }, err (refused e))
  unfolding handle_cancel
  refused_cancel s id now c e n g q =
      ite_ind
        (λ (o : Reply w (Option (PbJob w.DurationMessage w.Timestamp))).
          o ≡ (record s { jobs = (cancel s.jobs id now).0 }, err (refused e)))
        (dec_string id "") (λ h. absurd (n h)) (λ _. rw (g, q, handle_cancel, cancel_read) refl)

  fails_cancel :
      (c : Client w) (s s' : c.State) (id : String) (e : c.Failure)
      → c.cancel_job s id ≡ (s', err e)
      → run_cancel w c s (id ∷ []) ≡ (s', err (call_failed e))
  unfolding run_cancel
  fails_cancel c s s' id e h = rw (ap (λ o. o.1) h, ap (λ o. o.0) h, run_cancel) refl

  prints_cancelled :
      (s : Server w) (id : String) (now : Time)
      → (x : Withdrawn {w = w} id (handle_cancel w s id now))
      → let o = run_cancel w (direct w now) s (id ∷ []) in
        (o.1 ≡ ok (cancelled_line id)) × (lookup id o.0.jobs.jobs ≡ some x.job)
  unfolding run_cancel job_to_proto job_status_to_proto job_status_name clone_job
  prints_cancelled s id now x =
      (rw (x.answer, x.is_cancelled, x.named, run_cancel) refl, rw (x.answer, run_cancel) x.stored)

  -- `slctl cancel` with the id of a stored job: where the job is pending or running, the command
  -- prints that it is cancelled, and it is; else the command fails, and no job has changed.
  pub run_cancel_cases :
      (s : Server w) (id : String) (now : Time) (j : Job)
      → id ≢ ""
      → lookup id s.jobs.jobs ≡ some j
      → j.id ≡ id
      → let o = run_cancel w (direct w now) s (id ∷ []) in
        (((j.status ≡ pending) ⊎ (j.status ≡ running))
          × (o.1 ≡ ok (cancelled_line id))
          × ((k : Job) × (lookup id o.0.jobs.jobs ≡ some k) × (k.status ≡ cancelled)))
        ⊎ ((j.status ≢ pending)
            × (j.status ≢ running)
            × ((e : RpcError) × (o.1 ≡ err (call_failed e)))
            × (o.0.jobs.jobs ≡ s.jobs.jobs))
  run_cancel_cases s id now j n st named =
      let g = get_stored s.jobs id j st in
      elim (CancelOutcome-Cancels s.jobs id now j (cancel s.jobs id now) st
        (cancel-CancelOutcome s.jobs id now)) [
          | inl (signal, k, before, q, e, i, c) ↦
              let x = cancels-Withdrawn s id now signal (clone_job j) k n g q e (i ∙ named) c in
              let (a, b) = prints_cancelled s id now x in
              inl (before, a, (x.job, b, x.is_cancelled))
          | inr (e, a, b, q, same) ↦
              let f =
                fails_cancel (direct w now) s _ id (refused e)
                  (refused_cancel s id now (clone_job j) e n g q) in
              inr (a, b, (refused e, ap (λ o. o.1) f), ap (λ o. o.0.jobs.jobs) f ∙ same)
        ]
