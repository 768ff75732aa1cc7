-- ===== src/System/Execution.antt =====
-- An assignment that an agent (internal/node/agent.go) carries out for a controller
-- (internal/controller/server.go).
use slurmlite.Agent.Answers.{reported, handle_assignment_cases}
use slurmlite.Agent.Executor.{waited, no_error, result_of, result_from_wait}
use slurmlite.Agent.Node.{Agent, handle_assignment}
use slurmlite.Cluster.Registry as Nodes
use slurmlite.Cluster.Registry.{Node}
use slurmlite.Controller.Reports.{report_event, handle_report}
use slurmlite.Controller.Server.{Server, Reply}
use slurmlite.Jobs.Changes.{reports_of}
use slurmlite.Jobs.Model.{Job, running, completed}
use slurmlite.Protocol.{
  WellKnown, WorkAssignment, job_event_started, job_event_completed, ReportJobStatusRequest,
}
use slurmlite.System.Completion.{last_report_frees}
use slurmlite.System.Invariant.{Inv}
use slurmlite.System.Membership.{direct, answered}
use slurmlite.Prelude.{
  pos, Time, lookup, ok, err, dec_string, Option-cases, ite_ind, String, [], ◌∷◌, none, some, ◌≡◌,
  ◌≢◌, refl, sym, ap, subst, ◌∙◌, inl, inr, ℕ, In, wrap_at,
}

answered_state : (w : WellKnown) (o : Reply w (Unit {0})) → (answered w o).0 ≡ o.0
answered_state w (s, err e) = refl
answered_state w (s, ok _) = refl

-- The report of a start changes nothing.
started_same :
    (w : WellKnown) (s : Server w) (req : ReportJobStatusRequest) (now : Time)
    → req.event ≡ job_event_started
    → (handle_report w s req now).0 ≡ s
unfolding handle_report report_event
started_same w s req now e =
    ite_ind (λ (o : Reply w (Unit {0})). o.0 ≡ s) (dec_string req.node_id "") (λ _. refl)
      (λ _.
        ite_ind (λ (o : Reply w (Unit {0})). o.0 ≡ s) (dec_string req.job_id "") (λ _. refl)
          (λ _. elim (Option-cases (Nodes.get s.registry req.node_id)) [
            | inl f ↦ rw (f, handle_report) refl
            | inr (n, f) ↦ rw (f, e, handle_report, report_event) refl
          ]))

abbrev pub ending_report : String → String → ReportJobStatusRequest
ending_report node_id job_id = record {
  node_id = node_id;
  job_id = job_id;
  event = job_event_completed;
  exit_code = pos 0;
  error_message = "";
}

reported_state :
    (w : WellKnown) (now : Time) (a : Agent (direct w now)) (x : WorkAssignment w.DurationMessage)
    → reported (direct w now) w a x (result_of (waited no_error))
      ≡ (handle_report w a.client (ending_report a.cfg.id x.job_id) now).0
unfolding result_of result_from_wait wrap_at
reported_state w now a x =
    answered_state w (handle_report w _ (ending_report a.cfg.id x.job_id) now)
    ∙ ap (λ s. (handle_report w s (ending_report a.cfg.id x.job_id) now).0)
        (answered_state w (handle_report w a.client _ now) ∙ started_same w a.client _ now refl)

-- Where the controller's invariant holds and a job runs on the agent's node alone, which has not
-- reported yet, an agent whose slot is free, and which carries out the job's assignment to a good end,
-- completes the job in the controller; the node carries nothing any more, and the slot is free.
pub assignment_completes :
    (w : WellKnown) (now : Time) (a : Agent (direct w now)) (x : WorkAssignment w.DurationMessage)
    (ctx : ℕ) (j : Job)
    → Inv a.client
    → x.command ≢ ""
    → a.exec.job_id ≡ ""
    → lookup x.job_id a.client.jobs.jobs ≡ some j
    → j.status ≡ running
    → j.assigned_node_ids ≡ a.cfg.id ∷ []
    → lookup a.cfg.id (reports_of a.client.jobs x.job_id) ≡ none
    → let a' = handle_assignment (direct w now) w a (some x) ctx (waited no_error) in
      ((k : Job) × (lookup x.job_id a'.client.jobs.jobs ≡ some k) × (k.status ≡ completed))
      × ((n : Node)
          → lookup a.cfg.id a'.client.registry.nodes ≡ some n
          → (n.current_job_id ≡ "") × (n.allocated_cpus ≡ pos 0))
      × (a'.exec.job_id ≡ "")
assignment_completes w now a x ctx j v cmd free st r ids new =
    let (res, client, _, cases) =
      handle_assignment_cases (direct w now) w a x ctx (waited no_error) in
    elim cases [
      | inl (p, _, _) ↦ absurd (cmd p)
      | inr (inl (_, p, _, _)) ↦ absurd (p free)
      | inr (inr (_, _, e, slot, _, _)) ↦
          let same = client ∙ ap (reported (direct w now) w a x) e ∙ reported_state w now a x in
          let here : In a.cfg.id j.assigned_node_ids =
            subst (λ y. In a.cfg.id y) (sym ids) (inl refl) in
          let ((_, _, done), idle) =
            last_report_frees w a.client (ending_report a.cfg.id x.job_id) now j v refl
              (record { found = st; is_running = r; assigned = here; unseen = new })
              (λ n i ne. absurd (elim (subst (λ y. In n y) ids i) [ inl q ↦ ne q | inr h ↦ h ])) in
          (
            (_, ap (λ (s : Server w). lookup x.job_id s.jobs.jobs) same ∙ done, refl),
            (λ n f.
                idle a.cfg.id here n
                  (sym (ap (λ (s : Server w). lookup a.cfg.id s.registry.nodes) same) ∙ f)),
            slot,
          )
    ]
