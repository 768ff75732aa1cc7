-- ===== src/System/Requests/Handlers.antt =====
-- Registration, submission and cancellation (internal/controller/server.go) keep jobs and nodes
-- together.
use slurmlite.Cluster.Invariant.{IsCount, register_node-Inv}
use slurmlite.Controller.Convert.{spec_from_proto}
use slurmlite.Controller.Server.{
  cancel_read, Server, Reply, kicked, offered, handle_register, job_name, submit_new, handle_submit,
  stop_nodes, handle_cancel,
}
use slurmlite.Controller.Requests.{registers, submits_job}
use slurmlite.Jobs.Changes.{cancel}
use slurmlite.Jobs.Manager.{JobManager, submit, clone_job, get}
use slurmlite.Jobs.Model.{Job, Spec, new_job}
use slurmlite.Jobs.Effects.{withdrawn_job}
use slurmlite.Jobs.Outcomes.{submit_cases, cancel-CancelOutcome}
use slurmlite.Protocol.{WellKnown, NodeSpec, JobSpec, PbJob}
use slurmlite.System.Coupling.{Coupled, changes-Coupled, Keeps-Coupled}
use slurmlite.System.Nodes.{register_node-Keeps}
use slurmlite.Prelude.{
  pos, ltb_ℤ, Time, dec_string, ite, ite_ind, some_inj, Result-cases, if_ind, String, Option, none,
  some, ◌≡◌, ◌≢◌, refl, sym, ap, subst, ◌∙◌, inl, inr, ◌+◌, ◌%◌, ◌^◌, arith,
}
use slurmlite.System.Requests.{
  Held, InRange, cancel_cases, clone_cpus, clone_nodes, ended-Held, get_ok, new_job_lem, not_blank,
  spec-IsCount,
}

module _ {w : WellKnown} where
  pub same_jobs-Held :
      (s : Server w) (m : JobManager) → m.jobs ≡ s.jobs.jobs → Held s → Held (record s { jobs = m })
  same_jobs-Held s m e (u, v) = (u, subst (λ x. Coupled x s.registry.nodes) (sym e) v)

  pub handle_register-Held :
      (s : Server w) (p : Option NodeSpec) (now : Time)
      → InRange {D = w.DurationMessage} (registers p)
      → Held s
      → Held (handle_register w s p now).0
  unfolding handle_register kicked
  handle_register-Held s none now f h = h
  handle_register-Held s (some spec) now f (u, v) =
      let id = ite (dec_string spec.id "") spec.hostname spec.id in
      ite_ind (λ (o : Reply w String). Held o.0) (dec_string id "") (λ _. (u, v))
        (λ _. (
          register_node-Inv s.registry (offered w spec id) now u (record {
            total =
                if_ind IsCount (ltb_ℤ spec.total_cpus (pos 1)) (λ _. omega arith)
                  (λ l. ground (arith, l, f));
            allocated = omega arith;
          }),
          Keeps-Coupled s.jobs.jobs s.registry.nodes _ v
              (register_node-Keeps s.registry (offered w spec id) now refl refl),
        ))

  submit_new-Held :
      (s : Server w) (id : String) (j : Job)
      → j.id ≢ ""
      → IsCount j.spec.resources.cpus_per_node
      → Held s
      → Held (submit_new w s id j).0
  unfolding submit_new kicked
  submit_new-Held s id j n c (u, v) = elim (Result-cases (submit s.jobs (some j)).1) [
    | inl (_, e) ↦ rw (e, submit_new) (u, after)
    | inr (_, e) ↦ rw (e, submit_new) (u, after)
  ]
    where
      after : Coupled (submit s.jobs (some j)).0.jobs s.registry.nodes
      after = elim (submit_cases s.jobs j) [
        | inl e ↦ subst (λ x. Coupled x s.registry.nodes) (sym e) v
        | inr (p, a, e) ↦
            subst (λ x. Coupled x s.registry.nodes) (sym e)
              (changes-Coupled s.jobs.jobs s.registry.nodes j.id j v n c (λ r. ground (arith, p, r))
                (λ o f. absurd (ground (arith, a, f))))
      ]

  pub handle_submit-Held :
      (s : Server w) (p : Option (JobSpec w.DurationMessage)) (now : Time)
      → InRange (submits_job p)
      → Held s
      → Held (handle_submit w s p now).0
  unfolding handle_submit
  handle_submit-Held s p now f h = elim (Result-cases (spec_from_proto w p)) [
    | inr (x, e) ↦ rw (e, handle_submit) h
    | inl (spec, e) ↦
        let n = (s.id_seq + 1) % 2 ^ 64 in
        elim (Result-cases (new_job (job_name w n) spec now)) [
          | inr (x, q) ↦ rw (e, q, handle_submit) h
          | inl (j, q) ↦
              let (a, b, c) = new_job_lem (job_name w n) spec now j q in
              rw (e, q, handle_submit)
                (submit_new-Held (record s { id_seq = n }) (job_name w n) j
                  (λ z. not_blank (job_name w n) c (sym a ∙ z))
                  (subst (λ (y : Spec). IsCount y.resources.cpus_per_node) (sym b)
                    (spec-IsCount w p spec f e))
                  h)
        ]
  ]

  pub handle_cancel-Held :
      (s : Server w) (id : String) (now : Time) → Held s → Held (handle_cancel w s id now).0
  unfolding handle_cancel stop_nodes kicked
  handle_cancel-Held s id now (u, v) =
      ite_ind (λ (o : Reply w (Option (PbJob w.DurationMessage w.Timestamp))). Held o.0)
        (dec_string id "") (λ _. (u, v))
        (λ _. elim (Result-cases (get s.jobs id)) [
          | inr (x, e) ↦ rw (e, handle_cancel, cancel_read) (u, v)
          | inl (c, e) ↦
              elim (cancel_cases s.jobs id now (cancel s.jobs id now)
                (cancel-CancelOutcome s.jobs id now)) [
                  | inl (x, q, k) ↦
                      rw (e, q, handle_cancel, cancel_read)
                        (same_jobs-Held s (cancel s.jobs id now).0 k (u, v))
                  | inr (inl (j, q, st, p, k)) ↦
                      rw (e, q, handle_cancel, cancel_read)
                        (
                          u,
                          subst (λ x. Coupled x s.registry.nodes) (sym k)
                              (changes-Coupled s.jobs.jobs s.registry.nodes id (withdrawn_job j now)
                                v (v.named id j st) (v.sized id j st) (λ r. ground (arith, r))
                                (λ o f r. ground (arith, some_inj (sym st ∙ f), p, r))),
                        )
                  | inr (inr (q, x)) ↦
                      let (j, st, ce) = get_ok s.jobs id c e in
                      let same : c ≡ clone_job x.old =
                        sym ce ∙ ap clone_job (some_inj (sym st ∙ x.stored)) in
                      rw (e, q, handle_cancel, cancel_read)
                        (ended-Held s.registry c u v x (clone_nodes c x.old same)
                          (clone_cpus c x.old same))
                ]
        ])
