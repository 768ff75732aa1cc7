-- ===== src/Agent/Answers.antt =====
-- The pauses of the agent of internal/node/agent.go, and its answers to an assignment.
use slurmlite.Agent.Executor.{
  job_id_of, Executor, Ending, RunResult, cancel_context, clear, claim, finish, result_of,
  run_assignment, failure,
}
use slurmlite.Agent.Node.{
  Client, Streams, Cancelled, Agent, first_backoff, second, next_backoff, watch_turn, watch_pauses,
  report, handle_assignment,
}
use slurmlite.Protocol.{WellKnown, job_event_started, WorkAssignment}
use slurmlite.Prelude.{
  pos, ltb_ℤ, ltb, Duration, dec_string, true, Bool-cases, Option-cases, if_ind, List, [], ◌∷◌,
  none, some, ◌≡◌, ◌≢◌, refl, sym, ap, subst, ◌∙◌, ◌⊎◌, inl, inr, ℕ, suc, ◌*◌, ◌<◌, ◌≤◌, ◌^◌, arith,
  All, ◌+ℤ◌, wrap32, wrap_at, int_laws,
}

-- A tenth of a second, doubled at most five times.
abbrev pub IsBackoff : Duration → Type 0
IsBackoff d = (k : ℕ) × (k ≤ 5) × (d ≡ pos (100000000 * 2 ^ k))

first-IsBackoff : IsBackoff first_backoff
first-IsBackoff = (0, omega arith, refl)

doubles : (k : ℕ) → k ≤ 5 → 100000000 * 2 ^ k < 2 * second → k < 5
doubles k l h = elim (Bool-cases (ltb k 5)) [
  | inl p ↦ ground (arith, p)
  | inr p ↦
      let e : k ≡ 5 = ground (arith, l, p) in
      absurd (omega (arith, subst (λ x. 100000000 * 2 ^ x < 2 * second) e h))
]

below : (d : Duration) (n : ℕ) → d ≡ pos n → ltb_ℤ d (pos (2 * second)) ≡ true → n < 2 * second
below d n e h = ground (arith, e, h)

next_backoff-IsBackoff : (d : Duration) → IsBackoff d → IsBackoff (next_backoff d)
unfolding next_backoff
next_backoff-IsBackoff d (k, l, e) =
    if_ind IsBackoff (ltb_ℤ d (pos (2 * second)))
      (λ h.
        (suc k, omega (arith, doubles k l (below d _ e h)), ap (λ x. x +ℤ x) e ∙ omega int_laws))
      (λ _. (k, l, e))

module _ (c : Client) {D : Type 0} where
  watch_turn_cases :
      (str : Streams c D) (a : Agent c) (b : Duration) (done : Cancelled) (pause next : Duration)
      → (watch_turn c str a b done).2 ≡ some (pause, next)
      → ((pause ≡ b) × (next ≡ next_backoff b)) ⊎ ((pause ≡ first_backoff) × (next ≡ first_backoff))
  unfolding watch_turn
  watch_turn_cases str a b done pause next h = ground (arith, h)

  -- Whatever the calls of an agent answer and whenever its context is cancelled, each pause that
  -- `watchLoop` takes is a tenth of a second doubled at most five times, and so at least 100 ms and at
  -- most 3.2 s long.
  pub watch_pauses-IsBackoff :
      (str : Streams c D) (a : Agent c) (turns : List Cancelled)
      → All IsBackoff (watch_pauses c str a first_backoff turns)
  unfolding watch_pauses
  watch_pauses-IsBackoff str a turns = from turns a first_backoff first-IsBackoff
    where
      from :
          (turns : List Cancelled) (a : Agent c) (b : Duration)
          → IsBackoff b
          → All IsBackoff (watch_pauses c str a b turns)
      from [] a b v = tt
      from (done ∷ turns) a b v = elim (Option-cases (watch_turn c str a b done).2) [
        | inl e ↦ rw (e, watch_pauses) tt
        | inr ((pause, next), e) ↦ elim (watch_turn_cases str a b done pause next e) [
          | inl (p, q) ↦
              rw (e, watch_pauses)
                (
                  subst IsBackoff (sym p) v,
                  from turns _ next (subst IsBackoff (sym q) (next_backoff-IsBackoff b v)),
                )
          | inr (p, q) ↦
              rw (e, watch_pauses)
                (
                  subst IsBackoff (sym p) first-IsBackoff,
                  from turns _ next (subst IsBackoff (sym q) first-IsBackoff),
                )
        ]
      ]

-- A slot is as it was, apart from the contexts that were stopped.
abbrev pub SameSlot : Executor → Executor → Type 0
SameSlot e e' = (e.job_id ≡ e'.job_id) × (e.cpus ≡ e'.cpus) × (e.cancel ≡ e'.cancel)

-- The three answers of `Run`.
abbrev pub RunCases :
    {D : Type 0} → Executor → WorkAssignment D → Ending → Executor × RunResult → Type 0
RunCases e x end o =
    ((x.command ≡ "") × (o.1 ≡ failure "empty command") × SameSlot o.0 e)
    ⊎ ((x.command ≢ "") × (e.job_id ≢ "") × (o.1 ≡ failure "node busy") × SameSlot o.0 e)
    ⊎ ((x.command ≢ "")
        × (e.job_id ≡ "")
        × (o.1 ≡ result_of end)
        × (o.0.job_id ≡ "")
        × (o.0.cpus ≡ pos 0)
        × (o.0.cancel ≡ none))

run_assignment-RunCases :
    (w : WellKnown) (e : Executor) (x : WorkAssignment w.DurationMessage) (ctx : ℕ) (end : Ending)
    → RunCases e x end (run_assignment w e (some x) ctx end)
unfolding run_assignment claim finish clear cancel_context job_id_of
run_assignment-RunCases w e x ctx end = elim (dec_string x.command "") [
  | yes p ↦ inl (p, ground (arith, p), (ground (arith, p), ground (arith, p), ground (arith, p)))
  | no p ↦ elim (dec_string e.job_id "") [
    | no q ↦ inr (
        inl (
          p,
          q,
          ground (arith, p, q),
          (ground (arith, p, q), ground (arith, p, q), ground (arith, p, q)),
        ))
    | yes q ↦ inr (
        inr (
          p,
          q,
          ground (arith, p, q),
          ground (arith, p, q),
          ground (arith, p, q),
          ground (arith, p, q),
        ))
  ]
]

module _ (c : Client) (w : WellKnown) where
  -- The client after the two reports of an assignment.
  abbrev pub reported : Agent c → WorkAssignment w.DurationMessage → RunResult → c.State
  reported a x res =
      (c.report_job_status
        (c.report_job_status a.client (record {
          node_id = a.cfg.id;
          job_id = x.job_id;
          event = job_event_started;
          exit_code = pos 0;
          error_message = "";
        })).0
        (record {
          node_id = a.cfg.id;
          job_id = x.job_id;
          event = res.event;
          exit_code = wrap32 res.exit_code;
          error_message = res.err_msg;
        })).0

  handle_assignment_lem :
      (a : Agent c) (x : WorkAssignment w.DurationMessage) (ctx : ℕ) (end : Ending)
      → let o = run_assignment w a.exec (some x) ctx end in
        handle_assignment c w a (some x) ctx end
        ≡ record { client = reported a x o.1; cfg = a.cfg; exec = o.0 }
  unfolding handle_assignment report wrap_at
  handle_assignment_lem a x ctx end = refl

  -- An agent answers an assignment with exactly two reports, the start and then an end: a failure where the
  -- command is empty or where a job runs already, whose slot is then left as it was; else what the run
  -- ended with, and the slot is free.
  pub handle_assignment_cases :
      (a : Agent c) (x : WorkAssignment w.DurationMessage) (ctx : ℕ) (end : Ending)
      → let a' = handle_assignment c w a (some x) ctx end in
        (res : RunResult) × (a'.client ≡ reported a x res)
        × (a'.cfg ≡ a.cfg)
        × RunCases a.exec x end (a'.exec, res)
  handle_assignment_cases a x ctx end =
      let o = run_assignment w a.exec (some x) ctx end in
      let e = handle_assignment_lem a x ctx end in
      (
        o.1,
        ap (λ (y : Agent c). y.client) e,
        ap (λ (y : Agent c). y.cfg) e,
        subst (λ (y : Executor). RunCases a.exec x end (y, o.1))
            (sym (ap (λ (y : Agent c). y.exec) e)) (run_assignment-RunCases w a.exec x ctx end),
      )
