-- ===== src/System/Loop.antt =====
-- The inner loop of `Run` in internal/scheduler/scheduler.go: it ends, and what it leaves waiting
-- cannot be started.
use slurmlite.Cluster.Registry.{list_nodes}
use slurmlite.Controller.Server.{Server}
use slurmlite.Controller.Wiring.{hub_dispatcher, hub_schedule_progress}
use slurmlite.Jobs.Changes.{mark_running}
use slurmlite.Jobs.Manager.{JobManager, peek_pending, remove_first, remove_pending}
use slurmlite.Jobs.Model.{Job, pending}
use slurmlite.Jobs.Transitions.{mark_running-Cases}
use slurmlite.Protocol.{WellKnown}
use slurmlite.Scheduling.Progress.{peek-In}
use slurmlite.Scheduling.Resources.{select_gang}
use slurmlite.Scheduling.Schedule.{try_schedule}
use slurmlite.System.Controller.{scheduler_of, after_scheduling, schedule, schedule_all}
use slurmlite.System.Invariant.{Inv}
use slurmlite.System.Placement.Steps.{try_schedule-Starting, Starting-Inv}
use slurmlite.Prelude.{
  Time, lookup, dec_string, true, false, Option-cases, String, List, [], ◌∷◌, length, none, some,
  ◌≡◌, refl, ap, ◌∙◌, ◌⊎◌, inl, inr, ℕ, zero, suc, ◌+◌, ◌<◌, arith, In,
}

length-remove_first :
    (id : String) (xs : List String) → In id xs → length (remove_first id xs) + 1 ≡ length xs
unfolding remove_first
length-remove_first id [] i = absurd i
length-remove_first id (x ∷ xs) i = elim (dec_string x id) [
  | yes p ↦ ground (arith, p)
  | no p ↦ elim i [ inl e ↦ absurd (p e) | inr k ↦ ground (arith, p, length-remove_first id xs k) ]
]

mark_running-shortens :
    (m : JobManager) (id : String) (j : Job) (ids : List String) (now : Time)
    → lookup id m.jobs ≡ some j
    → j.status ≡ pending
    → In id m.pending
    → length (mark_running m id ids now).0.pending + 1 ≡ length m.pending
unfolding mark_running remove_pending
mark_running-shortens m id j ids now e p i = elim (mark_running-Cases j ids now) [
  | inl (_, q) ↦ rw (e, q, mark_running, remove_pending) (length-remove_first id m.pending i)
  | inr (n, q) ↦ absurd (n p)
]

-- Nothing waits, or the head of the queue asks for a gang that there is not.
abbrev pub IsBlocked : {w : WellKnown} → Server w → Type 0
IsBlocked s =
    (peek_pending s.jobs ≡ none)
    ⊎ ((id : String) × (j : Job) × (peek_pending s.jobs ≡ some id)
        × (lookup id s.jobs.jobs ≡ some j)
        × (select_gang (list_nodes s.registry) j.spec.resources ≡ none))

module _ (w : WellKnown) where
  refused-IsBlocked :
      (s : Server w) (now : Time)
      → Inv s
      → (try_schedule (hub_dispatcher w) (scheduler_of w s) now).1 ≡ false
      → IsBlocked s
  unfolding scheduler_of
  refused-IsBlocked s now v h = elim (Option-cases (peek_pending s.jobs)) [
    | inl e ↦ inl e
    | inr (id, e) ↦
        let (j, f, _) = v.service.jobs.waiting id (peek-In s.jobs id e) in
        elim (Option-cases (select_gang (list_nodes s.registry) j.spec.resources)) [
          | inl g ↦ inr (id, j, e, f, g)
          | inr (ids, g) ↦ absurd (
              ground (
                arith,
                h,
                hub_schedule_progress w (scheduler_of w s) now id j ids v.registry v.service.jobs e
                    (v.coupled.named id j f) f g,
              ))
        ]
  ]

  schedule_cases :
      (s : Server w) (now : Time)
      → Inv s
      → ((schedule w s now ≡ (s, false)) × IsBlocked s)
        ⊎ (((schedule w s now).1 ≡ true)
            × Inv (schedule w s now).0
            × (length (schedule w s now).0.jobs.pending + 1 ≡ length s.jobs.pending))
  unfolding schedule scheduler_of after_scheduling
  schedule_cases s now v =
      elim (try_schedule-Starting w (scheduler_of w s) now v.registry v.service.jobs
        (s.hub, refl, v.service.mailboxes) v.coupled.named) [
          | inl e ↦ inl (rw (e, schedule) refl, refused-IsBlocked s now v (ap (λ o. o.1) e))
          | inr (t, x) ↦ inr (
            t,
            Starting-Inv w s _ now v x,
            ap (λ (m : JobManager). length m.pending + 1) x.jobs
                ∙ mark_running-shortens s.jobs x.id x.j x.ids now x.stored x.was_pending
                    (v.service.jobs.listed x.id x.j x.stored x.was_pending),
          )
        ]

-- Where the controller's invariant holds, the inner loop of the scheduler ends, after at most one
-- step more than there are jobs in the queue. It keeps the invariant, and when it
-- has ended either no job waits, or the free nodes hold no gang for the head of the queue.
pub schedule_all_ends :
    (w : WellKnown) (fuel : ℕ) (clock : ℕ → Time) (s : Server w)
    → Inv s
    → length s.jobs.pending < fuel
    → ((schedule_all w fuel clock s).1 ≡ true)
      × Inv (schedule_all w fuel clock s).0
      × IsBlocked (schedule_all w fuel clock s).0
unfolding schedule_all
schedule_all_ends w zero clock s v l = absurd (omega (arith, l))
schedule_all_ends w (suc n) clock s v l = elim (schedule_cases w s (clock n) v) [
  | inl (e, b) ↦ rw (e, schedule_all) (refl, v, b)
  | inr (t, u, k) ↦
      rw (t, schedule_all)
        (schedule_all_ends w n clock (schedule w s (clock n)).0 u (omega (arith, k, l)))
]
