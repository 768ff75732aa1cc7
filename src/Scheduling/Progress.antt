-- ===== src/Scheduling/Progress.antt =====
-- When `trySchedule` of internal/scheduler/scheduler.go starts a job.
use slurmlite.Cluster.Invariant as Registered
use slurmlite.Cluster.Registry.{list_nodes}
use slurmlite.Cluster.Reservations.{reserve_nodes}
use slurmlite.Jobs.Changes.{mark_running}
use slurmlite.Jobs.Invariant as Managed
use slurmlite.Jobs.Manager.{JobManager, peek_pending, peek_pending_job, clone_job, first}
use slurmlite.Jobs.Model.{Job, pending}
use slurmlite.Jobs.Transitions.{mark_running-Cases}
use slurmlite.Scheduling.Dispatch.{
  Assignment, Dispatcher, assignment_for, dispatch_from, dispatch_work,
}
use slurmlite.Scheduling.Gang.{select_gang_reservable}
use slurmlite.Scheduling.Resources.{select_gang}
use slurmlite.Scheduling.Schedule.{Scheduler, send_out, start_gang, place_gang, try_schedule}
use slurmlite.Prelude.{
  pos, Time, lookup, ok, true, some_inj, String, List, [], ◌∷◌, length, Option, none, some, ◌≡◌,
  ◌≢◌, refl, sym, ap, ◌∙◌, inl, inr, ℕ, ◌+◌, arith, In,
}

module _ (d : Dispatcher) where
  -- The dispatcher takes what is sent to a node of the list.
  abbrev pub Takes : List String → Type 0
  Takes ids =
      (id : String) → In id ids → (s : d.Mailbox) (a : Assignment) → (d.dispatch s id a).1 ≡ none

  dispatch_from-none :
      (ids : List String) (s : d.Mailbox) (j : Job) (n rank : ℕ)
      → Takes ids
      → (dispatch_from d s j n rank ids).1 ≡ none
  unfolding dispatch_from
  dispatch_from-none [] s j n rank t = refl
  dispatch_from-none (id ∷ ids) s j n rank t =
      let sent = d.dispatch s id (assignment_for j (pos rank) (pos n)) in
      rw (t id (inl refl) s (assignment_for j (pos rank) (pos n)), dispatch_from)
        (dispatch_from-none ids sent.0 j n (rank + 1) (λ k i. t k (inr i)))

  dispatch_work-none :
      (s : Option d.Mailbox) (j : Job) (ids : List String)
      → Takes ids
      → (dispatch_work d s j ids).1 ≡ none
  unfolding dispatch_work
  dispatch_work-none none j ids t = refl
  dispatch_work-none (some s) j ids t = dispatch_from-none ids s j (length ids) 0 t

  send_out-true :
      (s : Scheduler d) (j : Job) (ids : List String) (now : Time)
      → Takes ids
      → (send_out d s j ids now).1 ≡ true
  unfolding send_out
  send_out-true s j ids now t = rw (dispatch_work-none s.dispatch j ids t, send_out) refl

  pub mark_running_accepts :
      (m : JobManager) (id : String) (j : Job) (ids : List String) (now : Time)
      → lookup id m.jobs ≡ some j
      → j.status ≡ pending
      → (mark_running m id ids now).1 ≡ ok tt
  unfolding mark_running
  mark_running_accepts m id j ids now e p = elim (mark_running-Cases j ids now) [
    | inl (_, q) ↦ rw (e, q, mark_running) refl
    | inr (n, q) ↦ absurd (n p)
  ]

  start_gang_starts :
      (s : Scheduler d) (c : Job) (ids : List String) (now : Time)
      → (mark_running s.job_manager c.id ids now).1 ≡ ok tt
      → Takes ids
      → (start_gang d s c ids now).1 ≡ true
  unfolding start_gang
  start_gang_starts s c ids now e t = rw (e, start_gang) (send_out-true _ c ids now t)

  pub place_gang_places :
      (s : Scheduler d) (c : Job) (ids : List String) (now : Time)
      → (reserve_nodes s.registry c.id ids c.spec.resources.cpus_per_node).1 ≡ ok tt
      → (mark_running s.job_manager c.id ids now).1 ≡ ok tt
      → Takes ids
      → (place_gang d s c ids now).1 ≡ true
  unfolding place_gang
  place_gang_places s c ids now r e t = rw (r, place_gang) (start_gang_starts _ c ids now e t)

first-In : (xs : List String) (a : String) → first xs ≡ some a → In a xs
unfolding first
first-In [] a h = absurd (ground (arith, h))
first-In (x ∷ xs) a h = inl (some_inj h)

pub peek-In : (m : JobManager) (id : String) → peek_pending m ≡ some id → In id m.pending
unfolding peek_pending
peek-In m id h = first-In m.pending id h

-- Where the invariants of the registry and of the job manager hold, if the head of the queue has a
-- name, a gang for it can be chosen, and the dispatcher takes what is sent to its nodes, then the
-- scheduling step starts the job: nothing that the step calls refuses it.
pub try_schedule_progress :
    (d : Dispatcher) (s : Scheduler d) (now : Time) (id : String) (j : Job) (ids : List String)
    → Registered.Inv s.registry
    → Managed.Inv s.job_manager
    → peek_pending s.job_manager ≡ some id
    → id ≢ ""
    → lookup id s.job_manager.jobs ≡ some j
    → select_gang (list_nodes s.registry) j.spec.resources ≡ some ids
    → Takes d ids
    → (try_schedule d s now).1 ≡ true
unfolding try_schedule peek_pending_job clone_job
try_schedule_progress d s now id j ids v w hd n st g t =
    let (k, q, p) = w.waiting id (peek-In s.job_manager id hd) in
    rw (hd, st, g, try_schedule, peek_pending_job)
      (place_gang_places d s (clone_job j) ids now
        (select_gang_reservable s.registry j.spec.resources j.id ids v named g)
        (mark_running_accepts d s.job_manager j.id j ids now
          (ap (λ k. lookup k s.job_manager.jobs) (w.keyed id j st) ∙ st)
          (ap (λ (x : Job). x.status) (some_inj (sym st ∙ q)) ∙ p))
        t)
  where
    named : j.id ≢ ""
    named e = n (sym (w.keyed id j st) ∙ e)
