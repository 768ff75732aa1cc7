-- ===== src/System/Placement.antt =====
-- A scheduling step of internal/scheduler/scheduler.go, with the hub as the dispatcher, keeps jobs
-- and nodes together: either it changes nothing, or it starts the head of the queue on its gang.
pub mod Steps
use slurmlite.Cluster.Gangs.{reserved, reserve_exact, reserve_nodes-Inv, reserve_others}
use slurmlite.Cluster.Invariant as Registered
use slurmlite.Cluster.Invariant.{IsCount}
use slurmlite.Cluster.Invariant.Gangs.{AllFree}
use slurmlite.Cluster.Registry.{Node, Registry, list_nodes}
use slurmlite.Cluster.Reservations.{reserve_nodes}
use slurmlite.Controller.Channels as Channels
use slurmlite.Controller.History.{dispatch-Inv}
use slurmlite.Controller.Hub.{Hub, dispatch}
use slurmlite.Controller.Server.{Server}
use slurmlite.Controller.Wiring.{hub_dispatcher, dispatch_accepts}
use slurmlite.Jobs.Changes.{mark_running}
use slurmlite.Jobs.Effects.{step, marks_running, started_job}
use slurmlite.Jobs.Invariant as Managed
use slurmlite.Jobs.Invariant.Kept.{step-Inv}
use slurmlite.Jobs.Manager.{JobManager, clone_job}
use slurmlite.Jobs.Model.{Job, pending}
use slurmlite.Jobs.Transitions.{mark_running-Cases}
use slurmlite.Protocol.{WellKnown}
use slurmlite.Scheduling.AllOrNothing.{try_schedule_cases, place_gang-true, place_gang_cases}
use slurmlite.Scheduling.Placed.{peek_pending_job_inv}
use slurmlite.Scheduling.Dispatch.{assignment_for, dispatch_from, dispatch_work}
use slurmlite.Scheduling.Gang.{IsGang, select_gang-IsGang, select_gang_reservable}
use slurmlite.Scheduling.Progress.{mark_running_accepts, place_gang_places, peek-In}
use slurmlite.Scheduling.Resources.{select_gang}
use slurmlite.Scheduling.Schedule.{Scheduler, send_out, start_gang, place_gang, try_schedule}
use slurmlite.System.Assignment.{Takes, starts-Coupled}
use slurmlite.System.Controller.{scheduler_of, after_scheduling, schedule}
use slurmlite.System.Coupling.{Coupled}
use slurmlite.System.Invariant.{Inv}
use slurmlite.Prelude.{
  ℤ, pos, Time, Map, lookup, insert, ok, if_pos, true, false, Option-cases, some_inj, dec_In,
  String, List, [], ◌∷◌, length, Option, some, ◌≡◌, ◌≢◌, refl, sym, ap, subst, ◌∙◌, ◌⊎◌, inl, inr,
  ℕ, ◌+◌, arith, Distinct, ◌+ℤ◌, int_laws,
}

-- The hub of a scheduler, in order.
abbrev pub Posted : {D : Type 0} → Option (Hub D) → Type 0
Posted {D} o = (h : Hub D) × (o ≡ some h) × Channels.Inv h

module _ (w : WellKnown) where
  pub dispatch_from-Inv :
      (ids : List String) (h : Hub w.DurationMessage) (j : Job) (n rank : ℕ)
      → Channels.Inv h
      → Channels.Inv (dispatch_from (hub_dispatcher w) h j n rank ids).0
  unfolding dispatch_from
  dispatch_from-Inv [] h j n rank v = v
  dispatch_from-Inv (id ∷ ids) h j n rank v =
      let a = assignment_for j (pos rank) (pos n) in
      let u = dispatch-Inv w h id a v in
      elim (Option-cases (dispatch w h id a).1) [
        | inl e ↦
            rw (e, dispatch_from) (dispatch_from-Inv ids (dispatch w h id a).0 j n (rank + 1) u)
        | inr (x, e) ↦ rw (e, dispatch_from) u
      ]

  start_gang_mailbox :
      (s : Scheduler (hub_dispatcher w)) (j : Job) (ids : List String) (now : Time)
      → (start_gang (hub_dispatcher w) s j ids now).1 ≡ true
      → (start_gang (hub_dispatcher w) s j ids now).0.dispatch
        ≡ (dispatch_work (hub_dispatcher w) s.dispatch j ids).0
  unfolding start_gang send_out
  start_gang_mailbox s j ids now h = ground arith

  pub place_gang_mailbox :
      (s : Scheduler (hub_dispatcher w)) (j : Job) (ids : List String) (now : Time)
      → (place_gang (hub_dispatcher w) s j ids now).1 ≡ true
      → (place_gang (hub_dispatcher w) s j ids now).0.dispatch
        ≡ (dispatch_work (hub_dispatcher w) s.dispatch j ids).0
  place_gang_mailbox s j ids now h = elim (place_gang_cases (hub_dispatcher w) s j ids now) [
    | inl (_, e) ↦
        ap (λ o. o.0.dispatch) e ∙ start_gang_mailbox _ j ids now (ap (λ o. o.1) (sym e) ∙ h)
    | inr (_, e) ↦ absurd (ground (arith, e, h))
  ]

pub mark_running_jobs :
    (m : JobManager) (id : String) (j : Job) (ids : List String) (now : Time)
    → lookup id m.jobs ≡ some j
    → j.status ≡ pending
    → (mark_running m id ids now).0.jobs ≡ insert id (started_job j ids now) m.jobs
unfolding mark_running
mark_running_jobs m id j ids now e p = elim (mark_running-Cases j ids now) [
  | inl (_, q) ↦ rw (e, q, mark_running) refl
  | inr (n, q) ↦ absurd (n p)
]

pub mark_running-Inv :
    (m : JobManager) (id : String) (ids : List String) (now : Time)
    → Managed.Inv m
    → Managed.Inv (mark_running m id ids now).0
unfolding step
mark_running-Inv m id ids now v = step-Inv m now (marks_running id ids) v

pub reserves-Takes :
    (r : Registry) (id : String) (ids : List String) (cpus : ℤ)
    → Registered.Inv r
    → Distinct ids
    → AllFree r ids cpus
    → ((k : String) (n : Node)
        → lookup k r.nodes ≡ some n
        → n.current_job_id ≡ ""
        → n.allocated_cpus ≡ pos 0)
    → (reserve_nodes r id ids cpus).1 ≡ ok tt
    → Takes r.nodes (reserve_nodes r id ids cpus).0.nodes id ids cpus
reserves-Takes r id ids cpus v d g idle h = record {
  gang = λ k i.
      let (n, e, f) = g k i in
      (
        n,
        e,
        f.idle,
        (
          reserved ids id cpus k n,
          reserve_exact r id ids cpus v d h k n e,
          ap (λ (x : Node). x.current_job_id) (if_pos (dec_In k ids) i _ _),
          ap (λ (x : Node). x.allocated_cpus) (if_pos (dec_In k ids) i _ _)
              ∙ ap (λ x. x +ℤ cpus) (idle k n e f.idle)
              ∙ omega int_laws,
        ),
      );
  others = λ k i. reserve_others r id k ids cpus h i;
}
