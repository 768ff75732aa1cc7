-- ===== src/System/Placement/Steps.antt =====
-- A step of the scheduler (internal/scheduler/scheduler.go) changes nothing or starts a job, and
-- keeps the controller's invariant.
use slurmlite.Cluster.Gangs.{reserve_nodes-Inv}
use slurmlite.Cluster.Invariant as Registered
use slurmlite.Cluster.Invariant.{IsCount}
use slurmlite.Cluster.Registry.{list_nodes}
use slurmlite.Cluster.Reservations.{reserve_nodes}
use slurmlite.Controller.Hub.{Hub}
use slurmlite.Controller.Server.{Server}
use slurmlite.Controller.Wiring.{hub_dispatcher, dispatch_accepts}
use slurmlite.Jobs.Changes.{mark_running}
use slurmlite.Jobs.Invariant as Managed
use slurmlite.Jobs.Manager.{clone_job}
use slurmlite.Jobs.Model.{Job, pending}
use slurmlite.Protocol.{WellKnown}
use slurmlite.Scheduling.AllOrNothing.{try_schedule_cases, place_gang-true}
use slurmlite.Scheduling.Placed.{peek_pending_job_inv}
use slurmlite.Scheduling.Dispatch.{dispatch_work}
use slurmlite.Scheduling.Gang.{IsGang, select_gang-IsGang, select_gang_reservable}
use slurmlite.Scheduling.Progress.{mark_running_accepts, place_gang_places, peek-In}
use slurmlite.Scheduling.Resources.{select_gang}
use slurmlite.Scheduling.Schedule.{Scheduler, place_gang, try_schedule}
use slurmlite.System.Assignment.{starts-Coupled}
use slurmlite.System.Controller.{scheduler_of, after_scheduling, schedule}
use slurmlite.System.Coupling.{Coupled}
use slurmlite.System.Invariant.{Inv}
use slurmlite.Prelude.{
  Time, Map, lookup, ok, true, false, some_inj, String, List, length, Option, some, ◌≡◌, ◌≢◌, refl,
  sym, ap, subst, ◌∙◌, ◌⊎◌, inl, inr,
}
use slurmlite.System.Placement.{
  Posted, dispatch_from-Inv, mark_running-Inv, mark_running_jobs, place_gang_mailbox,
  reserves-Takes,
}

-- What a step that starts a job has done.
pub record Starting (w : WellKnown) (c c' : Scheduler (hub_dispatcher w)) (now : Time)
    : Type 0 where
  pub id : String
  pub j : Job
  pub ids : List String
  pub stored : lookup id c.job_manager.jobs ≡ some j
  pub was_pending : j.status ≡ pending
  pub gang : IsGang c.registry j.spec.resources ids
  pub granted : (reserve_nodes c.registry id ids j.spec.resources.cpus_per_node).1 ≡ ok tt
  pub nodes : c'.registry ≡ (reserve_nodes c.registry id ids j.spec.resources.cpus_per_node).0
  pub jobs : c'.job_manager ≡ (mark_running c.job_manager id ids now).0
  pub mailbox : Posted c'.dispatch

module _ (w : WellKnown) where
  dispatch_work-Posted :
      (o : Option (Hub w.DurationMessage)) (j : Job) (ids : List String)
      → Posted o
      → Posted (dispatch_work (hub_dispatcher w) o j ids).0
  unfolding dispatch_work
  dispatch_work-Posted o j ids (h, e, v) =
      rw (e, dispatch_work) (_, refl, dispatch_from-Inv w ids h j (length ids) 0 v)

  places-Starting :
      (c : Scheduler (hub_dispatcher w)) (id : String) (j : Job) (ids : List String) (now : Time)
      → Registered.Inv c.registry
      → Posted c.dispatch
      → id ≢ ""
      → j.id ≡ id
      → lookup id c.job_manager.jobs ≡ some j
      → j.status ≡ pending
      → select_gang (list_nodes c.registry) j.spec.resources ≡ some ids
      → Starting w c (place_gang (hub_dispatcher w) c (clone_job j) ids now).0 now
        × ((place_gang (hub_dispatcher w) c (clone_job j) ids now).1 ≡ true)
  unfolding clone_job
  places-Starting c id j ids now v b n k e p g =
      let d = hub_dispatcher w in
      let gang = select_gang-IsGang c.registry j.spec.resources ids v g in
      let granted =
        select_gang_reservable c.registry j.spec.resources j.id ids v (λ z. n (sym k ∙ z)) g in
      let started =
        mark_running_accepts d c.job_manager j.id j ids now
          (ap (λ x. lookup x c.job_manager.jobs) k ∙ e) p in
      let yes_it_does = place_gang_places d c (clone_job j) ids now granted started (λ i h m a.
        dispatch_accepts w m i a (v.sound i (gang.free i h).0 (gang.free i h).1).named) in
      let (_, _, reg, man) = place_gang-true d c (clone_job j) ids now yes_it_does in
      (
        record {
          id = id;
          j = j;
          ids = ids;
          stored = e;
          was_pending = p;
          gang = gang;
          granted =
              ap (λ x. (reserve_nodes c.registry x ids j.spec.resources.cpus_per_node).1) (sym k)
              ∙ granted;
          nodes =
              reg ∙ ap (λ x. (reserve_nodes c.registry x ids j.spec.resources.cpus_per_node).0) k;
          jobs = man ∙ ap (λ x. (mark_running c.job_manager x ids now).0) k;
          mailbox =
              subst Posted (sym (place_gang_mailbox w c (clone_job j) ids now yes_it_does))
                (dispatch_work-Posted c.dispatch (clone_job j) ids b);
        },
        yes_it_does,
      )

  pub try_schedule-Starting :
      (c : Scheduler (hub_dispatcher w)) (now : Time)
      → Registered.Inv c.registry
      → Managed.Inv c.job_manager
      → Posted c.dispatch
      → ((id : String) (j : Job) → lookup id c.job_manager.jobs ≡ some j → id ≢ "")
      → (try_schedule (hub_dispatcher w) c now ≡ (c, false))
        ⊎ (((try_schedule (hub_dispatcher w) c now).1 ≡ true)
            × Starting w c (try_schedule (hub_dispatcher w) c now).0 now)
  unfolding clone_job
  try_schedule-Starting c now v m b named = elim (try_schedule_cases (hub_dispatcher w) c now) [
    | inl e ↦ inl e
    | inr (copy, ids, p, q, e) ↦
        let (id, j, hd, st, ce) = peek_pending_job_inv c.job_manager copy p in
        let (j', st', pend) = m.waiting id (peek-In c.job_manager id hd) in
        let (x, t) =
          places-Starting c id j ids now v b (named id j st) (m.keyed id j st) st
            (ap (λ (y : Job). y.status) (some_inj (sym st ∙ st')) ∙ pend)
            (ap (λ (y : Job). select_gang (list_nodes c.registry) y.spec.resources) (sym ce) ∙ q) in
        let same = e ∙ ap (λ y. place_gang (hub_dispatcher w) c y ids now) ce in
        inr (ap (λ o. o.1) same ∙ t, subst (λ o. Starting w c o.0 now) (sym same) x)
  ]

  pub Starting-Inv :
      (s : Server w) (c' : Scheduler (hub_dispatcher w)) (now : Time)
      → Inv s
      → Starting w (scheduler_of w s) c' now
      → Inv (after_scheduling w s c')
  unfolding scheduler_of after_scheduling
  Starting-Inv s c' now v x =
      let (h, e, u) = x.mailbox in
      let cpus = x.j.spec.resources.cpus_per_node in
      rw (x.nodes, x.jobs, e, after_scheduling)
        (record {
          service = record {
            jobs = mark_running-Inv s.jobs x.id x.ids now v.service.jobs;
            mailboxes = u;
          };
          registry = reserve_nodes-Inv s.registry x.id x.ids cpus v.registry x.gang.distinct;
          coupled =
              subst (λ (y : Map Job). Coupled y (reserve_nodes s.registry x.id x.ids cpus).0.nodes)
                (sym (mark_running_jobs s.jobs x.id x.j x.ids now x.stored x.was_pending))
                (starts-Coupled s.jobs.jobs s.registry.nodes _ x.id x.j x.ids now v.coupled x.stored
                  x.was_pending x.gang.distinct x.gang.exact
                  (reserves-Takes s.registry x.id x.ids cpus v.registry x.gang.distinct x.gang.free
                    v.coupled.unused x.granted));
        })

  pub schedule-Inv : (s : Server w) (now : Time) → Inv s → Inv (schedule w s now).0
  unfolding schedule scheduler_of after_scheduling
  schedule-Inv s now v =
      elim (try_schedule-Starting (scheduler_of w s) now v.registry v.service.jobs
        (s.hub, refl, v.service.mailboxes) v.coupled.named) [
          | inl e ↦ rw (e, schedule) v
          | inr (_, x) ↦ Starting-Inv s _ now v x
        ]
