-- ===== src/Scheduling/AllOrNothing.antt =====
-- The gang guarantee of `trySchedule`: the head of the queue gets its whole gang, or the registry
-- is left as it was.
use slurmlite.Cluster.Gangs.{reserve_error_unchanged, release-reserve}
use slurmlite.Cluster.Invariant as Registered
use slurmlite.Cluster.Registry.{Registry, list_nodes}
use slurmlite.Cluster.Reservations.{reserve_nodes, release_nodes}
use slurmlite.Jobs.Changes.{mark_running}
use slurmlite.Jobs.Manager.{peek_pending_job}
use slurmlite.Jobs.Model.{Job}
use slurmlite.Scheduling.Dispatch.{Dispatcher}
use slurmlite.Scheduling.Gang.{select_gang-IsGang}
use slurmlite.Scheduling.Resources.{select_gang}
use slurmlite.Scheduling.Schedule.{Scheduler, send_out, start_gang, place_gang, try_schedule}
use slurmlite.Prelude.{
  Time, lookup, ok, true, false, Option-cases, Result-cases, String, List, some, ◌≡◌, refl, sym, ap,
  ◌∙◌, ◌⊎◌, inl, inr, arith, Distinct,
}

-- Two registries hold the same nodes.
abbrev pub SameNodes : Registry → Registry → Type 0
SameNodes r r' = (k : String) → lookup k r.nodes ≡ lookup k r'.nodes

module _ (d : Dispatcher) where
  start_gang-false :
      (s : Scheduler d) (j : Job) (ids : List String) (now : Time)
      → (start_gang d s j ids now).1 ≡ false
      → (start_gang d s j ids now).0.registry
        ≡ release_nodes s.registry ids j.spec.resources.cpus_per_node
  unfolding start_gang send_out
  start_gang-false s j ids now h = ground arith

  start_gang-true :
      (s : Scheduler d) (j : Job) (ids : List String) (now : Time)
      → (start_gang d s j ids now).1 ≡ true
      → ((start_gang d s j ids now).0.registry ≡ s.registry)
        × ((start_gang d s j ids now).0.job_manager ≡ (mark_running s.job_manager j.id ids now).0)
        × ((mark_running s.job_manager j.id ids now).1 ≡ ok tt)
  unfolding start_gang send_out
  start_gang-true s j ids now h = ground arith

  pub place_gang_cases :
      (s : Scheduler d) (j : Job) (ids : List String) (now : Time)
      → let cpus = j.spec.resources.cpus_per_node in
        let (r, result) = reserve_nodes s.registry j.id ids cpus in
        ((result ≡ ok tt)
          × (place_gang d s j ids now ≡ start_gang d (record s { registry = r }) j ids now))
        ⊎ ((r ≡ s.registry) × (place_gang d s j ids now ≡ (record s { registry = r }, false)))
  unfolding place_gang
  place_gang_cases s j ids now =
      let cpus = j.spec.resources.cpus_per_node in
      elim (Result-cases (reserve_nodes s.registry j.id ids cpus).1) [
        | inl (tt, e) ↦ inl (e, rw (e, place_gang) refl)
        | inr (x, e) ↦
            inr (reserve_error_unchanged s.registry j.id ids cpus e, rw (e, place_gang) refl)
      ]

  place_gang-false :
      (s : Scheduler d) (j : Job) (ids : List String) (now : Time)
      → Registered.Inv s.registry
      → Distinct ids
      → (place_gang d s j ids now).1 ≡ false
      → SameNodes (place_gang d s j ids now).0.registry s.registry
  place_gang-false s j ids now v u h k =
      let cpus = j.spec.resources.cpus_per_node in
      elim (place_gang_cases s j ids now) [
        | inl (q, e) ↦
            ap (λ o. lookup k o.0.registry.nodes) e
            ∙ ap (λ (r : Registry). lookup k r.nodes)
                (start_gang-false
                  (record s { registry = (reserve_nodes s.registry j.id ids cpus).0 }) j ids now
                  (ap (λ o. o.1) (sym e) ∙ h))
            ∙ release-reserve s.registry j.id ids cpus v u q k
        | inr (q, e) ↦
            ap (λ o. lookup k o.0.registry.nodes) e ∙ ap (λ (r : Registry). lookup k r.nodes) q
      ]

  pub place_gang-true :
      (s : Scheduler d) (j : Job) (ids : List String) (now : Time)
      → (place_gang d s j ids now).1 ≡ true
      → ((reserve_nodes s.registry j.id ids j.spec.resources.cpus_per_node).1 ≡ ok tt)
        × ((mark_running s.job_manager j.id ids now).1 ≡ ok tt)
        × ((place_gang d s j ids now).0.registry
            ≡ (reserve_nodes s.registry j.id ids j.spec.resources.cpus_per_node).0)
        × ((place_gang d s j ids now).0.job_manager ≡ (mark_running s.job_manager j.id ids now).0)
  place_gang-true s j ids now h =
      let cpus = j.spec.resources.cpus_per_node in
      elim (place_gang_cases s j ids now) [
        | inl (q, e) ↦
            let (a, b, c) =
              start_gang-true (record s { registry = (reserve_nodes s.registry j.id ids cpus).0 }) j
                ids now (ap (λ o. o.1) (sym e) ∙ h) in
            (q, c, ap (λ o. o.0.registry) e ∙ a, ap (λ o. o.0.job_manager) e ∙ b)
        | inr (q, e) ↦ absurd (ground (arith, e, h))
      ]

  pub try_schedule_cases :
      (s : Scheduler d) (now : Time)
      → (try_schedule d s now ≡ (s, false))
        ⊎ ((j : Job) × (ids : List String) × (peek_pending_job s.job_manager ≡ some j)
            × (select_gang (list_nodes s.registry) j.spec.resources ≡ some ids)
            × (try_schedule d s now ≡ place_gang d s j ids now))
  unfolding try_schedule
  try_schedule_cases s now = elim (Option-cases (peek_pending_job s.job_manager)) [
    | inl e ↦ inl (rw (e, try_schedule) refl)
    | inr (j, e) ↦ elim (Option-cases (select_gang (list_nodes s.registry) j.spec.resources)) [
      | inl q ↦ inl (rw (e, q, try_schedule) refl)
      | inr (ids, q) ↦ inr (j, ids, e, q, rw (e, q, try_schedule) refl)
    ]
  ]

-- Where the registry's invariant holds, a scheduling step that reports no progress leaves every node
-- as it was: a gang is never held in
-- part, whether the gang does not fit, a reservation or the start is refused, or an assignment
-- cannot be sent.
pub try_schedule_all_or_nothing :
    (d : Dispatcher) (s : Scheduler d) (now : Time)
    → Registered.Inv s.registry
    → (try_schedule d s now).1 ≡ false
    → SameNodes (try_schedule d s now).0.registry s.registry
try_schedule_all_or_nothing d s now v h k = elim (try_schedule_cases d s now) [
  | inl e ↦ ap (λ o. lookup k o.0.registry.nodes) e
  | inr (j, ids, p, q, e) ↦
      ap (λ o. lookup k o.0.registry.nodes) e
      ∙ place_gang-false d s j ids now v
          (select_gang-IsGang s.registry j.spec.resources ids v q).distinct
          (ap (λ o. o.1) (sym e) ∙ h) k
]
