-- ===== src/Jobs/Invariant/Reports.antt =====
-- The invariant where a node's report is noted, and where a running job ends.
use slurmlite.Jobs.Changes.{reports_of}
use slurmlite.Jobs.Effects.{ended_job, IsFinal}
use slurmlite.Jobs.Invariant.{Inv}
use slurmlite.Jobs.Manager.{JobManager, NodeReport, assigned_in}
use slurmlite.Jobs.Model.{Job, Status, running}
use slurmlite.Prelude.{
  ℤ, Time, Map, lookup, insert, delete, HasUniqueKeys, lookup-insert, lookup-insert_ne,
  lookup-delete, lookup-insert_inv, insert-HasUniqueKeys, dec_string, true, false, Option-cases,
  String, some, ◌≡◌, ◌≢◌, refl, sym, ap, subst, ◌∙◌, inl, inr, arith,
}
use slurmlite.Jobs.Invariant.Queue.{
  no_entry, replaced_keyed, stayed_waiting, stayed_listed, other_reporting,
}

module _ {m : JobManager} (v : Inv m) where
  pub ended-Inv :
      (id : String) (j : Job) (s : Status) (code : ℤ) (msg : String) (now : Time)
      → lookup id m.jobs ≡ some j
      → j.status ≡ running
      → IsFinal s
      → Inv (record m {
        jobs = insert id (ended_job j s code msg now) m.jobs;
        reports = delete id m.reports;
      })
  ended-Inv id j s code msg now found p final = record {
    unique = insert-HasUniqueKeys id j' m.jobs v.unique;
    keyed = replaced_keyed v id j j' found refl;
    waiting = λ k. stayed_waiting v id j j' found refl k (λ e. cc);
    listed = λ k i. stayed_listed v id j j' found refl k i (λ e. ground arith);
    distinct = v.distinct;
    reporting =
        λ k rs h. other_reporting v id j j' found refl k rs (not_ended k rs h) (kept k rs h);
    reporters = λ k rs h. v.reporters k rs (kept k rs h);
    reports_assigned = λ k n rs i r h e.
        v.reports_assigned k n rs i r (kept k rs h)
          (sym (lookup-insert_ne id k j' m.jobs (not_ended k rs h)) ∙ e);
  }
    where
      j' : Job
      j' = ended_job j s code msg now

      not_ended :
          (k : String) (rs : Map NodeReport) → lookup k (delete id m.reports) ≡ some rs → id ≢ k
      not_ended k rs h = ground (arith, lookup-delete id k m.reports)

      kept :
          (k : String) (rs : Map NodeReport)
          → lookup k (delete id m.reports) ≡ some rs
          → lookup k m.reports ≡ some rs
      kept k rs h = ground (arith, lookup-delete id k m.reports)

  -- The reports of a job, whether or not their map was there.
  pub reports_of_unique : (id : String) → HasUniqueKeys (reports_of m id)
  unfolding reports_of
  reports_of_unique id = elim (Option-cases (lookup id m.reports)) [
    | inl e ↦ rw (e, reports_of) tt
    | inr (rs, e) ↦ rw (e, reports_of) (v.reporters id rs e)
  ]

  pub reports_of_assigned :
      (id node_id : String) (j : Job) (r : NodeReport)
      → lookup id m.jobs ≡ some j
      → lookup node_id (reports_of m id) ≡ some r
      → (assigned_in j.assigned_node_ids node_id ≡ true) × (r.failed ≡ false)
  unfolding reports_of
  reports_of_assigned id node_id j r e h = elim (Option-cases (lookup id m.reports)) [
    | inl x ↦ absurd (no_entry node_id r (rw (x, reports_of) at h))
    | inr (rs, x) ↦ v.reports_assigned id node_id rs j r x e (rw (x, reports_of) at h)
  ]

  pub noted-Inv :
      (id node_id : String) (j : Job) (r : NodeReport)
      → lookup id m.jobs ≡ some j
      → j.status ≡ running
      → assigned_in j.assigned_node_ids node_id ≡ true
      → r.failed ≡ false
      → Inv (record m { reports = insert id (insert node_id r (reports_of m id)) m.reports })
  noted-Inv id node_id j r found p a f = record {
    unique = v.unique;
    keyed = v.keyed;
    waiting = v.waiting;
    listed = v.listed;
    distinct = v.distinct;
    reporting = λ k rs h. elim (dec_string id k) [
      | yes e ↦ (j, ap (λ x. lookup x m.jobs) (sym e) ∙ found, p)
      | no n ↦ v.reporting k rs (sym (lookup-insert_ne id k new m.reports n) ∙ h)
    ];
    reporters = λ k rs h. elim (dec_string id k) [
      | yes e ↦
          subst (HasUniqueKeys {V = NodeReport}) (lookup-insert_inv id k new m.reports e h)
            (insert-HasUniqueKeys node_id r (reports_of m id) (reports_of_unique id))
      | no n ↦ v.reporters k rs (sym (lookup-insert_ne id k new m.reports n) ∙ h)
    ];
    reports_assigned = λ k n rs i q h e l. elim (dec_string id k) [
      | yes x ↦ new_assigned n i q (ap (λ y. lookup y m.jobs) x ∙ e) (
          subst (λ (y : Map NodeReport). lookup n y ≡ some q)
            (sym (lookup-insert_inv id k new m.reports x h)) l)
      | no x ↦ v.reports_assigned k n rs i q (sym (lookup-insert_ne id k new m.reports x) ∙ h) e l
    ];
  }
    where
      new : Map NodeReport
      new = insert node_id r (reports_of m id)

      new_assigned :
          (n : String) (i : Job) (q : NodeReport)
          → lookup id m.jobs ≡ some i
          → lookup n new ≡ some q
          → (assigned_in i.assigned_node_ids n ≡ true) × (q.failed ≡ false)
      new_assigned n i q e l = elim (dec_string node_id n) [
        | yes x ↦ ground (arith, lookup-insert node_id n r (reports_of m id))
        | no x ↦
            reports_of_assigned id n i q e
              (sym (lookup-insert_ne node_id n r (reports_of m id) x) ∙ l)
      ]
