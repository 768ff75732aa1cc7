-- ===== src/Jobs/Invariant/Queue.antt =====
-- The invariant where a job enters the queue or leaves it.
use slurmlite.Jobs.Effects.{started_job, withdrawn_job}
use slurmlite.Jobs.Invariant.{Inv}
use slurmlite.Jobs.Manager.{JobManager, NodeReport, remove_first}
use slurmlite.Jobs.Model.{Job, pending, running}
use slurmlite.Jobs.Pending.{
  In-remove_first, In-remove_first_ne, not-In-remove_first, remove_first-Distinct,
}
use slurmlite.Prelude.{
  Time, Map, lookup, insert, HasUniqueKeys, lookup-insert, lookup-insert_ne, lookup-insert_inv,
  insert-HasUniqueKeys, dec_string, String, List, [], ◌∷◌, ◌++◌, none, some, ◌≡◌, ◌≢◌, refl, sym,
  subst, ◌∙◌, inl, inr, arith, In, In-append_left, In-append_right, In-append_cases, Distinct-snoc,
}

pub no_entry : (n : String) (r : NodeReport) → lookup n [] ≢ some r
unfolding lookup
no_entry n r h = cc

module _ {m : JobManager} (v : Inv m) where
  pub queued-Inv :
      (j : Job)
      → j.status ≡ pending
      → lookup j.id m.jobs ≡ none
      → Inv (record m { jobs = insert j.id j m.jobs; pending = m.pending ++ j.id ∷ [] })
  queued-Inv j p new = record {
    unique = insert-HasUniqueKeys j.id j m.jobs v.unique;
    keyed = λ id k h. ground (arith, lookup-insert j.id id j m.jobs, v.keyed id k);
    waiting = λ id h. elim (In-append_cases id m.pending (j.id ∷ []) h) [
      | inl old ↦
          let (k, e, s) = v.waiting id old in (k, ground (arith, lookup-insert j.id id j m.jobs), s)
      | inr (inl e) ↦ (j, ground (arith, lookup-insert j.id id j m.jobs), p)
      | inr (inr f) ↦ absurd f
    ];
    listed = λ id k h s. elim (dec_string j.id id) [
      | yes e ↦ In-append_right id m.pending (j.id ∷ []) (inl e)
      | no n ↦
          In-append_left id m.pending (j.id ∷ [])
            (v.listed id k (ground (arith, lookup-insert j.id id j m.jobs)) s)
    ];
    distinct =
        Distinct-snoc m.pending j.id v.distinct (λ h. let (k, e, s) = v.waiting j.id h in cc);
    reporting = λ id rs h.
        let (k, e, s) = v.reporting id rs h in
        (k, ground (arith, lookup-insert j.id id j m.jobs), s);
    reporters = v.reporters;
    reports_assigned = λ id n rs k r h e q.
        let (k', e', s) = v.reporting id rs h in
        v.reports_assigned id n rs k r h (ground (arith, lookup-insert j.id id j m.jobs)) q;
  }

  -- A job `j` under `id` is replaced by `j'`, and leaves the queue: what follows for the queue.
  module _ (id : String) (j j' : Job) (found : lookup id m.jobs ≡ some j)
      (same : j'.id ≡ j.id) where
    pub replaced_keyed : (k : String) (i : Job) → lookup k (insert id j' m.jobs) ≡ some i → i.id ≡ k
    replaced_keyed k i h = ground (arith, lookup-insert id k j' m.jobs, v.keyed k i, v.keyed id j)

    left_waiting :
        (k : String)
        → In k (remove_first id m.pending)
        → (i : Job) × (lookup k (insert id j' m.jobs) ≡ some i) × (i.status ≡ pending)
    left_waiting k h =
        let (i, e, s) = v.waiting k (In-remove_first k id m.pending h) in
        elim (dec_string id k) [
          | yes p ↦ absurd (
              not-In-remove_first id m.pending v.distinct
                (subst (λ x. In x (remove_first id m.pending)) (sym p) h))
          | no n ↦ (i, lookup-insert_ne id k j' m.jobs n ∙ e, s)
        ]

    left_listed :
        (k : String) (i : Job)
        → j'.status ≢ pending
        → lookup k (insert id j' m.jobs) ≡ some i
        → i.status ≡ pending
        → In k (remove_first id m.pending)
    left_listed k i moved h s = elim (dec_string id k) [
      | yes p ↦ absurd (moved (ground (arith, lookup-insert id k j' m.jobs)))
      | no n ↦
          In-remove_first_ne k id m.pending n
            (v.listed k i (sym (lookup-insert_ne id k j' m.jobs n) ∙ h) s)
    ]

    -- The job was not pending: the queue stays.
    pub stayed_waiting :
        (k : String)
        → j.status ≢ pending
        → In k m.pending
        → (i : Job) × (lookup k (insert id j' m.jobs) ≡ some i) × (i.status ≡ pending)
    stayed_waiting k n h =
        let (i, e, s) = v.waiting k h in (i, ground (arith, lookup-insert id k j' m.jobs), s)

    pub stayed_listed :
        (k : String) (i : Job)
        → j'.status ≢ pending
        → lookup k (insert id j' m.jobs) ≡ some i
        → i.status ≡ pending
        → In k m.pending
    stayed_listed k i moved h s = v.listed k i (ground (arith, lookup-insert id k j' m.jobs)) s

    -- Reports of another job than `id` are not touched.
    pub other_reporting :
        (k : String) (rs : Map NodeReport)
        → id ≢ k
        → lookup k m.reports ≡ some rs
        → (i : Job) × (lookup k (insert id j' m.jobs) ≡ some i) × (i.status ≡ running)
    other_reporting k rs n h =
        let (i, e, s) = v.reporting k rs h in (i, lookup-insert_ne id k j' m.jobs n ∙ e, s)

  pub started-Inv :
      (id : String) (j : Job) (node_ids : List String) (now : Time)
      → lookup id m.jobs ≡ some j
      → j.status ≡ pending
      → Inv (record m {
        jobs = insert id (started_job j node_ids now) m.jobs;
        pending = remove_first id m.pending;
        reports = insert id [] m.reports;
      })
  started-Inv id j node_ids now found p = record {
    unique = insert-HasUniqueKeys id j' m.jobs v.unique;
    keyed = replaced_keyed id j j' found refl;
    waiting = left_waiting id j j' found refl;
    listed = λ k i. left_listed id j j' found refl k i (λ e. cc);
    distinct = remove_first-Distinct id m.pending v.distinct;
    reporting = λ k rs h. elim (dec_string id k) [
      | yes e ↦ (j', ground (arith, lookup-insert id k j' m.jobs), refl)
      | no n ↦
          other_reporting id j j' found refl k rs n (sym (lookup-insert_ne id k [] m.reports n) ∙ h)
    ];
    reporters = λ k rs h. elim (dec_string id k) [
      | yes e ↦ subst (HasUniqueKeys {V = NodeReport}) (lookup-insert_inv id k [] m.reports e h) tt
      | no n ↦ v.reporters k rs (sym (lookup-insert_ne id k [] m.reports n) ∙ h)
    ];
    reports_assigned = λ k n rs i r h e q. elim (dec_string id k) [
      | yes x ↦ absurd (
          no_entry n r (
            subst (λ (y : Map NodeReport). lookup n y ≡ some r)
              (sym (lookup-insert_inv id k [] m.reports x h)) q))
      | no x ↦
          v.reports_assigned k n rs i r (sym (lookup-insert_ne id k [] m.reports x) ∙ h)
            (sym (lookup-insert_ne id k j' m.jobs x) ∙ e) q
    ];
  }
    where
      j' : Job
      j' = started_job j node_ids now

  pub withdrawn-Inv :
      (id : String) (j : Job) (now : Time)
      → lookup id m.jobs ≡ some j
      → j.status ≡ pending
      → Inv (record m {
        jobs = insert id (withdrawn_job j now) m.jobs;
        pending = remove_first id m.pending;
      })
  withdrawn-Inv id j now found p = record {
    unique = insert-HasUniqueKeys id j' m.jobs v.unique;
    keyed = replaced_keyed id j j' found refl;
    waiting = left_waiting id j j' found refl;
    listed = λ k i. left_listed id j j' found refl k i (λ e. cc);
    distinct = remove_first-Distinct id m.pending v.distinct;
    reporting = λ k rs h. other_reporting id j j' found refl k rs (not_reported k rs h) h;
    reporters = v.reporters;
    reports_assigned = λ k n rs i r h e.
        v.reports_assigned k n rs i r h
          (sym (lookup-insert_ne id k j' m.jobs (not_reported k rs h)) ∙ e);
  }
    where
      j' : Job
      j' = withdrawn_job j now

      not_reported : (k : String) (rs : Map NodeReport) → lookup k m.reports ≡ some rs → id ≢ k
      not_reported k rs h e = let (i, e', s) = v.reporting k rs h in ground arith
