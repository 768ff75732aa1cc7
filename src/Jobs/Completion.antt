-- ===== src/Jobs/Completion.antt =====
-- When `ReportNodeEvent` ends a job: at the first failure, and otherwise when the last of the
-- assigned nodes has reported.
use slurmlite.Jobs.Changes
use slurmlite.Jobs.Changes.{put_reports, settle, record_report, reports_of, max_exit}
use slurmlite.Jobs.Invariant.{Inv}
use slurmlite.Jobs.Invariant.Reports.{reports_of_unique, reports_of_assigned}
use slurmlite.Jobs.Manager.{JobManager, NodeReport, assigned_node}
use slurmlite.Jobs.Model.{Job, running, completed}
use slurmlite.Jobs.Pending.{assigned_in→In, In→assigned_in}
use slurmlite.Jobs.Transitions.{mark_completed-Cases}
use slurmlite.Prelude.{
  ◌⊎◌, refl, ℤ, pos, ltb_ℤ, ltb, Time, Map, lookup, insert, HasUniqueKeys, lookup-insert,
  lookup-insert_self, lookup-insert_ne, insert-HasUniqueKeys, ok, dec_string, false, if◌then◌else◌,
  Bool-cases, KeysIn, Covers, Covers-of_length, length_of_Covers, String, [], ◌∷◌, length, none,
  some, ◌≡◌, ◌≢◌, sym, subst, ◌∙◌, inl, inr, arith, In, Distinct, ◌≤ℤ◌,
}

-- A node that is assigned to the running job `j` under `id` and has not reported reports `r`.
pub record Fresh (m : JobManager) (id node_id : String) (j : Job) : Type 0 where
  pub found : lookup id m.jobs ≡ some j
  pub is_running : j.status ≡ running
  pub assigned : In node_id j.assigned_node_ids
  pub unseen : lookup node_id (reports_of m id) ≡ none

abbrev pub with_report : JobManager → String → String → NodeReport → Map NodeReport
with_report m id node_id r = insert node_id r (reports_of m id)

report-settle :
    (m : JobManager) (id node_id : String) (j : Job) (r : NodeReport) (now : Time)
    → Fresh m id node_id j
    → let rs = with_report m id node_id r in
      Changes.report_node_event m id node_id r now ≡ settle (put_reports m id rs) id j rs r now
unfolding Changes.report_node_event assigned_node record_report
report-settle m id node_id j r now f =
    ground (arith, f.found, In→assigned_in j.assigned_node_ids node_id f.assigned, f.unseen)

module _ {m : JobManager} (v : Inv m) (id node_id : String) (j : Job) (r : NodeReport) (now : Time)
    (f : Fresh m id node_id j) where
  rs : Map NodeReport
  rs = with_report m id node_id r

  rs_unique : HasUniqueKeys rs
  unfolding rs
  rs_unique = insert-HasUniqueKeys node_id r (reports_of m id) (reports_of_unique v id)

  rs_in : KeysIn rs j.assigned_node_ids
  unfolding rs
  rs_in k q h = elim (dec_string node_id k) [
    | yes e ↦ subst (λ x. In x j.assigned_node_ids) e f.assigned
    | no n ↦
        assigned_in→In j.assigned_node_ids k
          (reports_of_assigned v id k j q f.found
            (sym (lookup-insert_ne node_id k r (reports_of m id) n) ∙ h)).0
  ]

-- Every other assigned node has reported.
abbrev pub OthersReported : JobManager → String → String → Job → Type 0
OthersReported m id node_id j =
    (n : String)
    → In n j.assigned_node_ids
    → node_id ≢ n
    → (q : NodeReport) × (lookup n (reports_of m id) ≡ some q)

-- The largest of 0 and the exit codes of the reports.
pub record IsLargest (e : ℤ) (rs : Map NodeReport) : Type 0 where
  pub from_zero : pos 0 ≤ℤ e
  pub bound : (n : String) (q : NodeReport) → lookup n rs ≡ some q → q.exit_code ≤ℤ e
  pub attained :
      (e ≡ pos 0) ⊎ ((n : String) × (q : NodeReport) × (lookup n rs ≡ some q) × (q.exit_code ≡ e))

max_exit-ge : (acc : ℤ) (m : Map NodeReport) → acc ≤ℤ max_exit acc m
unfolding max_exit
max_exit-ge acc [] = omega arith
max_exit-ge acc ((k, r) ∷ m) =
    ground (arith, max_exit-ge (if ltb_ℤ acc r.exit_code then r.exit_code else acc) m)

max_exit_bound :
    (acc : ℤ) (m : Map NodeReport) (n : String) (r : NodeReport)
    → lookup n m ≡ some r
    → r.exit_code ≤ℤ max_exit acc m
unfolding max_exit lookup
max_exit_bound acc [] n r h = cc
max_exit_bound acc ((k, q) ∷ m) n r h = ground (
  arith,
  max_exit-ge (if ltb_ℤ acc q.exit_code then q.exit_code else acc) m,
  max_exit_bound (if ltb_ℤ acc q.exit_code then q.exit_code else acc) m n r,
)

max_exit_attained :
    (acc : ℤ) (m : Map NodeReport)
    → HasUniqueKeys m
    → (max_exit acc m ≡ acc)
      ⊎ ((n : String) × (q : NodeReport) × (lookup n m ≡ some q) × (q.exit_code ≡ max_exit acc m))
unfolding max_exit lookup
max_exit_attained acc [] u = inl refl
max_exit_attained acc ((k, r) ∷ m) (a, u) = elim (Bool-cases (ltb_ℤ acc r.exit_code)) [
  | inl t ↦ elim (max_exit_attained r.exit_code m u) [
    | inl e ↦ inr (k, r, ground arith, ground (arith, t, e))
    | inr (n, q, l, e) ↦ inr (n, q, stays n q l, ground (arith, t, e))
  ]
  | inr t ↦ elim (max_exit_attained acc m u) [
    | inl e ↦ inl (ground (arith, t, e))
    | inr (n, q, l, e) ↦ inr (n, q, stays n q l, ground (arith, t, e))
  ]
]
  where
    stays : (n : String) (q : NodeReport) → lookup n m ≡ some q → lookup n ((k, r) ∷ m) ≡ some q
    stays n q l = elim (dec_string k n) [
      | yes e ↦ absurd (ground (arith, a, e, l))
      | no ne ↦ ground (arith, ne, l)
    ]

max_exit-IsLargest : (m : Map NodeReport) → HasUniqueKeys m → IsLargest (max_exit (pos 0) m) m
max_exit-IsLargest m u = record {
  from_zero = max_exit-ge (pos 0) m;
  bound = max_exit_bound (pos 0) m;
  attained = max_exit_attained (pos 0) m u;
}

completes_with :
    {m : JobManager} (v : Inv m) (id node_id : String) (j : Job) (r : NodeReport) (now : Time)
    → Fresh m id node_id j
    → Distinct j.assigned_node_ids
    → r.failed ≡ false
    → OthersReported m id node_id j
    → lookup id (Changes.report_node_event m id node_id r now).0.jobs
      ≡ some (record j {
        status = completed;
        finished_at = now;
        exit_code = max_exit (pos 0) (with_report m id node_id r);
      })
unfolding settle rs
completes_with {m} v id node_id j r now f d s o = rw (report-settle m id node_id j r now f) (
    ground (
      arith,
      s,
      mark_completed-Cases j (max_exit (pos 0) (with_report m id node_id r)) now,
      f.is_running,
      lookup-insert_self id
          (record j {
            status = completed;
            finished_at = now;
            exit_code = max_exit (pos 0) (with_report m id node_id r);
          })
          m.jobs,
      length_of_Covers j.assigned_node_ids (with_report m id node_id r)
          (rs_unique v id node_id j r now f) d covered,
    ))
  where
    covered : Covers (with_report m id node_id r) j.assigned_node_ids
    covered k i = elim (dec_string node_id k) [
      | yes e ↦ (r, ground (arith, lookup-insert node_id k r (reports_of m id)))
      | no n ↦ let (q, e) = o k i n in (q, lookup-insert_ne node_id k r (reports_of m id) n ∙ e)
    ]

-- The last assigned node reports success: the job completes with the largest exit code that its nodes
-- reported, or with 0 where none of them is positive.
pub report_completes :
    {m : JobManager} (v : Inv m) (id node_id : String) (j : Job) (r : NodeReport) (now : Time)
    → Fresh m id node_id j
    → Distinct j.assigned_node_ids
    → r.failed ≡ false
    → OthersReported m id node_id j
    → (e : ℤ) × IsLargest e (with_report m id node_id r)
      × (lookup id (Changes.report_node_event m id node_id r now).0.jobs
          ≡ some (record j { status = completed; finished_at = now; exit_code = e }))
report_completes {m} v id node_id j r now f d s o = (
  max_exit (pos 0) (with_report m id node_id r),
  max_exit-IsLargest (with_report m id node_id r)
      (insert-HasUniqueKeys node_id r (reports_of m id) (reports_of_unique v id)),
  completes_with v id node_id j r now f d s o,
)

-- While another assigned node has not reported, a success is noted and the job runs on.
pub report_waits :
    {m : JobManager} (v : Inv m) (id node_id other_id : String) (j : Job) (r : NodeReport)
    (now : Time)
    → Fresh m id node_id j
    → r.failed ≡ false
    → In other_id j.assigned_node_ids
    → node_id ≢ other_id
    → lookup other_id (reports_of m id) ≡ none
    → Changes.report_node_event m id node_id r now
      ≡ (record m { reports = insert id (insert node_id r (reports_of m id)) m.reports }, ok tt)
unfolding settle rs
report_waits {m} v id node_id other_id j r now f s a n u =
    rw (report-settle m id node_id j r now f)
      (elim (Bool-cases (ltb (length new) (length j.assigned_node_ids))) [
        | inl l ↦ ground (arith, s, l)
        | inr l ↦
            let (q, e) =
              Covers-of_length j.assigned_node_ids new (rs_unique v id node_id j r now f)
                (rs_in v id node_id j r now f) (ground arith) other_id a in
            absurd (ground (arith, lookup-insert node_id other_id r (reports_of m id), e))
      ])
  where
    new : Map NodeReport
    new = with_report m id node_id r
