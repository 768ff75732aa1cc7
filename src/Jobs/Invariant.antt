-- ===== src/Jobs/Invariant.antt =====
-- What holds of the manager of internal/job/manager.go between two calls.
pub mod Queue
pub mod Reports
pub mod Kept
use slurmlite.Jobs.Manager.{JobManager, NodeReport, make, assigned_in}
use slurmlite.Jobs.Model.{Job, Status, pending, running}
use slurmlite.Prelude.{
  ℤ, pos, negsuc, pos_part, neg_part, ltb_ℤ, leb_ℤ, ltb, leb, ◌==◌, Time, Duration, zero_time, Map,
  lookup, insert, delete, HasUniqueKeys, lookup-insert, lookup-insert_self, lookup-insert_ne,
  lookup-delete, delete-insert_self, insert-HasUniqueKeys, delete-HasUniqueKeys, is_blank, Result,
  ok, err, ◌>>=◌, ◌>>◌, fail_if, dec_string, ite, if_pos, if_neg, Bool, true, false, not, ◌&&◌,
  ◌||◌, if◌then◌else◌, Bool-cases, Option-cases, ite_ind, if_ind, String, List, [], ◌∷◌, ◌++◌, map,
  length, Option, none, some, ◌≡◌, ◌≢◌, refl, sym, ap, subst, ◌∙◌, ◌⊎◌, inl, inr, ◌↔◌, ℕ, zero, suc,
  ◌+◌, ◌-◌, ◌<◌, ◌≤◌, ◌^◌, arith, In, Distinct, All, length-append, In-append_left, In-append_right,
  In-append_cases, Distinct-snoc, ◌+ℤ◌, ◌-ℤ◌, ◌≤ℤ◌, ◌<ℤ◌, wrap64, wrap32, Fits,
}

pub record Inv (m : JobManager) : Type 0 where
  -- The map is a map, and each job stands under its own id.
  pub unique : HasUniqueKeys m.jobs
  pub keyed : (id : String) (j : Job) → lookup id m.jobs ≡ some j → j.id ≡ id
  -- The queue holds the pending jobs, each once.
  pub waiting :
      (id : String)
      → In id m.pending
      → (j : Job) × (lookup id m.jobs ≡ some j) × (j.status ≡ pending)
  pub listed :
      (id : String) (j : Job) → lookup id m.jobs ≡ some j → j.status ≡ pending → In id m.pending
  pub distinct : Distinct m.pending
  -- Reports are kept of running jobs only, one for each node, from assigned nodes, of successes.
  pub reporting :
      (id : String) (rs : Map NodeReport)
      → lookup id m.reports ≡ some rs
      → (j : Job) × (lookup id m.jobs ≡ some j) × (j.status ≡ running)
  pub reporters :
      (id : String) (rs : Map NodeReport) → lookup id m.reports ≡ some rs → HasUniqueKeys rs
  pub reports_assigned :
      (id node_id : String) (rs : Map NodeReport) (j : Job) (r : NodeReport)
      → lookup id m.reports ≡ some rs
      → lookup id m.jobs ≡ some j
      → lookup node_id rs ≡ some r
      → (assigned_in j.assigned_node_ids node_id ≡ true) × (r.failed ≡ false)

pub make-Inv : Inv make
unfolding make lookup
make-Inv = record {
  unique = tt;
  keyed = λ id j h. cc;
  waiting = λ id h. absurd h;
  listed = λ id j h p. cc;
  distinct = tt;
  reporting = λ id rs h. cc;
  reporters = λ id rs h. cc;
  reports_assigned = λ id n rs j r h k q. cc;
}
