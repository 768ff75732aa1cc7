-- ===== src/Jobs/Manager.antt =====
-- internal/job/manager.go: the manager of all jobs. Every method takes the manager's lock for its
-- whole body, so a method is one function from the state to the new state and its result. The
-- state is returned with an error too. The map `jobs` holds pointers; a job is reached from outside
-- only by `Submit`'s argument, which the callers drop, and by clones, so the map holds values here.

use slurmlite.Jobs.Model.{
  Job, JobError, Status, Status-discrete, pending, nil_job, job_not_found, job_exists, not_pending,
}
use slurmlite.Prelude.{
  ℤ, Map, lookup, insert, delete, Result, ok, err, dec_string, ite, Bool, true, false,
  if◌then◌else◌, String, List, [], ◌∷◌, ◌++◌, Option, none, some,
}

pub record NodeReport : Type 0 where
  pub failed : Bool
  pub exit_code : ℤ
  pub err_msg : String

pub record JobManager : Type 0 where
  pub pending : List String
  pub jobs : Map Job
  pub reports : Map (Map NodeReport)

-- What a method leaves behind and returns.
abbrev pub Outcome : Type 0 → Type 0
Outcome A = JobManager × Result JobError A

unfoldable pub make : JobManager
make = record { pending = []; jobs = []; reports = [] }

-- The loop that copies a map entry by entry.
unfoldable pub copy_into {ℓ} : {V : Type ℓ} → Map V → Map V → Map V
copy_into acc [] = acc
copy_into acc ((k, v) ∷ m) = copy_into (insert k v acc) m

-- The slices are copied by `append([]string(nil), s...)`, the map by a loop.
unfoldable pub clone_job : Job → Job
unfolding copy_into
clone_job j = record j {
  spec = record j.spec { args = [] ++ j.spec.args; env = copy_into [] j.spec.env };
  assigned_node_ids = [] ++ j.assigned_node_ids;
}

-- The first occurrence goes.
unfoldable pub remove_first : String → List String → List String
remove_first id [] = []
remove_first id (x ∷ xs) = ite (dec_string x id) xs (x ∷ remove_first id xs)

unfoldable pub remove_pending : JobManager → String → JobManager
unfolding remove_first
remove_pending m id = record m { pending = remove_first id m.pending }

-- A write through the pointer `m.jobs[id]`.
abbrev pub set_job : JobManager → String → Job → JobManager
set_job m id j = record m { jobs = insert id j m.jobs }

abbrev pub drop_reports : JobManager → String → JobManager
drop_reports m id = record m { reports = delete id m.reports }

unfoldable pub assigned_in : List String → String → Bool
assigned_in [] node_id = false
assigned_in (x ∷ xs) node_id = ite (dec_string x node_id) true (assigned_in xs node_id)

unfoldable pub assigned_node : Job → String → Bool
unfolding assigned_in
assigned_node j node_id = assigned_in j.assigned_node_ids node_id

unfoldable pub submit : JobManager → Option Job → Outcome (Unit {0})
submit m none = (m, err nil_job)
submit m (some j) =
    ite (Status-discrete j.status pending)
      (elim (lookup j.id m.jobs) [
        | some _ ↦ (m, err job_exists)
        | none ↦ (record m { jobs = insert j.id j m.jobs; pending = m.pending ++ j.id ∷ [] }, ok tt)
      ])
      (m, err (not_pending j.status))

unfoldable pub get : JobManager → String → Result JobError Job
get m id = elim (lookup id m.jobs) [ none ↦ err job_not_found | some j ↦ ok (clone_job j) ]

-- Membership in the set that `List` builds from its arguments.
in_filter : Status → List Status → Bool
in_filter s [] = false
in_filter s (t ∷ ts) = ite (Status-discrete t s) true (in_filter s ts)

-- An empty filter matches all.
matches : List Status → Status → Bool
matches [] s = true
matches (t ∷ ts) s = in_filter s (t ∷ ts)

list_jobs : List Status → Map Job → List Job
list_jobs statuses [] = []
list_jobs statuses ((k, j) ∷ m) =
    let rest = list_jobs statuses m in
    if matches statuses j.status then clone_job j ∷ rest else rest

unfoldable pub list : JobManager → List Status → List Job
unfolding list_jobs matches in_filter
list m statuses = list_jobs statuses m.jobs

unfoldable pub first : List String → Option String
first [] = none
first (id ∷ rest) = some id

unfoldable pub peek_pending : JobManager → Option String
unfolding first
peek_pending m = first m.pending

unfoldable pub peek_pending_job : JobManager → Option Job
unfolding peek_pending
peek_pending_job m = elim (peek_pending m) [
  | none ↦ none
  | some id ↦ elim (lookup id m.jobs) [ none ↦ none | some j ↦ some (clone_job j) ]
]
