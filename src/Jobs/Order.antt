-- ===== src/Jobs/Order.antt =====
-- The pending queue of internal/job/manager.go is first in, first out.
use mathlib.Core.List.{append-nil, append_assoc}
use slurmlite.Jobs.Effects.{
  Call, step, run, Effect, unchanged, Change, joins, acts, added, started, withdrawn, noted, ended,
  started_job, withdrawn_job,
}
use slurmlite.Jobs.Effects.Steps.{step-Change}
use slurmlite.Jobs.Invariant.{Inv}
use slurmlite.Jobs.Invariant.Kept.{step-Inv}
use slurmlite.Jobs.Lifecycle.{run_not_pending}
use slurmlite.Jobs.Manager.{JobManager, remove_first}
use slurmlite.Jobs.Model.{Job, Status-discrete, pending}
use slurmlite.Prelude.{
  Time, Map, lookup, lookup-insert_self, ite, Bool, true, false, if◌then◌else◌, Option-cases,
  String, List, [], ◌∷◌, ◌++◌, none, some, ◌≡◌, ◌≢◌, refl, sym, ap, subst, ◌∙◌, inl, inr, arith, In,
}

-- The ids that a history adds, oldest first.
unfoldable pub added_run : JobManager → List (Time × Call) → List String
added_run m [] = []
added_run m ((now, c) ∷ cs) = added m now c ++ added_run (step m now c).0 cs

unfoldable pub is_pending_in : Map Job → String → Bool
is_pending_in jobs id = elim (lookup id jobs) [
  | none ↦ false
  | some j ↦ ite (Status-discrete j.status pending) true false
]

-- Those of the ids whose jobs are pending, in the same order.
unfoldable pub still_pending : Map Job → List String → List String
still_pending jobs [] = []
still_pending jobs (id ∷ ids) =
    let rest = still_pending jobs ids in if is_pending_in jobs id then id ∷ rest else rest

is_pending_in_of :
    (jobs : Map Job) (id : String) (j : Job)
    → lookup id jobs ≡ some j
    → j.status ≡ pending
    → is_pending_in jobs id ≡ true
unfolding is_pending_in
is_pending_in_of jobs id j e p = ground arith

not-pending_in :
    (jobs : Map Job) (id : String)
    → ((j : Job) → lookup id jobs ≡ some j → j.status ≢ pending)
    → is_pending_in jobs id ≡ false
unfolding is_pending_in
not-pending_in jobs id h = elim (Option-cases (lookup id jobs)) [
  | inl e ↦ rw (e, is_pending_in) refl
  | inr (j, e) ↦ let n = h j e in ground arith
]

still_pending_all :
    (jobs : Map Job) (ids : List String)
    → ((id : String) → In id ids → is_pending_in jobs id ≡ true)
    → still_pending jobs ids ≡ ids
unfolding still_pending
still_pending_all jobs [] h = refl
still_pending_all jobs (x ∷ xs) h =
    ground (arith, h x (inl refl), still_pending_all jobs xs (λ id i. h id (inr i)))

still_pending-remove_first :
    (jobs : Map Job) (id : String) (xs ys : List String)
    → is_pending_in jobs id ≡ false
    → still_pending jobs (remove_first id xs ++ ys) ≡ still_pending jobs (xs ++ ys)
unfolding still_pending remove_first
still_pending-remove_first jobs id [] ys h = refl
still_pending-remove_first jobs id (x ∷ xs) ys h =
    ground (arith, still_pending-remove_first jobs id xs ys h)

-- What one call does to the queue.
data QueueStep (m : JobManager) (ids : List String) (m' : JobManager) : Type 0 where
  extends : m'.pending ≡ m.pending ++ ids → QueueStep m ids m'
  removes :
      (id : String) (j : Job)
      → ids ≡ []
      → m'.pending ≡ remove_first id m.pending
      → lookup id m'.jobs ≡ some j
      → j.status ≢ pending
      → QueueStep m ids m'

Effect-QueueStep : {m m' : JobManager} → Effect m m' → QueueStep m [] m'
Effect-QueueStep {m} (unchanged e) = extends (ap (λ x. x.pending) e ∙ sym (append-nil m.pending))
Effect-QueueStep {m} (started id j ns now l p e) =
    removes id (started_job j ns now) refl (ap (λ x. x.pending) e)
      (ap (λ x. lookup id x.jobs) e ∙ lookup-insert_self id (started_job j ns now) m.jobs) (λ q. cc)
Effect-QueueStep {m} (withdrawn id j now l p e) =
    removes id (withdrawn_job j now) refl (ap (λ x. x.pending) e)
      (ap (λ x. lookup id x.jobs) e ∙ lookup-insert_self id (withdrawn_job j now) m.jobs) (λ q. cc)
Effect-QueueStep {m} (noted id n j r l p a u f s e) =
    extends (ap (λ x. x.pending) e ∙ sym (append-nil m.pending))
Effect-QueueStep {m} (ended id j s code msg now l p f e) =
    extends (ap (λ x. x.pending) e ∙ sym (append-nil m.pending))

Change-QueueStep : {m m' : JobManager} {ids : List String} → Change m ids m' → QueueStep m ids m'
Change-QueueStep {m} (joins j p new i e) =
    extends (ap (λ x. x.pending) e ∙ ap (λ x. m.pending ++ x) (sym i))
Change-QueueStep {m} {m'} (acts i e) = subst (λ x. QueueStep m x m') (sym i) (Effect-QueueStep e)

-- After any history the queue holds, in the order of submission, the jobs that wait still: those
-- that waited at the start and those that the history added.
pub run_fifo :
    (m : JobManager) (cs : List (Time × Call))
    → Inv m
    → (run m cs).pending ≡ still_pending (run m cs).jobs (m.pending ++ added_run m cs)
unfolding run added_run
run_fifo m [] v = rw append-nil (
    sym (
      still_pending_all m.jobs m.pending
        (λ id i. let (j, e, s) = v.waiting id i in is_pending_in_of m.jobs id j e s)))
run_fifo m ((now, c) ∷ cs) v =
    run_fifo m' cs (step-Inv m now c v) ∙ moved (Change-QueueStep (step-Change m now c))
  where
    m' : JobManager
    m' = (step m now c).0

    moved :
        QueueStep m (added m now c) m'
        → still_pending (run m' cs).jobs (m'.pending ++ added_run m' cs)
          ≡ still_pending (run m' cs).jobs (m.pending ++ (added m now c ++ added_run m' cs))
    moved (extends e) = rw (e, append_assoc) refl
    moved (removes id j i e l n) =
        rw (i, e)
          (still_pending-remove_first (run m' cs).jobs id m.pending (added_run m' cs)
            (not-pending_in (run m' cs).jobs id (λ k h. run_not_pending m' cs id j k l n h)))
