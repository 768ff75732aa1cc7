-- ===== src/Jobs/Lifecycle.antt =====
-- The life of one job under the calls of internal/job/manager.go.
use slurmlite.Jobs.Effects.{
  Call, step, run, Effect, unchanged, Change, joins, acts, started, withdrawn, noted, ended,
  started_job, ended_job, withdrawn_job, IsFinal,
}
use slurmlite.Jobs.Effects.Steps.{step-Change}
use slurmlite.Jobs.Manager.{JobManager}
use slurmlite.Jobs.Model.{Job, Status, pending, running}
use slurmlite.Prelude.{
  ℤ, Time, Map, lookup, insert, lookup-insert, lookup-insert_ne, dec_string, String, List, [], ◌∷◌,
  some, ◌≡◌, ◌≢◌, refl, ap, subst, ◌∙◌, arith,
}

-- What one call can make of a job.
pub data Advance (j : Job) (j' : Job) : Type 0 where
  stays : j' ≡ j → Advance j j'
  starts :
      (node_ids : List String) (now : Time)
      → j.status ≡ pending
      → j' ≡ started_job j node_ids now
      → Advance j j'
  withdraws : (now : Time) → j.status ≡ pending → j' ≡ withdrawn_job j now → Advance j j'
  ends :
      (s : Status) (code : ℤ) (msg : String) (now : Time)
      → j.status ≡ running
      → IsFinal s
      → j' ≡ ended_job j s code msg now
      → Advance j j'

-- The job under `k` in a map, after the job under `id` was replaced.
replaced :
    (jobs : Map Job) (id k : String) (i j j' : Job)
    → lookup id jobs ≡ some i
    → lookup k jobs ≡ some j
    → Advance i j'
    → (x : Job) × (lookup k (insert id j' jobs) ≡ some x) × Advance j x
replaced jobs id k i j j' found h a = elim (dec_string id k) [
  | yes e ↦ (j', ground (arith, lookup-insert id k j' jobs), subst (λ x. Advance x j') (same e) a)
  | no n ↦ (j, lookup-insert_ne id k j' jobs n ∙ h, stays refl)
]
  where
    same : id ≡ k → i ≡ j
    same e = ground arith

Effect-Advance :
    {m m' : JobManager} (id : String) (j : Job)
    → Effect m m'
    → lookup id m.jobs ≡ some j
    → (j' : Job) × (lookup id m'.jobs ≡ some j') × Advance j j'
Effect-Advance id j (unchanged e) h = (j, ap (λ x. lookup id x.jobs) e ∙ h, stays refl)
Effect-Advance {m} id j (started k i ns now l p e) h =
    rw e (replaced m.jobs k id i j _ l h (starts ns now p refl))
Effect-Advance {m} id j (withdrawn k i now l p e) h =
    rw e (replaced m.jobs k id i j _ l h (withdraws now p refl))
Effect-Advance id j (noted k n i r l p a u f s e) h =
    (j, ap (λ x. lookup id x.jobs) e ∙ h, stays refl)
Effect-Advance {m} id j (ended k i s code msg now l p f e) h =
    rw e (replaced m.jobs k id i j _ l h (ends s code msg now p f refl))

Change-Advance :
    {m m' : JobManager} {ids : List String} (id : String) (j : Job)
    → Change m ids m'
    → lookup id m.jobs ≡ some j
    → (j' : Job) × (lookup id m'.jobs ≡ some j') × Advance j j'
Change-Advance {m} id j (joins i p new _ e) h = (
  j,
  ap (λ x. lookup id x.jobs) e ∙ lookup-insert_ne i.id id i m.jobs (λ q. ground arith) ∙ h,
  stays refl,
)
Change-Advance id j (acts _ e) h = Effect-Advance id j e h

-- No call forgets a job: it stays as it was, starts, is withdrawn from the queue or ends, and in
-- each case only the fields that the transition is about change.
pub step-Advance :
    (m : JobManager) (now : Time) (c : Call) (id : String) (j : Job)
    → lookup id m.jobs ≡ some j
    → (j' : Job) × (lookup id (step m now c).0.jobs ≡ some j') × Advance j j'
step-Advance m now c id j h = Change-Advance id j (step-Change m now c) h

Advance-final : {j j' : Job} → Advance j j' → IsFinal j.status → j' ≡ j
Advance-final (stays e) f = e
Advance-final (starts ns now p e) f = ground arith
Advance-final (withdraws now p e) f = ground arith
Advance-final (ends s code msg now p g e) f = ground arith

step_final :
    (m : JobManager) (now : Time) (c : Call) (id : String) (j : Job)
    → lookup id m.jobs ≡ some j
    → IsFinal j.status
    → lookup id (step m now c).0.jobs ≡ some j
step_final m now c id j h f =
    let (j', e, a) = step-Advance m now c id j h in e ∙ ap some (Advance-final a f)

-- A job that completed, failed or was cancelled never changes again, whatever calls follow.
pub run_final :
    (m : JobManager) (cs : List (Time × Call)) (id : String) (j : Job)
    → lookup id m.jobs ≡ some j
    → IsFinal j.status
    → lookup id (run m cs).jobs ≡ some j
unfolding run
run_final m [] id j h f = h
run_final m ((now, c) ∷ cs) id j h f =
    run_final (step m now c).0 cs id j (step_final m now c id j h f) f

Advance-pending : {j j' : Job} → Advance j j' → j'.status ≡ pending → j.status ≡ pending
Advance-pending (stays e) p = ground arith
Advance-pending (starts ns now q e) p = q
Advance-pending (withdraws now q e) p = q
Advance-pending (ends s code msg now q g e) p = ground arith

-- No call makes a job pending that was there and was not pending.
pub step_not_pending :
    (m : JobManager) (now : Time) (c : Call) (id : String) (j j' : Job)
    → lookup id m.jobs ≡ some j
    → j.status ≢ pending
    → lookup id (step m now c).0.jobs ≡ some j'
    → j'.status ≢ pending
step_not_pending m now c id j j' h n h' p =
    let (i, e, a) = step-Advance m now c id j h in n (Advance-pending a (ground arith))

-- Nor does any history.
pub run_not_pending :
    (m : JobManager) (cs : List (Time × Call)) (id : String) (j j' : Job)
    → lookup id m.jobs ≡ some j
    → j.status ≢ pending
    → lookup id (run m cs).jobs ≡ some j'
    → j'.status ≢ pending
unfolding run
run_not_pending m [] id j j' h n h' p = n (ground arith)
run_not_pending m ((now, c) ∷ cs) id j j' h n h' p =
    let (i, e, a) = step-Advance m now c id j h in
    run_not_pending (step m now c).0 cs id i j' e (step_not_pending m now c id j i h n e) h' p
