-- ===== src/Jobs/Invariant/Kept.antt =====
-- Every effect of a call keeps the invariant, so every history does.
use slurmlite.Jobs.Effects.{
  Call, step, run, Effect, unchanged, Change, joins, acts, started, withdrawn, noted, ended,
}
use slurmlite.Jobs.Effects.Steps.{step-Change}
use slurmlite.Jobs.Invariant.{Inv, make-Inv}
use slurmlite.Jobs.Manager.{JobManager, make}
use slurmlite.Prelude.{String, Time, List, [], ◌∷◌}
use slurmlite.Jobs.Invariant.Queue.{queued-Inv, started-Inv, withdrawn-Inv}
use slurmlite.Jobs.Invariant.Reports.{ended-Inv, noted-Inv}

-- Whatever a call does, it keeps the invariant.
Effect-Inv : {m m' : JobManager} → Inv m → Effect m m' → Inv m'
Effect-Inv v (unchanged e) = rw e v
Effect-Inv v (started id j ns now l p e) = rw e (started-Inv v id j ns now l p)
Effect-Inv v (withdrawn id j now l p e) = rw e (withdrawn-Inv v id j now l p)
Effect-Inv v (noted id n j r l p a _ f _ e) = rw e (noted-Inv v id n j r l p a f)
Effect-Inv v (ended id j s code msg now l p f e) = rw e (ended-Inv v id j s code msg now l p f)

Change-Inv : {m m' : JobManager} {ids : List String} → Inv m → Change m ids m' → Inv m'
Change-Inv v (joins j p new _ e) = rw e (queued-Inv v j p new)
Change-Inv v (acts _ e) = Effect-Inv v e

pub step-Inv : (m : JobManager) (now : Time) (c : Call) → Inv m → Inv (step m now c).0
step-Inv m now c v = Change-Inv v (step-Change m now c)

run_from-Inv : (m : JobManager) (cs : List (Time × Call)) → Inv m → Inv (run m cs)
unfolding run
run_from-Inv m [] v = v
run_from-Inv m ((now, c) ∷ cs) v = run_from-Inv (step m now c).0 cs (step-Inv m now c v)

-- After any history of calls on a new manager each job stands under its own id, the queue holds
-- exactly the pending jobs, each once, and reports are kept of running jobs only: successes, one for
-- each node, from nodes that are assigned to the job.
pub run-Inv : (cs : List (Time × Call)) → Inv (run make cs)
run-Inv cs = run_from-Inv make cs make-Inv
