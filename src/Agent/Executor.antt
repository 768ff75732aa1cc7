-- ===== src/Agent/Executor.antt =====
-- internal/node/executor.go: the one slot of a node. A context is named by a number; `stopped` are
-- the contexts whose cancel function was called. `Run` is three steps: it claims the slot, the
-- process ends in one of the ways of `Ending`, and the slot is cleared. What the operating system and
-- os/exec decide is the `Ending`.
use Prim.Native.Char.{code}
use Prim.Native.String as Text
use slurmlite.Protocol.{
  WellKnown, JobEvent, job_event_completed, job_event_failed, job_event_cancelled, WorkAssignment,
}
use slurmlite.Prelude.{
  ℤ, pos, ltb_ℤ, ◌==◌, Duration, Map, lookup, insert, Result, ok, err, dec_string, ite, Bool, true,
  false, if◌then◌else◌, String, List, [], ◌∷◌, ◌++◌, length, Option, none, some, ℕ, zero, suc, ◌+◌,
}

pub record RunResult : Type 0 where
  pub event : JobEvent
  pub exit_code : ℤ
  pub err_msg : String

pub record Executor : Type 0 where
  pub job_id : String
  pub cpus : ℤ
  pub cancel : Option ℕ
  pub stopped : List ℕ

unfoldable pub new_executor : Executor
new_executor = record { job_id = ""; cpus = pos 0; cancel = none; stopped = [] }

unfoldable pub current : Executor → String × ℤ
current e = (e.job_id, e.cpus)

-- A call of a context's cancel function.
unfoldable pub cancel_context : Executor → Option ℕ → Executor
cancel_context e none = e
cancel_context e (some c) = record e { stopped = c ∷ e.stopped }

-- An empty `job_id` stands for whatever job runs.
unfoldable pub stop : Executor → String → Executor × Bool
unfolding cancel_context
stop e job_id =
    ite (dec_string e.job_id "") (e, false)
      (ite (dec_string job_id "") (cancel_context e e.cancel, true)
        (ite (dec_string e.job_id job_id) (cancel_context e e.cancel, true) (e, false)))

abbrev pub failure : String → RunResult
failure text = record { event = job_event_failed; exit_code = pos 1; err_msg = text }

-- `exec.ExitError` with its code, and any other error of `Wait`.
pub data WaitResult : Type 0 where
  no_error : WaitResult
  exit_error : (exit_code : ℤ) (text : String) → WaitResult
  other_error : (text : String) → WaitResult

unfoldable pub result_from_wait : WaitResult → RunResult
result_from_wait no_error = record { event = job_event_completed; exit_code = pos 0; err_msg = "" }
result_from_wait (exit_error c text) = record {
  event = job_event_failed;
  exit_code = c;
  err_msg = text;
}
result_from_wait (other_error text) = failure text

-- How a claimed run ends.
pub data Ending : Type 0 where
  not_started : (text : String) → Ending
  waited : WaitResult → Ending
  deadline_exceeded : Ending
  context_cancelled : Ending

unfoldable pub result_of : Ending → RunResult
unfolding result_from_wait
result_of (not_started text) = failure text
result_of (waited r) = result_from_wait r
result_of deadline_exceeded = failure "max duration exceeded"
result_of context_cancelled = record {
  event = job_event_cancelled;
  exit_code = pos 1;
  err_msg = "cancelled";
}

unfoldable pub clear : Executor → String → Executor
clear e job_id =
    ite (dec_string e.job_id job_id) (record e { job_id = ""; cpus = pos 0; cancel = none }) e

module _ (w : WellKnown) where
  -- The timeout of a run's context, none where there is none.
  unfoldable pub time_limit : Option w.DurationMessage → Option Duration
  time_limit none = none
  time_limit (some m) = let d = w.as_duration m in if ltb_ℤ (pos 0) d then some d else none

  -- `Run` up to the claim of the slot; `ctx` is its new context. A run that is refused returns, and
  -- its context is cancelled where one was made.
  unfoldable pub claim :
      Executor
      → Option (WorkAssignment w.DurationMessage)
      → ℕ
      → Executor × Result RunResult (Unit {0})
  unfolding cancel_context
  claim e none ctx = (e, err (failure "empty command"))
  claim e (some a) ctx =
      ite (dec_string a.command "") (e, err (failure "empty command"))
        (ite (dec_string e.job_id "")
          (record e { job_id = a.job_id; cpus = a.cpus_per_node; cancel = some ctx }, ok tt)
          (cancel_context e (some ctx), err (failure "node busy")))

-- The end of a claimed run: the slot is cleared, then its context is cancelled.
unfoldable pub finish : Executor → String → ℕ → Ending → Executor × RunResult
unfolding clear cancel_context result_of
finish e job_id ctx end = (cancel_context (clear e job_id) (some ctx), result_of end)

-- `GetJobId`, which reads a missing assignment as the empty id.
unfoldable pub job_id_of : {D : Type 0} → Option (WorkAssignment D) → String
job_id_of none = ""
job_id_of (some a) = a.job_id

-- `Run` as a whole, where nothing else happens to the executor meanwhile: a run that is not refused
-- ends in the way `end`.
unfoldable pub run_assignment :
    (w : WellKnown)
    → Executor
    → Option (WorkAssignment w.DurationMessage)
    → ℕ
    → Ending
    → Executor × RunResult
unfolding claim finish job_id_of
run_assignment w e a ctx end =
    let (e', result) = claim w e a ctx in
    elim result [ err r ↦ (e', r) | ok _ ↦ finish e' (job_id_of a) ctx end ]

-- The key of an entry `key=value`, none where there is no `=`.
unfoldable pub key_of : String → Option String
key_of Text.[] = none
key_of (Text.◌∷◌ c s) =
    let rest = key_of s in
    if code c == 61 then some "" else elim rest [ none ↦ none | some k ↦ some (Text.◌∷◌ c k) ]

-- The first loop of `mergeEnv`: the index of each key, the last one where a key stands twice.
unfoldable pub index_keys : Map ℕ → ℕ → List String → Map ℕ
unfolding key_of
index_keys seen i [] = seen
index_keys seen i (kv ∷ kvs) =
    index_keys (elim (key_of kv) [ none ↦ seen | some k ↦ insert k i seen ]) (i + 1) kvs

unfoldable pub set_at : ℕ → String → List String → List String
set_at i x [] = []
set_at zero x (y ∷ ys) = x ∷ ys
set_at (suc i) x (y ∷ ys) = y ∷ set_at i x ys

-- The second loop.
unfoldable pub merge_from : Map ℕ → List String → Map String → List String
unfolding set_at
merge_from seen out [] = out
merge_from seen out ((k, v) ∷ extra) =
    let entry = Text.◌++◌ k (Text.◌++◌ "=" v) in
    elim (lookup k seen) [
      | some i ↦ merge_from seen (set_at i entry out) extra
      | none ↦ merge_from (insert k (length out) seen) (out ++ entry ∷ []) extra
    ]

unfoldable pub merge_env : List String → Map String → List String
unfolding index_keys merge_from
merge_env base [] = base
merge_env base (e ∷ extra) = merge_from (index_keys [] 0 base) base (e ∷ extra)
