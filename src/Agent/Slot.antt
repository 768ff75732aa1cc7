-- ===== src/Agent/Slot.antt =====
-- The slot of internal/node/executor.go: at most one run holds it.
use slurmlite.Agent.Executor.{
  Executor, Ending, new_executor, cancel_context, job_id_of, stop, clear, claim, finish,
}
use slurmlite.Protocol.{WellKnown, WorkAssignment}
use slurmlite.Prelude.{
  ok, err, dec_string, ite, if_pos, if_neg, ite_ind, dec_In, String, List, [], ◌∷◌, Option, none,
  some, ◌≡◌, ◌≢◌, refl, sym, ap, subst, ◌∙◌, inl, inr, ℕ, arith, In,
}

-- What happens to an executor: a run begins, the run of a job ends, or a stop arrives.
pub data Event (D : Type 0) : Type 0 where
  begins : Option (WorkAssignment D) → (ctx : ℕ) → Event D
  ends : (job_id : String) (ctx : ℕ) → Ending → Event D
  stops : (job_id : String) → Event D

-- An executor with the jobs of the runs that have claimed it and have not ended, by the ids that their
-- assignments carry.
pub record NodeState : Type 0 where
  pub executor : Executor
  pub active : List String

unfoldable pub without : String → List String → List String
without id [] = []
without id (x ∷ xs) = ite (dec_string x id) xs (x ∷ without id xs)

-- An assignment names its job.
abbrev pub Named : {D : Type 0} → Event D → Type 0
Named (begins none ctx) = Unit
Named (begins (some a) ctx) = a.job_id ≢ ""
Named (ends job_id ctx e) = Unit
Named (stops job_id) = Unit

module _ (w : WellKnown) where
  unfoldable pub happen : NodeState → Event w.DurationMessage → NodeState
  happen s (begins a ctx) =
      let (e, result) = claim w s.executor a ctx in
      record {
        executor = e;
        active = elim result [ err r ↦ s.active | ok _ ↦ job_id_of a ∷ s.active ];
      }
  happen s (ends job_id ctx end) =
      ite (dec_In job_id s.active)
        (record {
          executor = (finish s.executor job_id ctx end).0;
          active = without job_id s.active;
        })
        s
  happen s (stops job_id) = record s { executor = (stop s.executor job_id).0 }

  unfoldable pub happen_all : NodeState → List (Event w.DurationMessage) → NodeState
  happen_all s [] = s
  happen_all s (e ∷ es) = happen_all (happen s e) es

-- The slot is free and nothing runs, or it carries the one job that runs.
unfoldable pub Exclusive : NodeState → Type 0
Exclusive s = s.active ≡ ite (dec_string s.executor.job_id "") [] (s.executor.job_id ∷ [])

abbrev pub idle : NodeState
idle = record { executor = new_executor; active = [] }

idle-Exclusive : Exclusive idle
unfolding new_executor Exclusive dec_string
idle-Exclusive = refl

abbrev pub AllNamed : {D : Type 0} → List (Event D) → Type 0
AllNamed [] = Unit
AllNamed (e ∷ es) = Named e × AllNamed es

free_slot : (s : NodeState) → Exclusive s → s.executor.job_id ≡ "" → s.active ≡ []
unfolding Exclusive
free_slot s v p = v ∙ if_pos (dec_string s.executor.job_id "") p _ _

held_slot :
    (s : NodeState) → Exclusive s → s.executor.job_id ≢ "" → s.active ≡ s.executor.job_id ∷ []
unfolding Exclusive
held_slot s v p = v ∙ if_neg (dec_string s.executor.job_id "") p _ _

module _ (w : WellKnown) where
  begins-Exclusive :
      (s : NodeState) (a : Option (WorkAssignment w.DurationMessage)) (ctx : ℕ)
      → Named (begins a ctx)
      → Exclusive s
      → Exclusive (happen w s (begins a ctx))
  unfolding happen claim cancel_context Exclusive job_id_of
  begins-Exclusive s none ctx n v = v
  begins-Exclusive s (some a) ctx n v = ground (arith, n, v)

  ends-Exclusive :
      (s : NodeState) (id : String) (ctx : ℕ) (end : Ending)
      → Exclusive s
      → Exclusive (happen w s (ends id ctx end))
  unfolding happen finish clear cancel_context Exclusive without
  ends-Exclusive s id ctx end v =
      ite_ind Exclusive (dec_In id s.active)
        (λ i. elim (dec_string s.executor.job_id "") [
          | yes p ↦ absurd (subst (In id) (free_slot s v p) i)
          | no p ↦
              let l = held_slot s v p in
              let q : s.executor.job_id ≡ id = elim (subst (In id) l i) [
                | inl e ↦ e
                | inr f ↦ absurd f
              ] in
              ap (without id) l ∙ ground (arith, q)
        ])
        (λ _. v)

  job_id-stop : (e : Executor) (id : String) → (stop e id).0.job_id ≡ e.job_id
  unfolding stop cancel_context
  job_id-stop e id = ground arith

  stops-Exclusive : (s : NodeState) (id : String) → Exclusive s → Exclusive (happen w s (stops id))
  unfolding happen Exclusive
  stops-Exclusive s id v =
      v ∙ ap (λ j. ite (dec_string j "") [] (j ∷ [])) (sym (job_id-stop s.executor id))

  happen-Exclusive :
      (s : NodeState) (e : Event w.DurationMessage)
      → Named e
      → Exclusive s
      → Exclusive (happen w s e)
  happen-Exclusive s (begins a ctx) n v = begins-Exclusive s a ctx n v
  happen-Exclusive s (ends id ctx end) n v = ends-Exclusive s id ctx end v
  happen-Exclusive s (stops id) n v = stops-Exclusive s id v

  happen_from-Exclusive :
      (es : List (Event w.DurationMessage)) (s : NodeState)
      → AllNamed es
      → Exclusive s
      → Exclusive (happen_all w s es)
  unfolding happen_all
  happen_from-Exclusive [] s n v = v
  happen_from-Exclusive (e ∷ es) s n v =
      happen_from-Exclusive es (happen w s e) n.1 (happen-Exclusive s e n.0 v)

  -- However runs begin, end and are stopped, a node runs at most one job at a time, and its slot
  -- carries exactly the id of the assignment that runs, and is free where none does, provided that each assignment names its job.
  pub slot-Exclusive :
      (es : List (Event w.DurationMessage)) → AllNamed es → Exclusive (happen_all w idle es)
  slot-Exclusive es n = happen_from-Exclusive es idle n idle-Exclusive
