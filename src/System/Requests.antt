-- ===== src/System/Requests.antt =====
-- The handlers of internal/controller/server.go keep jobs and nodes together.
pub mod Handlers
use slurmlite.Cluster.Invariant as Registered
use slurmlite.Cluster.Invariant.{IsCount, IsOffer, register_node-Inv}
use slurmlite.Cluster.Registry.{Registry}
use slurmlite.Cluster.Reservations.{release_nodes}
use slurmlite.Controller.Convert.{spec_from_proto, checked_spec, resources_from_proto}
use slurmlite.Controller.Server.{
  Server, Reply, kicked, offered, handle_register, job_name, submit_new, handle_submit, stop_nodes,
  handle_cancel,
}
use slurmlite.Controller.Requests.{Request, registers, submits_job}
use slurmlite.Jobs.Changes.{cancel}
use slurmlite.Jobs.Manager.{JobManager, Outcome, submit, clone_job, get}
use slurmlite.Jobs.Model.{Job, JobError, Spec, pending, new_job, validate_spec, validate_resources}
use slurmlite.Jobs.Effects.{withdrawn_job}
use slurmlite.Jobs.Outcomes.{
  Ended, submit_cases, CancelOutcome, refuses, withdraws, stops, cancel-CancelOutcome,
}
use slurmlite.Protocol.{WellKnown, NodeSpec, PbResourceRequest, JobSpec, PbJob}
use slurmlite.System.Coupling.{Coupled, changes-Coupled, Keeps-Coupled}
use slurmlite.System.Invariant.{released-Coupled, released-Inv}
use slurmlite.System.Nodes.{register_node-Keeps}
use slurmlite.Prelude.{
  ℤ, pos, negsuc, ltb_ℤ, Time, Map, lookup, insert, is_blank, ok, err, dec_string, ite, Bool, true,
  false, Option-cases, ite_ind, some_inj, Result-cases, if_ind, String, Option, none, some, ◌≡◌,
  ◌≢◌, refl, sym, ap, subst, ◌∙◌, ◌⊎◌, inl, inr, ◌+◌, ◌%◌, ◌^◌, arith, ◌≤ℤ◌, Fits,
}

-- The part of the invariant that is about nodes.
abbrev pub Held : {w : WellKnown} → Server w → Type 0
Held s = Registered.Inv s.registry × Coupled s.jobs.jobs s.registry.nodes

-- The counts of a message are int32 numbers.
abbrev pub CountsFit : {D : Type 0} → Option (PbResourceRequest D) → Type 0
CountsFit none = Unit
CountsFit (some r) = Fits (2 ^ 31) r.nodes_required × Fits (2 ^ 31) r.cpus_per_node

abbrev pub InRange : {D : Type 0} → Request D → Type 0
InRange (registers (some spec)) = Fits (2 ^ 31) spec.total_cpus
InRange (submits_job (some p)) = CountsFit p.resources
InRange r = Unit

-- A job has ended, and the nodes of its copy `c` are released.
pub ended-Held :
    {id : String} {jobs jobs' : Map Job} (r : Registry) (c : Job)
    → Registered.Inv r
    → Coupled jobs r.nodes
    → (x : Ended id jobs jobs') → c.assigned_node_ids ≡ x.old.assigned_node_ids
    → c.spec.resources.cpus_per_node ≡ x.old.spec.resources.cpus_per_node
    → let r' = release_nodes r c.assigned_node_ids c.spec.resources.cpus_per_node in
      Registered.Inv r' × Coupled jobs' r'.nodes
ended-Held {id} {jobs} {jobs'} r c u v x a b =
    subst (λ (y : Registry). Registered.Inv y × Coupled jobs' y.nodes)
      (ap (λ z. release_nodes r z x.old.spec.resources.cpus_per_node) (sym a)
        ∙ ap (release_nodes r c.assigned_node_ids) (sym b))
      (released-Inv r u v x, released-Coupled r v x)

pub get_ok :
    (m : JobManager) (id : String) (c : Job)
    → get m id ≡ ok c
    → (j : Job) × (lookup id m.jobs ≡ some j) × (clone_job j ≡ c)
unfolding get
get_ok m id c h = elim (Option-cases (lookup id m.jobs)) [
  | inl e ↦ absurd (ground (arith, e, h))
  | inr (j, e) ↦ (j, e, ground (arith, e, h))
]

abbrev CancelCases : JobManager → String → Time → Outcome Bool → Type 0
CancelCases m id now o =
    ((e : JobError) × (o.1 ≡ err e) × (o.0.jobs ≡ m.jobs))
    ⊎ ((j : Job) × (o.1 ≡ ok false)
        × (lookup id m.jobs ≡ some j)
        × (j.status ≡ pending)
        × (o.0.jobs ≡ insert id (withdrawn_job j now) m.jobs))
    ⊎ ((o.1 ≡ ok true) × Ended id m.jobs o.0.jobs)

pub cancel_cases :
    (m : JobManager) (id : String) (now : Time) (o : Outcome Bool)
    → CancelOutcome m id now o
    → CancelCases m id now o
cancel_cases m id now _ (refuses m' e q _) = inl (e, refl, q)
cancel_cases m id now _ (withdraws m' j e p q) = inr (inl (j, refl, e, p, q))
cancel_cases m id now _ (stops m' x _) = inr (inr (refl, x))

pub new_job_lem :
    (id : String) (spec : Spec) (now : Time) (j : Job)
    → new_job id spec now ≡ ok j
    → (j.id ≡ id) × (j.spec ≡ spec) × (is_blank id ≡ false)
unfolding new_job
new_job_lem id spec now j h = (ground (arith, h), ground (arith, h), ground (arith, h))

pub not_blank : (id : String) → is_blank id ≡ false → id ≢ ""
unfolding is_blank
not_blank id h e = ground (arith, ap is_blank e, h)

validate_cpus : (x : Spec) → validate_spec x ≡ ok tt → pos 1 ≤ℤ x.resources.cpus_per_node
unfolding validate_spec validate_resources
validate_cpus x h = ground (arith, h)

checked_ok : (x spec : Spec) → checked_spec x ≡ ok spec → (validate_spec x ≡ ok tt) × (x ≡ spec)
unfolding checked_spec
checked_ok x spec h = elim (Result-cases (validate_spec x)) [
  | inl (_, e) ↦ (e, ground (arith, e, h))
  | inr (_, e) ↦ absurd (ground (arith, e, h))
]

checked-IsCount :
    (x spec : Spec)
    → checked_spec x ≡ ok spec
    → Fits (2 ^ 31) x.resources.cpus_per_node
    → IsCount spec.resources.cpus_per_node
checked-IsCount x spec h f =
    let (e, q) = checked_ok x spec h in
    subst (λ (y : Spec). IsCount y.resources.cpus_per_node) q
      (count x.resources.cpus_per_node f (validate_cpus x e))
  where
    count : (c : ℤ) → Fits (2 ^ 31) c → pos 1 ≤ℤ c → IsCount c
    count (pos n) g l = ground (arith, g)
    count (negsuc n) g l = absurd (omega (arith, l))

pub clone_nodes : (c j : Job) → c ≡ clone_job j → c.assigned_node_ids ≡ j.assigned_node_ids
unfolding clone_job
clone_nodes c j e = ap (λ (x : Job). x.assigned_node_ids) e

pub clone_cpus :
    (c j : Job) → c ≡ clone_job j → c.spec.resources.cpus_per_node ≡ j.spec.resources.cpus_per_node
unfolding clone_job
clone_cpus c j e = ap (λ (x : Job). x.spec.resources.cpus_per_node) e

pub clone_status : (c j : Job) → c ≡ clone_job j → c.status ≡ j.status
unfolding clone_job
clone_status c j e = ap (λ (x : Job). x.status) e

spec_cpus :
    (w : WellKnown)
    → (r : Option (PbResourceRequest w.DurationMessage)) → CountsFit r
    → Fits (2 ^ 31) (resources_from_proto w r).cpus_per_node
unfolding resources_from_proto
spec_cpus w none f = omega arith
spec_cpus w (some r) f = f.1

pub spec-IsCount :
    (w : WellKnown)
    → (p : Option (JobSpec w.DurationMessage)) (spec : Spec) → InRange (submits_job p)
    → spec_from_proto w p ≡ ok spec
    → IsCount spec.resources.cpus_per_node
unfolding spec_from_proto
spec-IsCount w none spec f h = absurd (ground (arith, h))
spec-IsCount w (some p) spec f h = checked-IsCount _ spec h (spec_cpus w p.resources f)
