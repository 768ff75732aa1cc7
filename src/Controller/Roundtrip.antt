-- ===== src/Controller/Roundtrip.antt =====
-- The conversions of internal/controller/convert.go there and back.
use slurmlite.Controller.Convert.{
  job_status_to_proto, job_status_from_proto, spec_to_proto, resources_from_proto, spec_from_proto,
  checked_spec,
}
use slurmlite.Jobs.Manager.{copy_into}
use slurmlite.Jobs.Model.{ResourceRequest, Spec, Status, valid, validate_spec, validate_resources}
use slurmlite.Protocol.{WellKnown, JobStatus}
use slurmlite.Prelude.{
  ℤ, pos, negsuc, ltb_ℤ, Duration, Map, ok, true, if◌then◌else◌, String, [], none, some, ◌≡◌, refl,
  ap, ◌∙◌, ◌↔◌, ◌^◌, arith, ◌≤ℤ◌, wrap32, wrap_at, Fits,
}

-- A number of the protocol stands for a status exactly when that status is one of the five valid
-- ones and is sent as that number.
pub job_status_from_proto_iff :
    (p : JobStatus) (s : Status)
    → (job_status_from_proto p ≡ some s) ↔ ((job_status_to_proto s ≡ p) × (valid s ≡ true))
unfolding job_status_from_proto job_status_to_proto valid
job_status_from_proto_iff p s = (ground arith, ground arith)

wrap32_of_Fits : (a : ℤ) → Fits (2 ^ 31) a → wrap32 a ≡ a
unfolding wrap_at
wrap32_of_Fits (pos n) h = ground arith
wrap32_of_Fits (negsuc n) h = ground arith

accepted :
    (s : Spec) (env : Map String)
    → validate_spec s ≡ ok tt
    → checked_spec (record s { env = env }) ≡ ok (record s { env = env })
unfolding checked_spec validate_spec
accepted s env v = rw (v, checked_spec) refl

module _ (w : WellKnown)
    (same_duration : (d : Duration) → w.as_duration (w.new_duration d) ≡ d) where
  max_duration-roundtrip :
      (d : Duration)
      → pos 0 ≤ℤ d
      → elim (if ltb_ℤ (pos 0) d then some (w.new_duration d) else none) [
        | none ↦ pos 0
        | some x ↦ w.as_duration x
      ]
        ≡ d
  max_duration-roundtrip (pos n) h = ground (arith, same_duration (pos n))
  max_duration-roundtrip (negsuc n) h = absurd (omega (arith, h))

  resources-roundtrip :
      (s : Spec)
      → Fits (2 ^ 31) s.resources.nodes_required
      → Fits (2 ^ 31) s.resources.cpus_per_node
      → pos 0 ≤ℤ s.resources.max_duration
      → resources_from_proto w (spec_to_proto w s).resources ≡ s.resources
  unfolding resources_from_proto spec_to_proto
  resources-roundtrip s n c d =
      rw
        (
          wrap32_of_Fits s.resources.nodes_required n,
          wrap32_of_Fits s.resources.cpus_per_node c,
          max_duration-roundtrip s.resources.max_duration d,
        )
        refl

  validate_duration : (r : ResourceRequest) → validate_resources r ≡ ok tt → pos 0 ≤ℤ r.max_duration
  unfolding validate_resources
  validate_duration r h = ground (arith, h)

  spec_duration : (s : Spec) → validate_spec s ≡ ok tt → pos 0 ≤ℤ s.resources.max_duration
  unfolding validate_spec
  spec_duration s h = ground (arith, h, validate_duration s.resources)

  -- A valid specification whose counts fit an int32 comes back from the protocol as it was sent, its
  -- environment copied entry by entry, where the library's durations come back as they were.
  pub spec_from_proto-spec_to_proto :
      (s : Spec)
      → validate_spec s ≡ ok tt
      → Fits (2 ^ 31) s.resources.nodes_required
      → Fits (2 ^ 31) s.resources.cpus_per_node
      → spec_from_proto w (some (spec_to_proto w s)) ≡ ok (record s { env = copy_into [] s.env })
  unfolding spec_from_proto spec_to_proto
  spec_from_proto-spec_to_proto s v n c =
      ap
        (λ (r : ResourceRequest).
          checked_spec (record s { resources = r; env = copy_into [] s.env }))
        (resources-roundtrip s n c (spec_duration s v))
      ∙ accepted s (copy_into [] s.env) v
