-- ===== src/Cli/Submission.antt =====
-- What `slctl submit` of cmd/slctl/commands.go asks for, as internal/controller/convert.go reads it,
-- and what `slctl queue` shows of the jobs of internal/controller/server.go.
use slurmlite.Cli.Commands.{submit_spec}
use slurmlite.Controller.Convert.{checked_spec, spec_from_proto, resources_from_proto}
use slurmlite.Jobs.Manager.{copy_into}
use slurmlite.Jobs.Model.{Spec, validate_spec, validate_resources}
use slurmlite.Protocol.{WellKnown}
use slurmlite.Prelude.{
  ℤ, pos, ltb_ℤ, Duration, is_blank, ok, false, if◌then◌else◌, Bool-cases, Result-cases, String,
  List, [], some, ◌≡◌, refl, sym, ap, ◌∙◌, inl, inr, ◌↔◌, ◌^◌, arith, ◌≤ℤ◌, Fits, wrap32_of_Fits,
}

-- What the flags of `slctl submit` mean.
abbrev pub asked : ℤ → ℤ → Duration → String → List String → Spec
asked n c limit command args = record {
  resources = record {
    nodes_required = n;
    cpus_per_node = c;
    max_duration = if ltb_ℤ (pos 0) limit then limit else pos 0;
  };
  command = command;
  args = args;
  env = [];
}

asked-valid :
    (n c : ℤ) (limit : Duration) (command : String) (args : List String)
    → (validate_spec (asked n c limit command args) ≡ ok tt)
      ↔ ((pos 1 ≤ℤ n) × (pos 1 ≤ℤ c) × (is_blank command ≡ false))
unfolding validate_spec validate_resources
asked-valid n c limit command args = (
  λ h. (ground (arith, h), ground (arith, h), ground (arith, h)),
  λ (a, b, d). ground (arith, a, b, d),
)

checked_iff : (x : Spec) → (checked_spec x ≡ ok x) ↔ (validate_spec x ≡ ok tt)
unfolding checked_spec
checked_iff x = elim (Result-cases (validate_spec x)) [
  | inl (_, e) ↦ (λ _. e, λ _. ground (arith, e))
  | inr (_, e) ↦ (λ h. absurd (ground (arith, e, h)), λ h. absurd (ground (arith, e, h)))
]

checked_same : (x y : Spec) → checked_spec x ≡ ok y → y ≡ x
unfolding checked_spec
checked_same x y h = elim (Result-cases (validate_spec x)) [
  | inl (_, e) ↦ ground (arith, e, h)
  | inr (_, e) ↦ absurd (ground (arith, e, h))
]

module _ (w : WellKnown) (law : (d : Duration) → w.as_duration (w.new_duration d) ≡ d) where
  read_back :
      (n c : ℤ) (limit : Duration) (command : String) (args : List String)
      → Fits (2 ^ 31) n
      → Fits (2 ^ 31) c
      → spec_from_proto w (some (submit_spec w n c limit command args))
        ≡ checked_spec (asked n c limit command args)
  unfolding spec_from_proto submit_spec resources_from_proto copy_into
  read_back n c limit command args f g = elim (Bool-cases (ltb_ℤ (pos 0) limit)) [
    | inl e ↦ rw (wrap32_of_Fits n f, wrap32_of_Fits c g, e, law limit) refl
    | inr e ↦ rw (wrap32_of_Fits n f, wrap32_of_Fits c g, e) refl
  ]

  -- Where the counts are int32 numbers, and the library's durations come back as they were,
  -- the controller accepts what `slctl submit` sends exactly where at least one node and one CPU
  -- are asked for and the command is not blank, and whatever it accepts is what the flags say, a time
  -- limit that is not positive being none.
  pub submit_spec_iff :
      (n c : ℤ) (limit : Duration) (command : String) (args : List String)
      → Fits (2 ^ 31) n
      → Fits (2 ^ 31) c
      → let sent = spec_from_proto w (some (submit_spec w n c limit command args)) in
        (((x : Spec) × (sent ≡ ok x)) ↔ ((pos 1 ≤ℤ n) × (pos 1 ≤ℤ c) × (is_blank command ≡ false)))
        × ((x : Spec) → sent ≡ ok x → x ≡ asked n c limit command args)
  submit_spec_iff n c limit command args f g =
      let e = read_back n c limit command args f g in
      let same =
        λ (x : Spec) (h : spec_from_proto w (some (submit_spec w n c limit command args)) ≡ ok x).
          checked_same (asked n c limit command args) x (sym e ∙ h) in
      let (a, b) = checked_iff (asked n c limit command args) in
      let (p, q) = asked-valid n c limit command args in
      (
        (
          λ (x, h). p (a (sym e ∙ h ∙ ap ok (same x h))),
          λ h. (asked n c limit command args, e ∙ b (q h)),
        ),
        same,
      )
