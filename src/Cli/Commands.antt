-- ===== src/Cli/Commands.antt =====
-- cmd/slctl: the four commands of commands.go and their choice in main.go. The package flag and the
-- generated client are parameters: a command takes the flags as they are parsed, and the client has a
-- state of its own. A command that is refused returns an error; else it returns what it prints.
use slurmlite.Cli.Tables.{QueueRow, NodeRow, job_status_name, format_command, queue_row, node_row}
use slurmlite.Protocol.{WellKnown, JobSpec, PbJob, PbNode, JobStatus, job_status_unspecified}
use Prim.Native.String.{◌++◌ as text_append}
use slurmlite.Prelude.{
  ℤ, pos, ltb_ℤ, Duration, itoa, Result, ok, err, dec_string, ite, Bool, if◌then◌else◌, String,
  List, [], ◌∷◌, map, Option, none, some, ℕ, wrap32,
}

-- The calls of `ControllerServiceClient`, with the job or the lists of their responses.
pub record Client (w : WellKnown) : Type 1 where
  pub State : Type 0
  pub Failure : Type 0
  pub submit_job :
      State
      → JobSpec w.DurationMessage
      → State × Result Failure (Option (PbJob w.DurationMessage w.Timestamp))
  pub list_jobs :
      State → State × Result Failure (List (Option (PbJob w.DurationMessage w.Timestamp)))
  pub cancel_job :
      State → String → State × Result Failure (Option (PbJob w.DurationMessage w.Timestamp))
  pub list_nodes : State → State × Result Failure (List (PbNode w.Timestamp))

-- The errors of a command: `fmt.Errorf`'s, and the client's.
pub data CommandError (F : Type 0) : Type 0 where
  command_required job_id_required : CommandError F
  call_failed : F → CommandError F

-- The flags of `submit`, and what follows them.
pub record SubmitFlags : Type 0 where
  pub nodes : ℤ
  pub cpus : ℤ
  pub limit : Duration
  pub rest : List String

-- The subcommands of `main`.
pub data Command : Type 0 where
  submit_command queue_command cancel_command nodes_command : Command

unfoldable pub command_of : String → Option Command
command_of s = ite (dec_string s "submit") (some submit_command) (
    ite (dec_string s "queue") (some queue_command) (
      ite (dec_string s "cancel") (some cancel_command)
        (ite (dec_string s "nodes") (some nodes_command) none)))

-- The exit code of `main` on its arguments after the global flags, where `run` tells whether a
-- command succeeds.
unfoldable pub exit_status : (Command → List String → Bool) → List String → ℕ
unfolding command_of
exit_status run [] = 2
exit_status run (cmd ∷ rest) = elim (command_of cmd) [
  | none ↦ 2
  | some c ↦ if run c rest then 0 else 1
]

-- `v` is what `os.Getenv` returns.
unfoldable pub env_or : String → String → String
env_or v fallback = ite (dec_string v "") fallback v

unfoldable pub status_of : {D T : Type 0} → Option (PbJob D T) → String × JobStatus
status_of none = ("", job_status_unspecified)
status_of (some j) = (j.id, j.status)

unfoldable pub spec_of : {D T : Type 0} → Option (PbJob D T) → Option (JobSpec D)
spec_of none = none
spec_of (some j) = j.spec

module _ (w : WellKnown) where
  -- The specification that `runSubmit` sends.
  unfoldable pub submit_spec : ℤ → ℤ → Duration → String → List String → JobSpec w.DurationMessage
  submit_spec nodes cpus limit command args = record {
    command = command;
    args = args;
    env = [];
    resources = some (record {
      nodes_required = wrap32 nodes;
      cpus_per_node = wrap32 cpus;
      max_duration = if ltb_ℤ (pos 0) limit then some (w.new_duration limit) else none;
    });
  }

  -- The line that `runSubmit` prints; `text` is `Duration.String`.
  unfoldable pub submitted_line :
      (Duration → String) → SubmitFlags → Option (PbJob w.DurationMessage w.Timestamp) → String
  unfolding status_of spec_of job_status_name format_command
  submitted_line text flags j =
      let (id, status) = status_of j in
      let limit =
        if ltb_ℤ (pos 0) flags.limit then text_append "  time=" (text flags.limit) else "" in
      text_append "submitted " (
        text_append id (
          text_append "  " (
            text_append (job_status_name status) (
              text_append "  nodes=" (
                text_append (itoa flags.nodes) (
                  text_append " cpus/node=" (
                    text_append (itoa flags.cpus) (
                      text_append limit
                        (text_append "  " (text_append (format_command (spec_of j)) "\n"))))))))))

  module _ (c : Client w) where
    unfoldable pub run_submit :
        (Duration → String)
        → c.State
        → SubmitFlags
        → c.State × Result (CommandError c.Failure) String
    unfolding submit_spec submitted_line
    run_submit text s flags = elim flags.rest [
      | [] ↦ (s, err command_required)
      | cmd ∷ args ↦
          let (s', result) =
            c.submit_job s (submit_spec flags.nodes flags.cpus flags.limit cmd args) in
          elim result [
            | err e ↦ (s', err (call_failed e))
            | ok j ↦ (s', ok (submitted_line text flags j))
          ]
    ]

    unfoldable pub run_queue :
        (Duration → String) → c.State → c.State × Result (CommandError c.Failure) (List QueueRow)
    unfolding queue_row
    run_queue text s =
        let (s', result) = c.list_jobs s in
        elim result [
          | err e ↦ (s', err (call_failed e))
          | ok js ↦ (s', ok (map (queue_row w text) js))
        ]

    unfoldable pub run_cancel :
        c.State → List String → c.State × Result (CommandError c.Failure) String
    unfolding status_of job_status_name
    run_cancel s [] = (s, err job_id_required)
    run_cancel s (id ∷ []) =
        let (s', result) = c.cancel_job s id in
        elim result [
          | err e ↦ (s', err (call_failed e))
          | ok j ↦
              let (id, status) = status_of j in
              (
                s',
                ok (
                    text_append "cancelled " (
                      text_append id
                        (text_append "  " (text_append (job_status_name status) "\n")))),
              )
        ]
    run_cancel s (id ∷ x ∷ xs) = (s, err job_id_required)

    unfoldable pub run_nodes :
        (w.Timestamp → String) → c.State → c.State × Result (CommandError c.Failure) (List NodeRow)
    unfolding node_row
    run_nodes text s =
        let (s', result) = c.list_nodes s in
        elim result [
          | err e ↦ (s', err (call_failed e))
          | ok ns ↦ (s', ok (map (node_row w text) ns))
        ]
