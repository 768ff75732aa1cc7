-- ===== src/Agent/Node.antt =====
-- internal/node/agent.go: the agent of a node. The client is generated code and the network: a
-- parameter with a state of its own. What the agent logs is not modelled, nor the deadlines of calls.
use slurmlite.Agent.Executor.{Executor, Ending, new_executor, current, stop, run_assignment}
use slurmlite.Protocol.{
  WellKnown, JobEvent, job_event_started, NodeSpec, WorkAssignment, WatchWorkResponse, assignment,
  cancel, HeartbeatRequest, HeartbeatResponse, ReportJobStatusRequest,
}
use slurmlite.Prelude.{
  ℤ, pos, ltb_ℤ, leb_ℤ, Duration, Result, ok, err, dec_string, ite, Bool, false, ◌||◌,
  if◌then◌else◌, String, List, [], ◌∷◌, Option, none, some, ℕ, ◌*◌, ◌+ℤ◌, wrap32,
}

-- `time.Second`, and the pause after a first failure to watch.
abbrev pub second : ℕ
second = 1000000000

abbrev pub first_backoff : Duration
first_backoff = pos 100000000

unfoldable pub default_heartbeat_interval : Duration
default_heartbeat_interval = pos second

pub record Config : Type 0 where
  pub id : String
  pub hostname : String
  pub address : String
  pub total_cpus : ℤ
  pub interval : Duration

-- The configuration that `main` of cmd/node/main.go makes of its flags and the host's name, none where
-- there is no id.
unfoldable pub node_config : String → String → ℤ → Duration → Option Config
node_config id hostname cpus interval =
    let name = ite (dec_string id "") hostname id in
    ite (dec_string name "") none (
      some (record {
        id = name;
        hostname = hostname;
        address = "";
        total_cpus = cpus;
        interval = interval;
      }))

-- The calls of `ControllerServiceClient` that answer once. `is_not_found` is
-- `status.Code(err) == codes.NotFound`.
pub record Client : Type 1 where
  pub State : Type 0
  pub Failure : Type 0
  pub is_not_found : Failure → Bool
  pub register_node : State → NodeSpec → State × Result Failure String
  pub heartbeat : State → HeartbeatRequest → State × Result Failure HeartbeatResponse
  pub report_job_status : State → ReportJobStatusRequest → State × Option Failure

-- `WatchWork`: a stream is what it delivers before it ends, none for a message without a payload.
pub record Streams (c : Client) (D : Type 0) : Type 0 where
  pub watch_work :
      c.State → String → c.State × Result c.Failure (List (Option (WatchWorkResponse D)))

-- Whether the context is cancelled when a turn of `watchLoop` looks at it: at its start, after the
-- call or the stream, and in the pause.
pub record Cancelled : Type 0 where
  pub at_start : Bool
  pub after_call : Bool
  pub in_pause : Bool

-- How `watchLoop` makes its pause longer.
unfoldable pub next_backoff : Duration → Duration
next_backoff b = if ltb_ℤ b (pos (2 * second)) then b +ℤ b else b

module _ (c : Client) where
  pub record Agent : Type 0 where
    pub client : c.State
    pub cfg : Config
    pub exec : Executor

  unfoldable pub make : c.State → Config → Agent
  unfolding default_heartbeat_interval
  make client cfg = record {
    client = client;
    cfg = record cfg {
      interval = if leb_ℤ cfg.interval (pos 0) then default_heartbeat_interval else cfg.interval;
      total_cpus = if ltb_ℤ cfg.total_cpus (pos 1) then pos 1 else cfg.total_cpus;
    };
    exec = new_executor;
  }

  abbrev pub spec_of : Config → NodeSpec
  spec_of cfg = record {
    id = cfg.id;
    hostname = cfg.hostname;
    address = cfg.address;
    total_cpus = wrap32 cfg.total_cpus;
  }

  unfoldable pub register : Agent → Agent × Result c.Failure String
  register a =
      let (s, result) = c.register_node a.client (spec_of a.cfg) in
      elim result [
        | err e ↦ (record a { client = s }, err e)
        | ok id ↦
            let cfg = ite (dec_string id "") a.cfg (record a.cfg { id = id }) in
            (record a { client = s; cfg = cfg }, ok cfg.id)
      ]

  unfoldable pub heartbeat : Agent → Agent × Option c.Failure
  heartbeat a =
      let (job_id, cpus) = current a.exec in
      let (s, result) =
        c.heartbeat a.client
          (record { node_id = a.cfg.id; allocated_cpus = wrap32 cpus; current_job_id = job_id }) in
      elim result [
        | err e ↦ (record a { client = s }, some e)
        | ok resp ↦ (
          record a {
            client = s;
            exec = ite (dec_string resp.cancel_job_id "") a.exec (stop a.exec resp.cancel_job_id).0;
          },
          none,
        )
      ]

  -- `Run` up to the start of its two loops.
  unfoldable pub start_up : Agent → Agent × Option c.Failure
  unfolding register heartbeat
  start_up a =
      let (a', result) = register a in elim result [ err e ↦ (a', some e) | ok _ ↦ heartbeat a' ]

  -- The end of `Run`.
  unfoldable pub shut_down : Agent → Agent
  shut_down a = record a { exec = (stop a.exec "").0 }

  -- The case `<-tick.C` of `heartbeatLoop`; `done` tells whether the context is cancelled after the
  -- calls. The answer is whether the loop returns.
  unfoldable pub heartbeat_tick : Agent → Bool → Agent × Bool
  heartbeat_tick a done =
      let (a', result) = heartbeat a in
      elim result [
        | none ↦ (a', false)
        | some e ↦
            if c.is_not_found e
            then (let (a'', again) = register a' in
                (a'', elim again [ err x ↦ done | ok id ↦ false ]))
            else (a', done)
      ]

  module _ {D : Type 0} where
    -- `recvWork`: the assignments for which it starts a goroutine, in their order.
    unfoldable pub recv_work :
        Agent → List (Option (WatchWorkResponse D)) → Agent × List (WorkAssignment D)
    recv_work a [] = (a, [])
    recv_work a (none ∷ msgs) = recv_work a msgs
    recv_work a (some (assignment x) ∷ msgs) = let (a', xs) = recv_work a msgs in (a', x ∷ xs)
    recv_work a (some (cancel x) ∷ msgs) =
        recv_work (record a { exec = (stop a.exec x.job_id).0 }) msgs

    -- One turn of `watchLoop`. The answer is the pause it takes with the backoff of the next turn,
    -- none where the loop returns.
    unfoldable pub watch_turn :
        Streams c D
        → Agent
        → Duration
        → Cancelled
        → Agent × List (WorkAssignment D) × Option (Duration × Duration)
    unfolding register recv_work next_backoff
    watch_turn str a b done =
        if done.at_start
        then (a, [], none)
        else (let (s, result) = str.watch_work a.client a.cfg.id in
            let a' = record a { client = s } in
            elim result [
              | err e ↦ if done.after_call then (a', [], none) else (
                if c.is_not_found e then (register a').0 else a',
                [],
                if done.in_pause then none else some (b, next_backoff b),
              )
              | ok msgs ↦
                  let (a'', xs) = recv_work a' msgs in
                  (
                    a'',
                    xs,
                    if done.after_call || done.in_pause
                        then none
                        else some (first_backoff, first_backoff),
                  )
            ])

    -- `watchLoop` over the turns that the contexts of a list give it: the pauses it takes.
    unfoldable pub watch_pauses : Streams c D → Agent → Duration → List Cancelled → List Duration
    unfolding watch_turn
    watch_pauses str a b [] = []
    watch_pauses str a b (done ∷ rest) =
        let (a', _, next) = watch_turn str a b done in
        elim next [ none ↦ [] | some (pause, b') ↦ pause ∷ watch_pauses str a' b' rest ]

  -- A report that fails is only logged.
  unfoldable pub report : Agent → String → JobEvent → ℤ → String → Agent
  report a job_id event exit_code err_msg = record a {
    client =
        (c.report_job_status a.client (record {
          node_id = a.cfg.id;
          job_id = job_id;
          event = event;
          exit_code = wrap32 exit_code;
          error_message = err_msg;
        })).0;
  }

  -- `handleAssignment`, where nothing else happens to the agent meanwhile.
  unfoldable pub handle_assignment :
      (w : WellKnown) → Agent → Option (WorkAssignment w.DurationMessage) → ℕ → Ending → Agent
  unfolding report
  handle_assignment w a none ctx end = a
  handle_assignment w a (some x) ctx end =
      let a' = report a x.job_id job_event_started (pos 0) "" in
      let (e, res) = run_assignment w a'.exec (some x) ctx end in
      report (record a' { exec = e }) x.job_id res.event res.exit_code res.err_msg
