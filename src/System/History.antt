-- ===== src/System/History.antt =====
-- The serial histories of the running controller (cmd/controller/main.go): requests, scheduling steps,
-- heartbeats, losses of nodes and streams, in any order, each of them undivided. The program's locks do
-- not keep other calls out of a handler: System/Races has what can come in between.
use slurmlite.Cluster.Invariant.{make-Inv}
use slurmlite.Cluster.Registry as Nodes
use slurmlite.Cluster.Registry.{Node, Registry}
use slurmlite.Controller.Channels.{new_hub-Inv}
use slurmlite.Controller.History.{receive-Inv, unsubscribe-Inv}
use slurmlite.Controller.Server.{Server}
use slurmlite.Controller.Streams.{is_closed, stream_turn}
use slurmlite.Controller.Channels as Channels
use slurmlite.Controller.Hub.{Hub, receive}
use slurmlite.Jobs.Invariant as Managed
use slurmlite.Jobs.Manager as Manager
use slurmlite.Jobs.Model.{Job, running}
use slurmlite.Protocol.{WellKnown}
use slurmlite.System.Controller.{
  new_server, controller, SerialStep, request, schedules, wakes, ticks, takes_beat, streams,
  serial_step, take_kick,
}
use slurmlite.System.Coupling.{empty-Coupled}
use slurmlite.System.Invariant.{Inv}
use slurmlite.System.Losses.Ticks.{take_beat-Inv, tick-Inv}
use slurmlite.System.Placement.Steps.{schedule-Inv}
use slurmlite.System.Reports.{serve-System_Inv}
use slurmlite.System.Requests.{InRange}
use slurmlite.Prelude.{
  pos, Time, Duration, lookup, dec_string, Bool, true, false, Option-cases, some_inj, if_ind,
  String, length, some, ◌≡◌, sym, ap, ◌∙◌, ◌⊎◌, inl, inr, ℕ, In, Distinct,
}

-- The numbers of a request are those that a message can hold.
abbrev pub Possible : {w : WellKnown} → SerialStep w → Type 0
Possible (request r) = InRange r
Possible x = Unit

-- The states that the controller reaches serially, where `timeout` is the monitor's.
pub data SerialReach (w : WellKnown) (timeout : Duration) : Server w → Type 0 where
  started : SerialReach w timeout (controller w)
  after :
      (s : Server w) (now : Time) (x : SerialStep w)
      → SerialReach w timeout s
      → Possible x
      → SerialReach w timeout (serial_step w timeout s now x)

module _ (w : WellKnown) where
  controller-Inv : Inv (controller w)
  unfolding controller new_server Nodes.make Manager.make
  controller-Inv = record {
    service = record { jobs = Managed.make-Inv; mailboxes = new_hub-Inv };
    registry = make-Inv;
    coupled = empty-Coupled;
  }

  hub-Inv :
      (s : Server w) (h : Hub w.DurationMessage)
      → Inv s
      → Channels.Inv h
      → Inv (record s { hub = h })
  hub-Inv s h v u = record {
    service = record { jobs = v.service.jobs; mailboxes = u };
    registry = v.registry;
    coupled = v.coupled;
  }

  stream_turn-Inv :
      (s : Server w) (id : String) (ch : ℕ) (cancelled sends : Bool)
      → Inv s
      → Inv (stream_turn w s id ch cancelled sends).0
  unfolding stream_turn
  stream_turn-Inv s id ch true sends v =
      hub-Inv s _ v (unsubscribe-Inv s.hub id ch v.service.mailboxes)
  stream_turn-Inv s id ch false sends v =
      let u = receive-Inv s.hub ch v.service.mailboxes in
      elim (Option-cases (receive s.hub ch).1) [
        | inl e ↦
            rw (e, stream_turn)
              (if_ind (λ (o : Server w × Bool). Inv o.0) (is_closed s.hub ch)
                (λ _. hub-Inv s _ v (unsubscribe-Inv s.hub id ch v.service.mailboxes)) (λ _. v))
        | inr (msg, e) ↦
            rw (e, stream_turn)
              (if_ind (λ (o : Server w × Bool). Inv o.0) sends (λ _. hub-Inv s _ v u)
                (λ _. hub-Inv s _ v (unsubscribe-Inv _ id ch u)))
      ]

  serial_step-Inv :
      (timeout : Duration) (s : Server w) (now : Time) (x : SerialStep w)
      → Inv s
      → Possible x
      → Inv (serial_step w timeout s now x)
  unfolding serial_step take_kick
  serial_step-Inv timeout s now (request r) v p = serve-System_Inv s now r p v
  serial_step-Inv timeout s now schedules v p = schedule-Inv w s now v
  serial_step-Inv timeout s now wakes v p = record {
    service = record { jobs = v.service.jobs; mailboxes = v.service.mailboxes };
    registry = v.registry;
    coupled = v.coupled;
  }
  serial_step-Inv timeout s now ticks v p = tick-Inv s timeout now v
  serial_step-Inv timeout s now takes_beat v p = take_beat-Inv s timeout now v
  serial_step-Inv timeout s now (streams id ch cancelled sends) v p =
      stream_turn-Inv s id ch cancelled sends v

  -- In every state that a new controller reaches while its handlers, scheduling steps, ticks and stream
  -- turns run one after the other, in whatever order but each from its start to its end, and where the
  -- counts of the requests are int32 numbers, the invariants of the job manager, of the hub's mailboxes
  -- and of the registry hold, and jobs and nodes belong together.
  pub SerialReach-Inv : (timeout : Duration) (s : Server w) → SerialReach w timeout s → Inv s
  SerialReach-Inv timeout _ started = controller-Inv
  SerialReach-Inv timeout _ (after s now x r p) =
      serial_step-Inv timeout s now x (SerialReach-Inv timeout s r) p

-- In every state that a new controller reaches while its handlers, scheduling steps, ticks and stream
-- turns run one after the other, each from its start to its end, and where the counts of the requests
-- are int32 numbers, a running job holds exactly as many nodes as it asked for, all different, and each of
-- them is registered, carries this job and no other, and has exactly the job's CPUs per node
-- allocated.
pub SerialReach-gangs :
    (w : WellKnown) (timeout : Duration) (s : Server w) (id : String) (j : Job)
    → SerialReach w timeout s
    → lookup id s.jobs.jobs ≡ some j
    → j.status ≡ running
    → (pos (length j.assigned_node_ids) ≡ j.spec.resources.nodes_required)
      × Distinct j.assigned_node_ids
      × ((k : String)
          → In k j.assigned_node_ids
          → (n : Node) × (lookup k s.registry.nodes ≡ some n)
            × (n.current_job_id ≡ id)
            × (n.allocated_cpus ≡ j.spec.resources.cpus_per_node))
SerialReach-gangs w timeout s id j r e p =
    let v = (SerialReach-Inv w timeout s r).coupled in
    (v.whole id j e p, v.spread id j e p, λ k i. v.held id j k e p i)

-- In every state that a new controller reaches while its handlers, scheduling steps, ticks and stream
-- turns run one after the other, each from its start to its end, and where the counts of the requests
-- are int32 numbers, no node is lost to a job that has ended: a registered node is idle with
-- nothing allocated, or it carries a job that is running with this node assigned to it, and has exactly
-- the job's CPUs per node allocated.
pub SerialReach-no_leak :
    (w : WellKnown) (timeout : Duration) (s : Server w) (k : String) (n : Node)
    → SerialReach w timeout s
    → lookup k s.registry.nodes ≡ some n
    → ((n.current_job_id ≡ "") × (n.allocated_cpus ≡ pos 0))
      ⊎ ((j : Job) × (lookup n.current_job_id s.jobs.jobs ≡ some j)
          × (j.status ≡ running)
          × In k j.assigned_node_ids
          × (n.allocated_cpus ≡ j.spec.resources.cpus_per_node))
SerialReach-no_leak w timeout s k n r e =
    let v = (SerialReach-Inv w timeout s r).coupled in
    elim (dec_string n.current_job_id "") [
      | yes c ↦ inl (c, v.unused k n e c)
      | no c ↦
          let (j, f, p, i) = v.carried k n e c in
          let (o, g, _, a) = v.held n.current_job_id j k f p i in
          inr (j, f, p, i, ap (λ (z : Node). z.allocated_cpus) (some_inj (sym e ∙ g)) ∙ a)
    ]
