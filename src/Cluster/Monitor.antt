-- ===== src/Cluster/Monitor.antt =====
-- internal/cluster/heartbeat.go: the monitor's bounded queue of heartbeats and its ticks. `Run` takes
-- one event at a time; which one is ready is the caller's choice.
use slurmlite.Cluster.Reaper.{JobFailure, handle_dead_nodes}
use slurmlite.Cluster.Registry as Nodes
use slurmlite.Cluster.Registry.{Node, Registry, touch, reap_stale}
use slurmlite.Prelude.{
  pos, pos_part, leb_ℤ, ltb, Time, Duration, dec_string, ite, if◌then◌else◌, String, List, [], ◌∷◌,
  ◌++◌, length, Option, none, some, ℕ, ◌/◌,
}

-- 5 s and 1 ms, in nanoseconds.
abbrev pub default_heartbeat_timeout : Duration
default_heartbeat_timeout = pos 5000000000

abbrev pub millisecond : ℕ
millisecond = 1000000

abbrev pub heartbeat_queue_size : ℕ
heartbeat_queue_size = 256

-- The send of `Record`: the empty id is ignored, and a full queue drops the beat.
unfoldable pub queue_beat : List String → String → List String
queue_beat beats node_id =
    ite (dec_string node_id "") beats
      (if ltb (length beats) heartbeat_queue_size then beats ++ node_id ∷ [] else beats)

module _ (f : JobFailure) where
  pub record Monitor : Type 0 where
    pub registry : Registry
    pub jobs : Option f.State
    pub heartbeats : List String
    pub timeout : Duration
    pub interval : Duration

  unfoldable pub timeout_or_default : Duration → Duration
  timeout_or_default timeout = if leb_ℤ timeout (pos 0) then default_heartbeat_timeout else timeout

  -- The timeout is positive here, and so the quotient is that of natural numbers.
  unfoldable pub interval_or_default : Duration → Duration → Duration
  interval_or_default timeout interval =
      if leb_ℤ interval (pos 0)
      then (let third = pos_part timeout / 3 in
          if ltb third millisecond then pos millisecond else pos third)
      else interval

  unfoldable pub make_monitor : Option Registry → Duration → Duration → Option f.State → Monitor
  unfolding timeout_or_default interval_or_default
  make_monitor registry timeout interval jobs = record {
    registry = elim registry [ none ↦ Nodes.make | some r ↦ r ];
    jobs = jobs;
    heartbeats = [];
    timeout = timeout_or_default timeout;
    interval = interval_or_default (timeout_or_default timeout) interval;
  }

  unfoldable pub record_beat : Monitor → String → Monitor
  unfolding queue_beat
  record_beat m node_id = record m { heartbeats = queue_beat m.heartbeats node_id }

  -- The case `id := <-m.heartbeats` of `Run`.
  unfoldable pub take_beat : Monitor → Time → Monitor
  take_beat m now = elim m.heartbeats [
    | [] ↦ m
    | id ∷ rest ↦ record m { registry = (touch m.registry id now).0; heartbeats = rest }
  ]

  -- The loop of `drainHeartbeats` over the beats that wait.
  unfoldable pub touch_all : Registry → List String → Time → Registry
  touch_all r [] now = r
  touch_all r (id ∷ ids) now = touch_all (touch r id now).0 ids now

  unfoldable pub drain_heartbeats : Monitor → Time → Monitor
  unfolding touch_all
  drain_heartbeats m now = record m {
    registry = touch_all m.registry m.heartbeats now;
    heartbeats = [];
  }

  -- The case `<-ticker.C` of `Run`.
  unfoldable pub tick : Monitor → Time → Monitor
  unfolding drain_heartbeats
  tick m now =
      let m' = drain_heartbeats m now in
      let (r, dead) = reap_stale m'.registry now m'.timeout in
      let (r', jobs) = handle_dead_nodes f r m'.jobs dead now in
      record m' { registry = r'; jobs = jobs }
