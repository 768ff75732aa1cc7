-- ===== src/Controller/Hub.antt =====
-- internal/controller/hub.go. A channel is named by a number, the order in which it was made, and
-- `channels` holds what each channel is: the hub and the stream of a node share it. Each method
-- takes the hub's lock; `Dispatch` and `NotifyCancel` take it twice, with nothing between here.
use slurmlite.Jobs.Changes.{fail_running_job}
use slurmlite.Jobs.Manager.{JobManager}
use slurmlite.Protocol.{WellKnown, WorkAssignment, WatchWorkResponse, assignment, cancel}
use slurmlite.Scheduling.Dispatch.{Assignment}
use slurmlite.Prelude.{
  ℤ, pos, ltb_ℤ, ltb, ◌==◌, Time, Map, lookup, insert, delete, dec_string, ite, Bool, true, false,
  if◌then◌else◌, String, List, [], ◌∷◌, ◌++◌, length, Option, none, some, ℕ, zero, suc, ◌+◌, ◌-◌,
  drop, wrap32,
}

abbrev pub work_buf : ℕ
work_buf = 16

abbrev pub max_queue : ℕ
max_queue = 32

pub record Channel (D : Type 0) : Type 0 where
  pub capacity : ℕ
  pub buffer : List (WatchWorkResponse D)
  pub closed : Bool

pub record Hub (D : Type 0) : Type 0 where
  pub sub : Map ℕ
  pub queue : Map (List (WatchWorkResponse D))
  pub cancels : Map String
  pub channels : List (Channel D)

module _ {D : Type 0} where
  unfoldable pub new_hub : Hub D
  new_hub = record { sub = []; queue = []; cancels = []; channels = [] }

  -- The channel that a number names.
  unfoldable pub channel_at : ℕ → List (Channel D) → Option (Channel D)
  channel_at i [] = none
  channel_at zero (c ∷ cs) = some c
  channel_at (suc i) (c ∷ cs) = channel_at i cs

  unfoldable pub update_at : ℕ → (Channel D → Channel D) → List (Channel D) → List (Channel D)
  update_at i f [] = []
  update_at zero f (c ∷ cs) = f c ∷ cs
  update_at (suc i) f (c ∷ cs) = c ∷ update_at i f cs

  abbrev pub close : Channel D → Channel D
  close c = record c { closed = true }

  abbrev pub push : WatchWorkResponse D → Channel D → Channel D
  push msg c = record c { buffer = c.buffer ++ msg ∷ [] }

  -- `h.queue[nodeID]`, nil where it is absent.
  unfoldable pub queued : Hub D → String → List (WatchWorkResponse D)
  queued h id = elim (lookup id h.queue) [ none ↦ [] | some q ↦ q ]

  -- The loop that fills a new channel; its capacity lets no send wait.
  unfoldable pub fill : List (WatchWorkResponse D) → Channel D → Channel D
  fill [] c = c
  fill (msg ∷ msgs) c = fill msgs (push msg c)

  -- The end of an older subscription.
  unfoldable pub end_old : Hub D → String → Hub D
  end_old h id = elim (lookup id h.sub) [
    | none ↦ h
    | some old ↦ record h { sub = delete id h.sub; channels = update_at old close h.channels }
  ]

  -- A new channel for the node, filled with what waits in its queue.
  unfoldable pub open_channel : Hub D → String → Hub D × ℕ
  unfolding queued fill
  open_channel h id =
      let waiting = queued h id in
      let made : Channel D = record {
        capacity = work_buf + length waiting;
        buffer = [];
        closed = false;
      } in
      let ch = length h.channels in
      (
        record h {
          channels = h.channels ++ fill waiting made ∷ [];
          queue = insert id [] h.queue;
          sub = insert id ch h.sub;
        },
        ch,
      )

  unfoldable pub subscribe : Hub D → String → Hub D × ℕ
  unfolding end_old open_channel
  subscribe h id = open_channel (end_old h id) id

  unfoldable pub unsubscribe : Hub D → String → ℕ → Hub D
  unsubscribe h id ch = elim (lookup id h.sub) [
    | none ↦ h
    | some c ↦ if c == ch then record h { sub = delete id h.sub } else h
  ]

  -- `q[len(q)-maxQueue:]`, where the queue is longer.
  unfoldable pub newest : List (WatchWorkResponse D) → List (WatchWorkResponse D)
  newest q = if ltb max_queue (length q) then drop (length q - max_queue) q else q

  unfoldable pub enqueue : Hub D → String → WatchWorkResponse D → Hub D
  unfolding newest queued
  enqueue h id msg = record h { queue = insert id (newest (queued h id ++ msg ∷ [])) h.queue }

  -- `send` returns no error. A send on a closed channel would panic: no channel in `sub` is closed.
  unfoldable pub send : Hub D → String → WatchWorkResponse D → Hub D
  unfolding enqueue
  send h id msg = elim (lookup id h.sub) [
    | none ↦ enqueue h id msg
    | some ch ↦ elim (channel_at ch h.channels) [
      | none ↦ enqueue h id msg
      | some c ↦
          if ltb (length c.buffer) c.capacity
          then record h { channels = update_at ch (push msg) h.channels }
          else enqueue h id msg
    ]
  ]

  unfoldable pub receive_from :
      Hub D → ℕ → List (WatchWorkResponse D) → Hub D × Option (WatchWorkResponse D)
  receive_from h ch [] = (h, none)
  receive_from h ch (msg ∷ msgs) =
      (record h { channels = update_at ch (λ c. record c { buffer = msgs }) h.channels }, some msg)

  -- A receive by the stream that holds the channel: the oldest message, if there is one.
  unfoldable pub receive : Hub D → ℕ → Hub D × Option (WatchWorkResponse D)
  unfolding receive_from
  receive h ch = elim (channel_at ch h.channels) [
    | none ↦ (h, none)
    | some c ↦ receive_from h ch c.buffer
  ]

  unfoldable pub pending_cancel : Hub D → String → String
  pending_cancel h id = elim (lookup id h.cancels) [ none ↦ "" | some job_id ↦ job_id ]

  unfoldable pub clear_cancel : Hub D → String → String → Hub D
  unfolding pending_cancel
  clear_cancel h id job_id =
      ite (dec_string (pending_cancel h id) job_id) (record h { cancels = delete id h.cancels }) h

  -- The loop of `NotifyCancel`.
  unfoldable pub notify_each : Hub D → List String → String → Hub D
  notify_each h [] job_id = h
  notify_each h (id ∷ ids) job_id = ite (dec_string id "") (notify_each h ids job_id) (
      notify_each
        (send (record h { cancels = insert id job_id h.cancels }) id
          (cancel (record { job_id = job_id })))
        ids job_id)

  unfoldable pub notify_cancel : Hub D → List String → String → Hub D
  unfolding notify_each
  notify_cancel h ids job_id = ite (dec_string job_id "") h (notify_each h ids job_id)

module _ (w : WellKnown) where
  unfoldable pub assignment_to_proto : Assignment → WorkAssignment w.DurationMessage
  assignment_to_proto a = record {
    job_id = a.job_id;
    command = a.command;
    args = a.args;
    env = a.env;
    max_duration =
        if ltb_ℤ (pos 0) a.max_duration then some (w.new_duration a.max_duration) else none;
    node_rank = wrap32 a.node_rank;
    nnodes = wrap32 a.n_nodes;
    cpus_per_node = wrap32 a.cpus_per_node;
  }

  -- The text of the error is the constant of the source.
  unfoldable pub dispatch :
      Hub w.DurationMessage → String → Assignment → Hub w.DurationMessage × Option String
  unfolding assignment_to_proto
  dispatch h id a =
      ite (dec_string id "") (h, some "node id is empty")
        (
          send (record h { cancels = delete id h.cancels }) id (assignment (assignment_to_proto a)),
          none,
        )

-- `Failer`, with both of its fields set or nil.
pub record Failer (D : Type 0) : Type 0 where
  pub jobs : Option JobManager
  pub hub : Option (Hub D)

unfoldable pub fail_for_node :
    {D : Type 0} → Failer D → String → String → Time → Failer D × Option (List String × ℤ)
fail_for_node f id reason now = elim f.jobs [
  | none ↦ (f, none)
  | some m ↦
      let (m', failed) = fail_running_job m id reason now in
      elim failed [
        | none ↦ (record f { jobs = some m' }, none)
        | some (ids, cpus) ↦ (
          record f {
            jobs = some m';
            hub = elim f.hub [ none ↦ none | some h ↦ some (notify_cancel h ids id) ];
          },
          some (ids, cpus),
        )
      ]
]
