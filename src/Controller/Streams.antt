-- ===== src/Controller/Streams.antt =====
-- internal/controller/server.go: the loop of `WatchWork` over a subscribed channel.
use slurmlite.Controller.Hub.{Hub, channel_at, receive, unsubscribe}
use slurmlite.Controller.Server.{Server}
use slurmlite.Protocol.{WellKnown}
use slurmlite.Prelude.{Bool, true, false, if◌then◌else◌, String, none, some, ℕ}

unfoldable pub is_closed : {D : Type 0} → Hub D → ℕ → Bool
is_closed h ch = elim (channel_at ch h.channels) [ none ↦ false | some c ↦ c.closed ]

module _ (w : WellKnown) where
  -- The deferred `Unsubscribe`.
  abbrev pub leave : Server w → String → ℕ → Server w
  leave s node_id ch = record s { hub = unsubscribe s.hub node_id ch }

  -- One turn of the loop. `cancelled` tells whether the stream's context is done, `sends` whether
  -- `stream.Send` succeeds; the answer is whether the loop goes on.
  unfoldable pub stream_turn : Server w → String → ℕ → Bool → Bool → Server w × Bool
  unfolding is_closed
  stream_turn s node_id ch cancelled sends =
      if cancelled
      then (leave s node_id ch, false)
      else (let (h, received) = receive s.hub ch in
          elim received [
            | none ↦ if is_closed s.hub ch then (leave s node_id ch, false) else (s, true)
            | some msg ↦
                if sends
                then (record s { hub = h }, true)
                else (leave (record s { hub = h }) node_id ch, false)
          ])
