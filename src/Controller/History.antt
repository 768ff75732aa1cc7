-- ===== src/Controller/History.antt =====
-- Every method of internal/controller/hub.go keeps the invariant of the mailboxes.
use slurmlite.Controller.Channels.{lookup-delete_inv, Within, Inv, new_hub-Inv}
use slurmlite.Controller.Mailboxes.{send-Inv, update-Inv, subscribe-Inv}
use slurmlite.Controller.Hub.{
  Channel, Hub, new_hub, channel_at, queued, subscribe, unsubscribe, receive_from, receive,
  pending_cancel, clear_cancel, notify_each, notify_cancel, dispatch,
}
use slurmlite.Protocol.{WellKnown, WatchWorkResponse}
use slurmlite.Scheduling.Dispatch.{Assignment}
use slurmlite.Prelude.{
  ◌==◌, Map, lookup, insert, delete, dec_string, Option-cases, ite_ind, some_inj, if_ind, String,
  List, [], ◌∷◌, length, Option, some, ◌≡◌, refl, sym, ap, ◌∙◌, inl, inr, ℕ, suc, ◌≤◌, arith,
}

module _ {D : Type 0} where
  pub unsubscribe-Inv : (h : Hub D) (id : String) (ch : ℕ) → Inv h → Inv (unsubscribe h id ch)
  unfolding unsubscribe queued
  unsubscribe-Inv h id ch v = elim (Option-cases (lookup id h.sub)) [
    | inl e ↦ rw (e, unsubscribe) v
    | inr (c, e) ↦
        rw (e, unsubscribe)
          (if_ind Inv (c == ch)
            (λ _. record {
              bounded = v.bounded;
              held = λ k i q. v.held k i (lookup-delete_inv id k h.sub i q).1;
              within = v.within;
              own = λ k k' i q q'.
                  v.own k k' i (lookup-delete_inv id k h.sub i q).1
                    (lookup-delete_inv id k' h.sub i q').1;
            })
            (λ _. v))
  ]

  -- The cancellations are no part of the invariant.
  cancels-Inv : (h : Hub D) (cs : Map String) → Inv h → Inv (record h { cancels = cs })
  unfolding queued
  cancels-Inv h cs v = record { bounded = v.bounded; held = v.held; within = v.within; own = v.own }

  pub clear_cancel-Inv : (h : Hub D) (id job_id : String) → Inv h → Inv (clear_cancel h id job_id)
  unfolding clear_cancel
  clear_cancel-Inv h id job_id v =
      ite_ind Inv (dec_string (pending_cancel h id) job_id)
        (λ _. cancels-Inv h (delete id h.cancels) v) (λ _. v)

  notify_each-Inv :
      (ids : List String) (h : Hub D) (job_id : String) → Inv h → Inv (notify_each h ids job_id)
  unfolding notify_each
  notify_each-Inv [] h job_id v = v
  notify_each-Inv (id ∷ ids) h job_id v =
      ite_ind Inv (dec_string id "") (λ _. notify_each-Inv ids h job_id v)
        (λ _.
          notify_each-Inv ids _ job_id
            (send-Inv _ id _ (cancels-Inv h (insert id job_id h.cancels) v)))

  pub notify_cancel-Inv :
      (h : Hub D) (ids : List String) (job_id : String) → Inv h → Inv (notify_cancel h ids job_id)
  unfolding notify_cancel
  notify_cancel-Inv h ids job_id v =
      ite_ind Inv (dec_string job_id "") (λ _. v) (λ _. notify_each-Inv ids h job_id v)

  receive_from-Inv :
      (h : Hub D) (ch : ℕ) (c : Channel D) (b : List (WatchWorkResponse D))
      → channel_at ch h.channels ≡ some c
      → c.buffer ≡ b
      → Inv h
      → Inv (receive_from h ch b).0
  unfolding receive_from
  receive_from-Inv h ch c [] at e v = v
  receive_from-Inv h ch c (msg ∷ msgs) at e v =
      update-Inv h ch (λ x. record x { buffer = msgs }) (λ x. refl) (λ x at' w. shorter x at' w) v
    where
      shorter :
          (x : Channel D) → channel_at ch h.channels ≡ some x → Within x → length msgs ≤ x.capacity
      shorter x at' w =
          let q : x ≡ c = some_inj (sym at' ∙ at) in
          let l : length x.buffer ≡ suc (length msgs) =
            ap (λ (y : Channel D). length y.buffer) q
            ∙ ap (λ (y : List (WatchWorkResponse D)). length y) e in
          omega (arith, w, l)

  pub receive-Inv : (h : Hub D) (ch : ℕ) → Inv h → Inv (receive h ch).0
  unfolding receive
  receive-Inv h ch v = elim (Option-cases (channel_at ch h.channels)) [
    | inl e ↦ rw (e, receive) v
    | inr (c, e) ↦ rw (e, receive) (receive_from-Inv h ch c c.buffer e refl v)
  ]

pub dispatch-Inv :
    (w : WellKnown) (h : Hub w.DurationMessage) (id : String) (a : Assignment)
    → Inv h
    → Inv (dispatch w h id a).0
unfolding dispatch
dispatch-Inv w h id a v =
    ite_ind (λ (o : Hub w.DurationMessage × Option String). Inv o.0) (dec_string id "") (λ _. v)
      (λ _. send-Inv _ id _ (cancels-Inv h (delete id h.cancels) v))

pub data HubCall : Type 0 where
  subscribes : (node_id : String) → HubCall
  unsubscribes : (node_id : String) (ch : ℕ) → HubCall
  dispatches : (node_id : String) → Assignment → HubCall
  notifies : (node_ids : List String) (job_id : String) → HubCall
  clears : (node_id job_id : String) → HubCall
  receives : (ch : ℕ) → HubCall

module _ (w : WellKnown) where
  -- The methods of the hub, and the receives of the streams, as one step function.
  unfoldable pub step : Hub w.DurationMessage → HubCall → Hub w.DurationMessage
  step h (subscribes id) = (subscribe h id).0
  step h (unsubscribes id ch) = unsubscribe h id ch
  step h (dispatches id a) = (dispatch w h id a).0
  step h (notifies ids job_id) = notify_cancel h ids job_id
  step h (clears id job_id) = clear_cancel h id job_id
  step h (receives ch) = (receive h ch).0

  unfoldable pub run : Hub w.DurationMessage → List HubCall → Hub w.DurationMessage
  run h [] = h
  run h (c ∷ cs) = run (step h c) cs

  pub step-Inv : (h : Hub w.DurationMessage) (c : HubCall) → Inv h → Inv (step h c)
  unfolding step
  step-Inv h (subscribes id) v = subscribe-Inv h id v
  step-Inv h (unsubscribes id ch) v = unsubscribe-Inv h id ch v
  step-Inv h (dispatches id a) v = dispatch-Inv w h id a v
  step-Inv h (notifies ids job_id) v = notify_cancel-Inv h ids job_id v
  step-Inv h (clears id job_id) v = clear_cancel-Inv h id job_id v
  step-Inv h (receives ch) v = receive-Inv h ch v

  run_from-Inv : (cs : List HubCall) (h : Hub w.DurationMessage) → Inv h → Inv (run h cs)
  unfolding run
  run_from-Inv [] h v = v
  run_from-Inv (c ∷ cs) h v = run_from-Inv cs (step h c) (step-Inv h c v)

  -- After any history of the hub's methods and of receives, a queue holds at most 32 messages, a
  -- channel is within its capacity, and a subscription has a channel of its own that exists and is
  -- open: no send goes to a closed channel.
  pub mailboxes-Inv : (cs : List HubCall) → Inv (run new_hub cs)
  mailboxes-Inv cs = run_from-Inv cs new_hub new_hub-Inv
