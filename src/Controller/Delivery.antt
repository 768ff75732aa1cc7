-- ===== src/Controller/Delivery.antt =====
-- What the methods of internal/controller/hub.go deliver: the newest messages to a node that
-- subscribes again, and the cancellations that a heartbeat asks for.
use slurmlite.Controller.Hub.{
  Hub, channel_at, queued, end_old, open_channel, subscribe, enqueue, send, pending_cancel,
  notify_each, notify_cancel, max_queue,
}
use slurmlite.Controller.Channels.{Inv, newest_lem, lookup-enqueue}
use slurmlite.Controller.Mailboxes.{filled, channel_at-open}
use slurmlite.Protocol.{WatchWorkResponse, cancel}
use slurmlite.Prelude.{
  ◌==◌, Map, lookup, insert, lookup-insert, lookup-insert_self, dec_string, ite, if_pos, if_neg,
  false, if◌then◌else◌, ite_ind, dec_In, String, List, [], ◌∷◌, ◌++◌, length, none, some, ◌≡◌, ◌≢◌,
  refl, sym, ap, subst, ◌∙◌, ℕ, ◌+◌, ◌-◌, ◌≤◌, arith, drop, last_of, last_of_snoc, append_assoc,
  append_empty,
}

same_index : {A : Type 0} (n : ℕ) (a b : A) → (if n == n then a else b) ≡ a
same_index n a b = ground arith

module _ {D : Type 0} where
  unfoldable pub send_all : Hub D → String → List (WatchWorkResponse D) → Hub D
  send_all h id [] = h
  send_all h id (msg ∷ msgs) = send_all (send h id msg) id msgs

  send_absent :
      (h : Hub D) (id : String) (msg : WatchWorkResponse D)
      → lookup id h.sub ≡ none
      → send h id msg ≡ enqueue h id msg
  unfolding send
  send_absent h id msg e = rw (e, send) refl

  sub-enqueue :
      (h : Hub D) (id : String) (msg : WatchWorkResponse D)
      → lookup id h.sub ≡ none
      → lookup id (enqueue h id msg).sub ≡ none
  unfolding enqueue
  sub-enqueue h id msg e = e

  send_all_absent :
      (msgs : List (WatchWorkResponse D)) (h : Hub D) (id : String)
      → lookup id h.sub ≡ none
      → lookup id (send_all h id msgs).sub ≡ none
  unfolding send_all
  send_all_absent [] h id e = e
  send_all_absent (msg ∷ msgs) h id e =
      send_all_absent msgs (send h id msg) id
        (ap (λ (x : Hub D). lookup id x.sub) (send_absent h id msg e) ∙ sub-enqueue h id msg e)

  queued-send_all :
      (msgs : List (WatchWorkResponse D)) (h : Hub D) (id : String)
      (sent : List (WatchWorkResponse D))
      → lookup id h.sub ≡ none
      → queued h id ≡ last_of max_queue sent
      → queued (send_all h id msgs) id ≡ last_of max_queue (sent ++ msgs)
  unfolding send_all
  queued-send_all [] h id sent e q = q ∙ ap (last_of 32) (sym (append_empty sent))
  queued-send_all (msg ∷ msgs) h id sent e q =
      queued-send_all msgs (send h id msg) id (sent ++ msg ∷ [])
        (ap (λ (x : Hub D). lookup id x.sub) (send_absent h id msg e) ∙ sub-enqueue h id msg e)
        (ap (λ (x : Hub D). queued x id) (send_absent h id msg e)
          ∙ lookup-enqueue h id id msg
          ∙ if_pos (dec_string id id) refl _ _
          ∙ newest_lem (queued h id ++ msg ∷ [])
          ∙ ap (λ (x : List (WatchWorkResponse D)). last_of 32 (x ++ msg ∷ [])) q
          ∙ last_of_snoc 32 sent msg)
      ∙ ap (last_of 32) (append_assoc sent (msg ∷ []) msgs)

  last_of_short : (n : ℕ) (xs : List (WatchWorkResponse D)) → length xs ≤ n → xs ≡ last_of n xs
  last_of_short n xs l = ap (λ (k : ℕ). drop k xs) (nothing n xs l)
    where
      nothing : (n : ℕ) (xs : List (WatchWorkResponse D)) → length xs ≤ n → 0 ≡ length xs - n
      nothing n xs l = omega (arith, l)

  end_old_absent : (h : Hub D) (id : String) → lookup id h.sub ≡ none → end_old h id ≡ h
  unfolding end_old
  end_old_absent h id e = rw (e, end_old) refl

  opens :
      (h : Hub D) (id : String) (sent : List (WatchWorkResponse D))
      → queued h id ≡ sent
      → let (h', ch) = open_channel h id in
        (channel_at ch h'.channels
          ≡ some (record { capacity = 16 + length sent; buffer = sent; closed = false }))
        × (lookup id h'.sub ≡ some ch)
        × (queued h' id ≡ [])
  unfolding open_channel queued
  opens h id sent e = (
    channel_at-open h id (length h.channels)
        ∙ same_index (length h.channels) (some (filled h id)) _
        ∙ ap some (
            ap
              (λ (q : List (WatchWorkResponse D)). record {
                capacity = 16 + length q;
                buffer = q;
                closed = false;
              })
              e),
    lookup-insert_self id (length h.channels) h.sub,
    ground (arith, lookup-insert_self id [] h.queue),
  )

  -- Where the invariant of the mailboxes holds, a node without a stream loses only the oldest
  -- messages: when it subscribes, its new channel is open and holds, in order, the last 32 of what was
  -- queued and then sent, and its queue is empty.
  pub subscribe-delivers :
      (h : Hub D) (id : String) (msgs : List (WatchWorkResponse D))
      → Inv h
      → lookup id h.sub ≡ none
      → let sent = last_of max_queue (queued h id ++ msgs) in
        let (h', ch) = subscribe (send_all h id msgs) id in
        (channel_at ch h'.channels
          ≡ some (record { capacity = 16 + length sent; buffer = sent; closed = false }))
        × (lookup id h'.sub ≡ some ch)
        × (queued h' id ≡ [])
  unfolding subscribe
  subscribe-delivers h id msgs v e =
      subst
        (λ (x : Hub D).
          let sent = last_of max_queue (queued h id ++ msgs) in
          let (h', ch) = open_channel x id in
          (channel_at ch h'.channels
            ≡ some (record { capacity = 16 + length sent; buffer = sent; closed = false }))
          × (lookup id h'.sub ≡ some ch)
          × (queued h' id ≡ []))
        (sym (end_old_absent (send_all h id msgs) id (send_all_absent msgs h id e)))
        (opens (send_all h id msgs) id (last_of max_queue (queued h id ++ msgs)) (
          queued-send_all msgs h id (queued h id) e
            (last_of_short 32 (queued h id) (v.bounded id))))

-- What a heartbeat tells a node after `NotifyCancel`, `Dispatch` and `ClearCancel`.
module _ {D : Type 0} where
  cancels-send :
      (h : Hub D) (id : String) (msg : WatchWorkResponse D) → (send h id msg).cancels ≡ h.cancels
  unfolding send enqueue
  cancels-send h id msg = ground arith

  abbrev marked : Hub D → String → String → Hub D
  marked h id job_id = record h { cancels = insert id job_id h.cancels }

  cancels-notify_each :
      (ids : List String) (h : Hub D) (job_id k : String)
      → k ≢ ""
      → lookup k (notify_each h ids job_id).cancels
        ≡ ite (dec_In k ids) (some job_id) (lookup k h.cancels)
  unfolding notify_each
  cancels-notify_each [] h job_id k n = sym (if_neg (dec_In k []) (λ i. i) _ _)
  cancels-notify_each (id ∷ ids) h job_id k n =
      ite_ind
        (λ (x : Hub D).
          lookup k x.cancels ≡ ite (dec_In k (id ∷ ids)) (some job_id) (lookup k h.cancels))
        (dec_string id "") (λ p. cancels-notify_each ids h job_id k n ∙ ground (arith, p, n))
        (λ p.
          cancels-notify_each ids
            (send (marked h id job_id) id (cancel (record { job_id = job_id }))) job_id k n
          ∙ ap (λ (cs : Map String). ite (dec_In k ids) (some job_id) (lookup k cs))
              (cancels-send (marked h id job_id) id (cancel (record { job_id = job_id })))
          ∙ ground (arith, lookup-insert id k job_id h.cancels))

  -- For a job and a node with non-empty ids: if `NotifyCancel` names the node, its heartbeats tell it
  -- to stop the job, and otherwise what they tell it does not change.
  pub pending-notify_cancel :
      (h : Hub D) (ids : List String) (job_id k : String)
      → job_id ≢ ""
      → k ≢ ""
      → pending_cancel (notify_cancel h ids job_id) k
        ≡ ite (dec_In k ids) job_id (pending_cancel h k)
  unfolding notify_cancel pending_cancel
  pending-notify_cancel h ids job_id k j n = ground (arith, cancels-notify_each ids h job_id k n, j)
