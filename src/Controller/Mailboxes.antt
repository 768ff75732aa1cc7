-- ===== src/Controller/Mailboxes.antt =====
-- Messages and subscriptions of internal/controller/hub.go keep the invariant of the mailboxes.
use slurmlite.Controller.Channels.{
  lookup-delete_inv, Within, Inv, newest_bound, lookup-enqueue, channel_at-update_at,
  channel_at-append, fill_lem, channel_at_bound,
}
use slurmlite.Controller.Hub.{
  Channel, Hub, channel_at, update_at, close, push, queued, end_old, open_channel, subscribe,
  enqueue, send,
}
use slurmlite.Protocol.{WatchWorkResponse}
use slurmlite.Prelude.{
  ltb, ◌==◌, lookup, insert, lookup-insert, lookup-insert_ne, lookup-delete, lookup-insert_inv,
  dec_string, if_pos, false, if◌then◌else◌, Bool-cases, Option-cases, ite_ind, if_ind, String, List,
  [], ◌∷◌, ◌++◌, length, none, some, ◌≡◌, refl, sym, ap, subst, ◌∙◌, ◌⊎◌, inl, inr, ℕ, ◌+◌, ◌<◌,
  ◌≤◌, arith, length-append,
}

module _ {D : Type 0} where
  pub enqueue-Inv :
      (h : Hub D) (id : String) (msg : WatchWorkResponse D) → Inv h → Inv (enqueue h id msg)
  unfolding enqueue
  enqueue-Inv h id msg v = record {
    bounded = λ k. rw (lookup-enqueue h id k msg) (
        ite_ind (λ (q : List (WatchWorkResponse D)). length q ≤ 32) (dec_string id k)
          (λ _. newest_bound (queued h id ++ msg ∷ [])) (λ _. v.bounded k));
    held = v.held;
    within = v.within;
    own = v.own;
  }

  abbrev AllWithin : List (Channel D) → Type 0
  AllWithin cs = (ch : ℕ) (c : Channel D) → channel_at ch cs ≡ some c → Within c

  update-Within :
      (h : Hub D) (i : ℕ) (f : Channel D → Channel D)
      → ((c : Channel D) → channel_at i h.channels ≡ some c → Within c → Within (f c))
      → AllWithin h.channels
      → AllWithin (update_at i f h.channels)
  update-Within h i f fits w ch c e = elim (Bool-cases (ch == i)) [
    | inl t ↦ elim (Option-cases (channel_at ch h.channels)) [
      | inl n ↦ absurd (ground (arith, channel_at-update_at i ch f h.channels, t, n, e))
      | inr (b, n) ↦
          subst Within {x = f b} {y = c}
            (ground (arith, channel_at-update_at i ch f h.channels, t, n, e))
            (fits b (ground (arith, t, n)) (w ch b n))
    ]
    | inr t ↦ w ch c (ground (arith, channel_at-update_at i ch f h.channels, t, e))
  ]

  -- A change of a channel that keeps it open and within its capacity keeps the invariant.
  pub update-Inv :
      (h : Hub D) (i : ℕ) (f : Channel D → Channel D)
      → ((c : Channel D) → (f c).closed ≡ c.closed)
      → ((c : Channel D) → channel_at i h.channels ≡ some c → Within c → Within (f c))
      → Inv h
      → Inv (record h { channels = update_at i f h.channels })
  unfolding queued
  update-Inv h i f keeps fits v = record {
    bounded = v.bounded;
    held = λ id ch e.
        let (c, at, o) = v.held id ch e in
        elim (Bool-cases (ch == i)) [
          | inl t ↦
              (f c, channel_at-update_at i ch f h.channels ∙ ground (arith, t, at), keeps c ∙ o)
          | inr t ↦ (c, channel_at-update_at i ch f h.channels ∙ ground (arith, t, at), o)
        ];
    within = update-Within h i f fits v.within;
    own = v.own;
  }

  pub send-Inv : (h : Hub D) (id : String) (msg : WatchWorkResponse D) → Inv h → Inv (send h id msg)
  unfolding send
  send-Inv h id msg v = elim (Option-cases (lookup id h.sub)) [
    | inl e ↦ rw (e, send) (enqueue-Inv h id msg v)
    | inr (ch, e) ↦ elim (Option-cases (channel_at ch h.channels)) [
      | inl q ↦ rw (e, q, send) (enqueue-Inv h id msg v)
      | inr (c, q) ↦
          rw (e, q, send)
            (if_ind Inv (ltb (length c.buffer) c.capacity)
              (λ t.
                update-Inv h ch (push msg) (λ b. refl)
                  (λ b w x. ground (arith, length-append b.buffer (msg ∷ []), w, q, t)) v)
              (λ _. enqueue-Inv h id msg v))
    ]
  ]

  end_old-Inv : (h : Hub D) (id : String) → Inv h → Inv (end_old h id)
  unfolding end_old queued
  end_old-Inv h id v = elim (Option-cases (lookup id h.sub)) [
    | inl e ↦ rw (e, end_old) v
    | inr (old, e) ↦
        rw (e, end_old)
          (record {
            bounded = v.bounded;
            held = λ k ch q.
                let (n, q') = lookup-delete_inv id k h.sub ch q in
                let (c, at, o) = v.held k ch q' in
                (
                  c,
                  channel_at-update_at old ch close h.channels
                      ∙ ground (
                        arith,
                        at,
                        λ (t : ch ≡ old).
                            n (v.own id k old e (ap (λ x. lookup k h.sub) t ∙ q' ∙ ap some t)),
                      ),
                  o,
                );
            within = update-Within h old close (λ c at w. w) v.within;
            own = λ k k' ch q q'.
                v.own k k' ch (lookup-delete_inv id k h.sub ch q).1
                  (lookup-delete_inv id k' h.sub ch q').1;
          })
  ]

  -- After the end of the old subscription the node has none.
  lookup-end_old : (h : Hub D) (id : String) → lookup id (end_old h id).sub ≡ none
  unfolding end_old
  lookup-end_old h id = elim (Option-cases (lookup id h.sub)) [
    | inl e ↦ rw (e, end_old) e
    | inr (old, e) ↦
        rw (e, end_old) (lookup-delete id id h.sub ∙ if_pos (dec_string id id) refl none _)
  ]

  pub queued-end_old : (h : Hub D) (id k : String) → queued (end_old h id) k ≡ queued h k
  unfolding end_old queued
  queued-end_old h id k = ground arith

  -- The channel that a subscription makes.
  abbrev pub filled : Hub D → String → Channel D
  filled h id = record {
    capacity = 16 + length (queued h id);
    buffer = queued h id;
    closed = false;
  }

  pub channel_at-open :
      (h : Hub D) (id : String) (ch : ℕ)
      → channel_at ch (open_channel h id).0.channels
        ≡ (if ch == length h.channels then some (filled h id) else channel_at ch h.channels)
  unfolding open_channel
  channel_at-open h id ch =
      channel_at-append ch h.channels _
      ∙ ap (λ c. if ch == length h.channels then some c else channel_at ch h.channels)
          (fill_lem (queued h id) _)

  -- A subscription is the new one, or an old one with an old channel.
  sub_cases :
      (h : Hub D) (id k : String) (ch : ℕ)
      → Inv h
      → lookup k (insert id (length h.channels) h.sub) ≡ some ch
      → ((id ≡ k) × (ch ≡ length h.channels))
        ⊎ ((lookup k h.sub ≡ some ch) × (ch < length h.channels))
  sub_cases h id k ch v e = elim (dec_string id k) [
    | yes p ↦ inl (p, sym (lookup-insert_inv id k (length h.channels) h.sub p e))
    | no p ↦
        let q = sym (lookup-insert_ne id k (length h.channels) h.sub p) ∙ e in
        let (c, at, o) = v.held k ch q in inr (q, channel_at_bound ch h.channels c at)
  ]

  open_channel-Inv :
      (h : Hub D) (id : String) → lookup id h.sub ≡ none → Inv h → Inv (open_channel h id).0
  unfolding open_channel queued
  open_channel-Inv h id n v = record {
    bounded = λ k. ground (arith, v.bounded k, lookup-insert id k [] h.queue);
    held = λ k ch e. elim (sub_cases h id k ch v e) [
      | inl (p, q) ↦ (filled h id, channel_at-open h id ch ∙ ground (arith, q), refl)
      | inr (q, l) ↦
          let (c, at, o) = v.held k ch q in (c, channel_at-open h id ch ∙ ground (arith, l, at), o)
    ];
    within = λ ch c e. elim (Bool-cases (ch == length h.channels)) [
      | inl t ↦
          subst Within {x = filled h id} {y = c} (ground (arith, channel_at-open h id ch, t, e))
            (omega arith)
      | inr t ↦ v.within ch c (ground (arith, channel_at-open h id ch, t, e))
    ];
    own = λ k k' ch e e'. elim (sub_cases h id k ch v e) [
      | inl (p, q) ↦ elim (sub_cases h id k' ch v e') [
        | inl (p', q') ↦ sym p ∙ p'
        | inr (q', l) ↦ absurd (omega (arith, q, l))
      ]
      | inr (q, l) ↦ elim (sub_cases h id k' ch v e') [
        | inl (p', q') ↦ absurd (omega (arith, q', l))
        | inr (q', l') ↦ v.own k k' ch q q'
      ]
    ];
  }

  pub subscribe-Inv : (h : Hub D) (id : String) → Inv h → Inv (subscribe h id).0
  unfolding subscribe
  subscribe-Inv h id v =
      open_channel-Inv (end_old h id) id (lookup-end_old h id) (end_old-Inv h id v)
