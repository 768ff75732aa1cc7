-- ===== src/Controller/Channels.antt =====
-- The channels of internal/controller/hub.go and the invariant of its mailboxes.
use slurmlite.Controller.Hub.{
  Channel, Hub, new_hub, channel_at, update_at, push, queued, fill, newest, enqueue, max_queue,
}
use slurmlite.Protocol.{WatchWorkResponse}
use slurmlite.Prelude.{
  ltb, ◌==◌, Map, lookup, delete, lookup-insert, lookup-delete, dec_string, ite, false,
  if◌then◌else◌, if_ind, String, List, [], ◌∷◌, ◌++◌, length, Option, none, some, ◌≡◌, ◌≢◌, refl,
  sym, ap, ◌∙◌, ℕ, zero, suc, ◌-◌, ◌<◌, ◌≤◌, arith, drop, length-drop, last_of, append_assoc,
  append_empty,
}

pub lookup-delete_inv :
    {V : Type 0} (id k : String) (m : Map V) (x : V)
    → lookup k (delete id m) ≡ some x
    → (id ≢ k) × (lookup k m ≡ some x)
lookup-delete_inv id k m x h = elim (dec_string id k) [
  | yes p ↦ absurd (ground (arith, lookup-delete id k m, p, h))
  | no p ↦ (p, ground (arith, lookup-delete id k m, p, h))
]

module _ {D : Type 0} where
  -- A channel is within its capacity.
  abbrev pub Within : Channel D → Type 0
  Within c = length c.buffer ≤ c.capacity

  -- Queues are at most 32 long, and the channel of a subscription exists, is open, and is within
  -- its capacity.
  pub record Inv (h : Hub D) : Type 0 where
    pub bounded : (id : String) → length (queued h id) ≤ max_queue
    pub held :
        (id : String) (ch : ℕ)
        → lookup id h.sub ≡ some ch
        → (c : Channel D) × (channel_at ch h.channels ≡ some c) × (c.closed ≡ false)
    pub within : (ch : ℕ) (c : Channel D) → channel_at ch h.channels ≡ some c → Within c
    -- Two nodes never share a channel.
    pub own :
        (id id' : String) (ch : ℕ)
        → lookup id h.sub ≡ some ch
        → lookup id' h.sub ≡ some ch
        → id ≡ id'

  pub new_hub-Inv : Inv new_hub
  unfolding new_hub queued lookup channel_at
  new_hub-Inv = record {
    bounded = λ id. omega arith;
    held = λ id ch h. absurd (ground (arith, h));
    within = λ ch c h. absurd (ground (arith, h));
    own = λ id id' ch h h'. absurd (ground (arith, h));
  }

  pub newest_bound : (q : List (WatchWorkResponse D)) → length (newest q) ≤ max_queue
  unfolding newest
  newest_bound q = ground (arith, length-drop (length q - 32) q)

  pub newest_lem : (q : List (WatchWorkResponse D)) → newest q ≡ last_of max_queue q
  unfolding newest
  newest_lem q =
      if_ind (λ x. x ≡ last_of 32 q) (ltb 32 (length q)) (λ _. refl)
        (λ h. ap (λ (n : ℕ). drop n q) (zero_lem h))
    where
      zero_lem : ltb 32 (length q) ≡ false → 0 ≡ length q - 32
      zero_lem h = ground (arith, h)

  pub lookup-enqueue :
      (h : Hub D) (id k : String) (msg : WatchWorkResponse D)
      → queued (enqueue h id msg) k
        ≡ ite (dec_string id k) (newest (queued h id ++ msg ∷ [])) (queued h k)
  unfolding enqueue queued
  lookup-enqueue h id k msg =
      ground (arith, lookup-insert id k (newest (queued h id ++ msg ∷ [])) h.queue)

  abbrev pub changed : (Channel D → Channel D) → Option (Channel D) → Option (Channel D)
  changed f none = none
  changed f (some c) = some (f c)

  pub channel_at-update_at :
      (i k : ℕ) (f : Channel D → Channel D) (cs : List (Channel D))
      → channel_at k (update_at i f cs)
        ≡ (if k == i then changed f (channel_at k cs) else channel_at k cs)
  unfolding channel_at update_at
  channel_at-update_at i k f [] = ground arith
  channel_at-update_at zero zero f (c ∷ cs) = ground arith
  channel_at-update_at zero (suc k) f (c ∷ cs) = ground arith
  channel_at-update_at (suc i) zero f (c ∷ cs) = ground arith
  channel_at-update_at (suc i) (suc k) f (c ∷ cs) = ground (arith, channel_at-update_at i k f cs)

  pub channel_at-append :
      (k : ℕ) (cs : List (Channel D)) (c : Channel D)
      → channel_at k (cs ++ c ∷ []) ≡ (if k == length cs then some c else channel_at k cs)
  unfolding channel_at
  channel_at-append zero [] c = ground arith
  channel_at-append (suc k) [] c = ground arith
  channel_at-append zero (x ∷ cs) c = ground arith
  channel_at-append (suc k) (x ∷ cs) c = ground (arith, channel_at-append k cs c)

  channel_at_beyond : (k : ℕ) (cs : List (Channel D)) → length cs ≤ k → channel_at k cs ≡ none
  unfolding channel_at
  channel_at_beyond k [] h = refl
  channel_at_beyond zero (x ∷ cs) h = absurd (omega (arith, h))
  channel_at_beyond (suc k) (x ∷ cs) h = channel_at_beyond k cs (omega (arith, h))

  pub fill_lem :
      (msgs : List (WatchWorkResponse D)) (c : Channel D)
      → fill msgs c ≡ record c { buffer = c.buffer ++ msgs }
  unfolding fill
  fill_lem [] c =
      ap (λ (b : List (WatchWorkResponse D)). record c { buffer = b }) (sym (append_empty c.buffer))
  fill_lem (m ∷ msgs) c =
      fill_lem msgs (push m c)
      ∙ ap (λ (b : List (WatchWorkResponse D)). record c { buffer = b })
          (append_assoc c.buffer (m ∷ []) msgs)

  pub channel_at_bound :
      (ch : ℕ) (cs : List (Channel D)) (c : Channel D) → channel_at ch cs ≡ some c → ch < length cs
  unfolding channel_at
  channel_at_bound ch [] c h = absurd (ground (arith, h))
  channel_at_bound zero (x ∷ cs) c h = omega arith
  channel_at_bound (suc ch) (x ∷ cs) c h = omega (arith, channel_at_bound ch cs c h)
