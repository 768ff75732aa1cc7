-- ===== src/System/Losses/Ticks.antt =====
-- The events of the monitor's loop (internal/cluster/heartbeat.go) keep the controller's invariant.
use slurmlite.Cluster.Invariant as Registered
use slurmlite.Cluster.Invariant.{reap_stale-Inv, lookup-reap_nodes, reaped, touch-Inv}
use slurmlite.Cluster.Monitor.{Monitor, tick, take_beat, touch_all, drain_heartbeats}
use slurmlite.Cluster.Reaper.{JobFailure, handle_from, handle_dead_nodes}
use slurmlite.Cluster.Registry.{Node, Registry, touch, reap_nodes, reap_stale, is_stale, gone}
use slurmlite.Controller.Hub.{Failer}
use slurmlite.Controller.Server.{Server}
use slurmlite.Controller.Wiring.{failer}
use slurmlite.Jobs.Manager.{JobManager}
use slurmlite.Jobs.Model.{Job}
use slurmlite.Protocol.{WellKnown}
use slurmlite.System.Controller.{monitor_of, after_monitor}
use slurmlite.System.Coupling.{Coupled, Keeps-Coupled}
use slurmlite.System.Invariant.{Inv}
use slurmlite.System.Nodes.{touch-Keeps, reap_stale-Keeps}
use slurmlite.Prelude.{
  pos, leb_ℤ, Time, Duration, Map, lookup, HasUniqueKeys, if_ind, String, List, [], ◌∷◌, Option,
  none, some, ◌≡◌, refl, sym, ap, subst, ◌∙◌, arith, All, All-map,
}
use slurmlite.System.Losses.{IsRunning, Standing, handle_from-Standing}

-- A node that a reaping returns is marked dead, and is one of the registry.
abbrev IsGone : Map Node → Node → Type 0
IsGone ns x = (k : String) × (o : Node) × (lookup k ns ≡ some o) × (x ≡ gone o)

older-IsGone :
    (k : String) (n : Node) (ns : Map Node) (x : Node)
    → lookup k ns ≡ none
    → IsGone ns x
    → IsGone ((k, n) ∷ ns) x
unfolding lookup
older-IsGone k n ns x a (i, o, e, q) = (i, o, ground (arith, a, e), q)

newer-IsGone : (k : String) (n : Node) (ns : Map Node) → IsGone ((k, n) ∷ ns) (gone n)
unfolding lookup
newer-IsGone k n ns = (k, n, ground arith, refl)

reap_nodes-IsGone :
    (now : Time) (timeout : Duration) (ns : Map Node)
    → HasUniqueKeys ns
    → All (IsGone ns) (reap_nodes now timeout ns).1
unfolding reap_nodes
reap_nodes-IsGone now timeout [] u = tt
reap_nodes-IsGone now timeout ((k, n) ∷ ns) (a, u) =
    let rest =
      All-map (IsGone ns) (IsGone ((k, n) ∷ ns)) (reap_nodes now timeout ns).1
        (λ x. older-IsGone k n ns x a) (reap_nodes-IsGone now timeout ns u) in
    if_ind (λ (o : Map Node × List Node). All (IsGone ((k, n) ∷ ns)) o.1) (is_stale now timeout n)
      (λ _. (newer-IsGone k n ns, rest)) (λ _. rest)

reap_stale-IsGone :
    (r : Registry) (now : Time) (timeout : Duration)
    → HasUniqueKeys r.nodes
    → All (IsGone r.nodes) (reap_stale r now timeout).1
unfolding reap_stale
reap_stale-IsGone r now timeout u =
    if_ind (λ (o : Registry × List Node). All (IsGone r.nodes) o.1) (leb_ℤ timeout (pos 0))
      (λ _. tt) (λ _. reap_nodes-IsGone now timeout r.nodes u)

gone-IsRunning :
    (m : JobManager) (ns : Map Node) (x : Node) → Coupled m.jobs ns → IsGone ns x → IsRunning m [] x
gone-IsRunning m ns x v (k, o, e, q) c _ =
    let same : x.current_job_id ≡ o.current_job_id = ap (λ (y : Node). y.current_job_id) q in
    let (j, f, r, _) = v.carried k o e (λ z. c (same ∙ z)) in
    (j, ap (λ y. lookup y m.jobs) same ∙ f, r)

touch_all-Held :
    (f : JobFailure) (ids : List String) (jobs : Map Job) (r : Registry) (now : Time)
    → Registered.Inv r
    → Coupled jobs r.nodes
    → Registered.Inv (touch_all f r ids now) × Coupled jobs (touch_all f r ids now).nodes
unfolding touch_all
touch_all-Held f [] jobs r now u v = (u, v)
touch_all-Held f (id ∷ ids) jobs r now u v =
    touch_all-Held f ids jobs (touch r id now).0 now (touch-Inv r id now u)
      (Keeps-Coupled jobs r.nodes _ v (touch-Keeps r id now))

touched-Standing :
    {D : Type 0} (r : Registry) (s : Option (Failer D)) (id : String) (now : Time)
    → Standing (r, s)
    → Standing ((touch r id now).0, s)
touched-Standing r s id now v = record {
  m = v.m;
  h = v.h;
  state = v.state;
  registry = touch-Inv r id now v.registry;
  jobs = v.jobs;
  mailboxes = v.mailboxes;
  coupled = Keeps-Coupled v.m.jobs r.nodes _ v.coupled (touch-Keeps r id now);
}

take_beat-Standing :
    {D : Type 0} (m : Monitor (failer D)) (now : Time) (ids : List String)
    → m.heartbeats ≡ ids
    → Standing (m.registry, m.jobs)
    → Standing ((take_beat (failer D) m now).registry, (take_beat (failer D) m now).jobs)
unfolding take_beat
take_beat-Standing m now [] e v = rw (e, take_beat) v
take_beat-Standing m now (id ∷ ids) e v =
    rw (e, take_beat) (touched-Standing m.registry m.jobs id now v)

tick-Standing :
    {D : Type 0} (m : Monitor (failer D)) (now : Time)
    → Standing (m.registry, m.jobs)
    → Standing ((tick (failer D) m now).registry, (tick (failer D) m now).jobs)
unfolding tick drain_heartbeats handle_dead_nodes
tick-Standing {D} m now v =
    let (u, c) =
      touch_all-Held (failer D) m.heartbeats v.m.jobs m.registry now v.registry v.coupled in
    let r = touch_all (failer D) m.registry m.heartbeats now in
    let o = reap_stale r now m.timeout in
    let c' = Keeps-Coupled v.m.jobs r.nodes o.0.nodes c (reap_stale-Keeps r now m.timeout) in
    subst (λ x. Standing (handle_from (failer D) [] o.0 x o.1 now)) (sym v.state)
      (handle_from-Standing o.1 [] o.0 v.m v.h now (reap_stale-Inv r now m.timeout u) v.jobs
        v.mailboxes c'
        (All-map (IsGone r.nodes) (IsRunning v.m []) o.1 (λ x. gone-IsRunning v.m r.nodes x c)
          (reap_stale-IsGone r now m.timeout u.unique)))

module _ {w : WellKnown} where
  start-Standing :
      (s : Server w) (timeout : Duration)
      → Inv s
      → Standing ((monitor_of w s timeout).registry, (monitor_of w s timeout).jobs)
  unfolding monitor_of
  start-Standing s timeout v = record {
    m = s.jobs;
    h = s.hub;
    state = refl;
    registry = v.registry;
    jobs = v.service.jobs;
    mailboxes = v.service.mailboxes;
    coupled = v.coupled;
  }

  after_monitor-Inv :
      (s : Server w) (m : Monitor (failer w.DurationMessage))
      → Standing (m.registry, m.jobs)
      → Inv (after_monitor w s m)
  unfolding after_monitor
  after_monitor-Inv s m v =
      rw (v.state, after_monitor)
        (record {
          service = record { jobs = v.jobs; mailboxes = v.mailboxes };
          registry = v.registry;
          coupled = v.coupled;
        })

  pub take_beat-Inv :
      (s : Server w) (timeout : Duration) (now : Time)
      → Inv s
      → Inv (after_monitor w s (take_beat (failer w.DurationMessage) (monitor_of w s timeout) now))
  take_beat-Inv s timeout now v =
      after_monitor-Inv s _
        (take_beat-Standing (monitor_of w s timeout) now _ refl (start-Standing s timeout v))

  pub tick-Inv :
      (s : Server w) (timeout : Duration) (now : Time)
      → Inv s
      → Inv (after_monitor w s (tick (failer w.DurationMessage) (monitor_of w s timeout) now))
  tick-Inv s timeout now v =
      after_monitor-Inv s _
        (tick-Standing (monitor_of w s timeout) now (start-Standing s timeout v))
