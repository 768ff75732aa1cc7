-- ===== src/System/Membership.antt =====
-- An agent (internal/node/agent.go) that calls the handlers of internal/controller/server.go.
use slurmlite.Agent.Node.{
  Client, Config, Agent, spec_of, register, heartbeat, start_up, heartbeat_tick,
}
use slurmlite.Cluster.Registry as Nodes
use slurmlite.Cluster.Registry.{Node, Registry, online, register_node, registered}
use slurmlite.Controller.Server.{
  Server, RpcError, unknown_node, unknown_job, Reply, offered, kicked, handle_register,
  handle_heartbeat,
}
use slurmlite.Controller.Reports.{handle_report}
use slurmlite.Protocol.{WellKnown, NodeSpec, HeartbeatResponse}
use slurmlite.Prelude.{
  Time, lookup, lookup-insert_self, ok, err, dec_string, ite, if_neg, Bool, true, false,
  Option-cases, ite_ind, String, Option, none, some, ◌≡◌, ◌≢◌, refl, sym, ap, subst, ◌∙◌, inl, inr,
  arith,
}

-- The errors with the code `NotFound`.
unfoldable pub is_not_found : RpcError → Bool
is_not_found unknown_node = true
is_not_found unknown_job = true
is_not_found e = false

abbrev pub answered : (w : WellKnown) → Reply w (Unit {0}) → Server w × Option RpcError
answered w (s, err e) = (s, some e)
answered w (s, ok _) = (s, none)

-- The controller's handlers as the client, at one time.
abbrev pub direct : WellKnown → Time → Client
direct w now = record {
  State = Server w;
  Failure = RpcError;
  is_not_found = is_not_found;
  register_node = λ s spec. handle_register w s (some spec) now;
  heartbeat = λ s req. handle_heartbeat w s req.node_id;
  report_job_status = λ s req. answered w (handle_report w s req now);
}

abbrev pub IsMember : {w : WellKnown} → Server w → String → Type 0
IsMember s id = (n : Node) × (lookup id s.registry.nodes ≡ some n)

abbrev pub name_of : Config → String
name_of cfg = ite (dec_string cfg.id "") cfg.hostname cfg.id

register_node-lookup :
    (r : Registry) (n : Node) (now : Time)
    → n.id ≢ ""
    → lookup n.id (register_node r n now).nodes ≡ some (registered r n now)
unfolding register_node
register_node-lookup r n now h =
    ap (λ (x : Registry). lookup n.id x.nodes) (if_neg (dec_string n.id "") h _ _)
    ∙ lookup-insert_self n.id (registered r n now) r.nodes

adopted :
    (cfg : Config) (name : String)
    → name ≢ ""
    → ite (dec_string name "") cfg (record cfg { id = name }) ≡ record cfg { id = name }
adopted cfg name n = if_neg (dec_string name "") n _ _

tick_registers :
    (c : Client) (a : Agent c) (done : Bool) (e : c.Failure) (id : String)
    → heartbeat c a ≡ (a, some e)
    → c.is_not_found e ≡ true
    → (register c a).1 ≡ ok id
    → heartbeat_tick c a done ≡ ((register c a).0, false)
unfolding heartbeat_tick
tick_registers c a done e id h f q =
    rw (ap (λ o. o.1) h, ap (λ o. o.0) h, f, q, heartbeat_tick) refl

module _ (w : WellKnown) (now : Time) where
  handle_register_joins :
      (s : Server w) (spec : NodeSpec) (name : String)
      → name ≢ ""
      → ite (dec_string spec.id "") spec.hostname spec.id ≡ name
      → ((handle_register w s (some spec) now).1 ≡ ok name)
        × IsMember (handle_register w s (some spec) now).0 name
  unfolding handle_register kicked
  handle_register_joins s spec name n e =
      rw (e, handle_register)
        (ite_ind (λ (o : Reply w String). (o.1 ≡ ok name) × IsMember o.0 name) (dec_string name "")
          (λ p. absurd (n p))
          (λ _. (
            refl,
            (
              registered s.registry (offered w spec name) now,
              register_node-lookup s.registry (offered w spec name) now n,
            ),
          )))

  register_joins :
      (a : Agent (direct w now)) (name : String)
      → name ≢ ""
      → name_of a.cfg ≡ name
      → let (a', r) = register (direct w now) a in
        (r ≡ ok name) × (a'.cfg.id ≡ name) × IsMember a'.client name
  unfolding register
  register_joins a name n e =
      let (q, m) = handle_register_joins a.client (spec_of (direct w now) a.cfg) name n e in
      rw (q, adopted a.cfg name n, register) (refl, refl, m)

  handle_heartbeat_member :
      (s : Server w) (id : String)
      → id ≢ ""
      → IsMember s id
      → ((resp : HeartbeatResponse) × ((handle_heartbeat w s id).1 ≡ ok resp))
        × ((handle_heartbeat w s id).0.registry ≡ s.registry)
  unfolding handle_heartbeat Nodes.get
  handle_heartbeat_member s id h (n, e) =
      ite_ind
        (λ (o : Reply w HeartbeatResponse).
          ((resp : HeartbeatResponse) × (o.1 ≡ ok resp)) × (o.0.registry ≡ s.registry))
        (dec_string id "") (λ p. absurd (h p)) (λ _. rw (e, handle_heartbeat) ((_, refl), refl))

  heartbeat_accepted :
      (a : Agent (direct w now))
      → a.cfg.id ≢ ""
      → IsMember a.client a.cfg.id
      → let (a', e) = heartbeat (direct w now) a in
        (e ≡ none) × (a'.cfg ≡ a.cfg) × (a'.client.registry ≡ a.client.registry)
  unfolding heartbeat
  heartbeat_accepted a h m =
      let ((resp, e), r) = handle_heartbeat_member a.client a.cfg.id h m in
      rw (e, heartbeat) (refl, refl, r)

  heartbeat_unknown :
      (a : Agent (direct w now))
      → a.cfg.id ≢ ""
      → lookup a.cfg.id a.client.registry.nodes ≡ none
      → heartbeat (direct w now) a ≡ (a, some unknown_node)
  unfolding heartbeat handle_heartbeat Nodes.get
  heartbeat_unknown a h e = ground (arith, h, e)

  -- An agent with an id or a host name that starts up against the controller meets no error: it has the
  -- id that is registered, its own or else the host name, the controller knows a node by that id,
  -- and its first heartbeat is accepted.
  pub start_up_joins :
      (a : Agent (direct w now)) (name : String)
      → name ≢ ""
      → name_of a.cfg ≡ name
      → let (a', e) = start_up (direct w now) a in
        (e ≡ none) × (a'.cfg.id ≡ name) × IsMember a'.client name
  unfolding start_up
  start_up_joins a name n e =
      let (q, i, m) = register_joins a name n e in
      let a' = (register (direct w now) a).0 in
      let (x, y, z) =
        heartbeat_accepted a' (λ p. n (sym i ∙ p)) (subst (IsMember a'.client) (sym i) m) in
      rw (q, start_up)
        (
          x,
          ap (λ (c : Config). c.id) y ∙ i,
          subst (λ (r : Registry). (n : Node) × (lookup name r.nodes ≡ some n)) (sym z) m,
        )

  -- After each tick of `heartbeatLoop` the controller knows the agent's node, whether it knew it before
  -- or has lost it, and the loop goes on: an agent that is forgotten registers again.
  pub heartbeat_tick_rejoins :
      (a : Agent (direct w now)) (done : Bool)
      → a.cfg.id ≢ ""
      → let (a', stops) = heartbeat_tick (direct w now) a done in
        (stops ≡ false) × (a'.cfg.id ≡ a.cfg.id) × IsMember a'.client a.cfg.id
  unfolding heartbeat_tick is_not_found
  heartbeat_tick_rejoins a done h = elim (Option-cases (lookup a.cfg.id a.client.registry.nodes)) [
    | inl e ↦
        let (q, i, m) = register_joins a a.cfg.id h (if_neg (dec_string a.cfg.id "") h _ _) in
        let step =
          tick_registers (direct w now) a done unknown_node a.cfg.id (heartbeat_unknown a h e) refl
            q in
        (
          ap (λ o. o.1) step,
          ap (λ o. o.0.cfg.id) step ∙ i,
          subst (λ (x : Server w). IsMember x a.cfg.id) (sym (ap (λ o. o.0.client) step)) m,
        )
    | inr (n, e) ↦
        let (x, y, z) = heartbeat_accepted a h (n, e) in
        rw (x, heartbeat_tick)
          (
            refl,
            ap (λ (c : Config). c.id) y,
            (n, ap (λ (r : Registry). lookup a.cfg.id r.nodes) z ∙ e),
          )
  ]
