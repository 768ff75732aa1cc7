-- ===== src/Cluster/Invariant.antt =====
-- What holds of the registry of internal/cluster/registry.go between two calls: every node stands
-- under its own id, and its CPU counts stay in the range of the protocol's int32, so that the
-- arithmetic of `int` never wraps.
pub mod Gangs
use slurmlite.Cluster.Registry
use slurmlite.Cluster.Registry.{
  Node, NodeStatus, NodeStatus-discrete, online, offline, zero_node, Registry, set_node, make,
  registered, is_stale, gone, reap_nodes,
}
use slurmlite.Cluster.Reservations.{
  ReserveError, check_node, check_nodes, check_request, or_zero, taken, take_nodes, reserve_nodes,
  freed, release_nodes, insufficient_cpus, not_registered, busy, not_online,
}
use slurmlite.Prelude.{
  ℤ, pos, negsuc, pos_part, neg_part, ltb_ℤ, leb_ℤ, ltb, leb, ◌==◌, Time, Duration, zero_time,
  is_zero, sub_time, eqb_ℤ, Map, lookup, insert, delete, HasUniqueKeys, lookup-insert,
  lookup-insert_self, lookup-insert_ne, lookup-delete, delete-insert_self, lookup-insert_inv,
  insert-HasUniqueKeys, delete-HasUniqueKeys, is_blank, Result, ok, err, ◌>>=◌, ◌>>◌, fail_if,
  dec_string, ite, if_pos, if_neg, Bool, true, false, not, ◌&&◌, ◌||◌, if◌then◌else◌, Bool-cases,
  Option-cases, ite_ind, if_ind, KeysIn, Covers, length_of_KeysIn, Covers-of_length,
  length_of_Covers, String, List, [], ◌∷◌, ◌++◌, map, length, Option, none, some, ◌≡◌, ◌≢◌, refl,
  sym, ap, subst, ◌∙◌, ◌⊎◌, inl, inr, ◌↔◌, ℕ, zero, suc, ◌+◌, ◌-◌, ◌<◌, ◌≤◌, ◌^◌, arith, In,
  Distinct, All, length-append, In-append_left, In-append_right, In-append_cases, Distinct-snoc,
  ◌+ℤ◌, ◌-ℤ◌, ◌≤ℤ◌, ◌<ℤ◌, wrap64, wrap32, Fits,
}

-- A count between 0 and the largest int32.
abbrev pub IsCount : ℤ → Type 0
IsCount a = (neg_part a ≡ 0) × (pos_part a < 2 ^ 31)

pub record IsSound (k : String) (n : Node) : Type 0 where
  pub keyed : n.id ≡ k
  pub named : k ≢ ""
  pub total : IsCount n.total_cpus
  pub allocated : IsCount n.allocated_cpus

pub record Inv (r : Registry) : Type 0 where
  pub unique : HasUniqueKeys r.nodes
  pub sound : (k : String) (n : Node) → lookup k r.nodes ≡ some n → IsSound k n

pub make-Inv : Inv make
unfolding make lookup
make-Inv = record { unique = tt; sound = λ k n h. cc }

pub set_node-Inv :
    (r : Registry) (k : String) (n : Node) → Inv r → IsSound k n → Inv (set_node r k n)
set_node-Inv r k n v s = record {
  unique = insert-HasUniqueKeys k n r.nodes v.unique;
  sound = λ j o h. elim (dec_string k j) [
    | yes e ↦ subst (λ x. IsSound x o) e (subst (IsSound k) (lookup-insert_inv k j n r.nodes e h) s)
    | no ne ↦ v.sound j o (sym (lookup-insert_ne k j n r.nodes ne) ∙ h)
  ];
}

-- What the registry relies on in a node that is registered or updated.
pub record IsOffer (n : Node) : Type 0 where
  pub total : IsCount n.total_cpus
  pub allocated : IsCount n.allocated_cpus

registered-IsSound :
    (r : Registry) (n : Node) (now : Time)
    → Inv r
    → IsOffer n
    → n.id ≢ ""
    → IsSound n.id (registered r n now)
unfolding registered
registered-IsSound r n now v o h = elim (Option-cases (lookup n.id r.nodes)) [
  | inl e ↦
      rw (e, registered)
        (record { keyed = refl; named = h; total = o.total; allocated = o.allocated })
  | inr (x, e) ↦
      let s = v.sound n.id x e in
      rw (e, registered)
        (record {
          keyed = refl;
          named = h;
          total = if_ind IsCount (eqb_ℤ n.total_cpus (pos 0)) (λ _. s.total) (λ _. o.total);
          allocated = s.allocated;
        })
]

pub register_node-Inv :
    (r : Registry) (n : Node) (now : Time)
    → Inv r
    → IsOffer n
    → Inv (Registry.register_node r n now)
unfolding Registry.register_node
register_node-Inv r n now v o =
    ite_ind Inv (dec_string n.id "") (λ _. v)
      (λ h. set_node-Inv r n.id (registered r n now) v (registered-IsSound r n now v o h))

pub touch-Inv : (r : Registry) (id : String) (now : Time) → Inv r → Inv (Registry.touch r id now).0
unfolding Registry.touch
touch-Inv r id now v =
    ite_ind (λ (o : Registry × Bool). Inv o.0) (dec_string id "") (λ _. v)
      (λ _. elim (Option-cases (lookup id r.nodes)) [
        | inl e ↦ rw (e, Registry.touch) v
        | inr (n, e) ↦
            let s = v.sound id n e in
            rw (e, Registry.touch)
              (set_node-Inv r id _ v (record {
                keyed = s.keyed;
                named = s.named;
                total = s.total;
                allocated = s.allocated;
              }))
      ])

-- The node under a key after a reaping.
abbrev pub reaped : Time → Duration → Option Node → Option Node
reaped now timeout none = none
reaped now timeout (some n) = some (if is_stale now timeout n then gone n else n)

pub lookup-reap_nodes :
    (now : Time) (timeout : Duration) (k : String) (m : Map Node)
    → lookup k (reap_nodes now timeout m).0 ≡ reaped now timeout (lookup k m)
unfolding reap_nodes lookup
lookup-reap_nodes now timeout k [] = refl
lookup-reap_nodes now timeout k ((j, n) ∷ m) = ground (arith, lookup-reap_nodes now timeout k m)

reap_nodes-HasUniqueKeys :
    (now : Time) (timeout : Duration) (m : Map Node)
    → HasUniqueKeys m
    → HasUniqueKeys (reap_nodes now timeout m).0
unfolding reap_nodes
reap_nodes-HasUniqueKeys now timeout [] u = tt
reap_nodes-HasUniqueKeys now timeout ((j, n) ∷ m) u =
    if_ind (λ (o : Map Node × List Node). HasUniqueKeys o.0) (is_stale now timeout n)
      (λ _. (absent, reap_nodes-HasUniqueKeys now timeout m u.1))
      (λ _. (absent, reap_nodes-HasUniqueKeys now timeout m u.1))
  where
    absent : lookup j (reap_nodes now timeout m).0 ≡ none
    absent = lookup-reap_nodes now timeout j m ∙ ap (reaped now timeout) u.0

reaped-IsSound :
    (k : String) (now : Time) (timeout : Duration) (n : Node)
    → IsSound k n
    → IsSound k (if is_stale now timeout n then gone n else n)
reaped-IsSound k now timeout n s =
    if_ind (IsSound k) (is_stale now timeout n)
      (λ _. record { keyed = s.keyed; named = s.named; total = s.total; allocated = s.allocated })
      (λ _. s)

pub reap_stale-Inv :
    (r : Registry) (now : Time) (timeout : Duration)
    → Inv r
    → Inv (Registry.reap_stale r now timeout).0
unfolding Registry.reap_stale
reap_stale-Inv r now timeout v =
    if_ind (λ (o : Registry × List Node). Inv o.0) (leb_ℤ timeout (pos 0)) (λ _. v)
      (λ _. record {
        unique = reap_nodes-HasUniqueKeys now timeout r.nodes v.unique;
        sound = λ k n h. elim (Option-cases (lookup k r.nodes)) [
          | inl e ↦ absurd (ground (arith, lookup-reap_nodes now timeout k r.nodes))
          | inr (o, e) ↦
              subst (IsSound k) (ground (arith, lookup-reap_nodes now timeout k r.nodes, e, h))
                (reaped-IsSound k now timeout o (v.sound k o e))
        ];
      })
