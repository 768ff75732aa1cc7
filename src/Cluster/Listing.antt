-- ===== src/Cluster/Listing.antt =====
-- `ListNodes` of internal/cluster/registry.go: every node once, and nothing else.
use slurmlite.Cluster.Invariant.{Inv}
use slurmlite.Cluster.Registry.{Node, Registry, id_less, insert_sorted, sorted_nodes, list_nodes}
use slurmlite.Prelude.{
  Map, lookup, HasUniqueKeys, dec_string, if_pos, if_neg, if_ind, String, List, [], ◌∷◌, Option,
  none, some, ◌≡◌, ◌≢◌, sym, ap, ◌∙◌, ◌⊎◌, inl, inr, ◌↔◌, arith, In, Distinct, All, All-map,
  entries_found,
}

abbrev pub ids_of : List Node → List String
ids_of [] = []
ids_of (n ∷ ns) = n.id ∷ ids_of ns

All-insert_sorted :
    (P : Node → Type 0) (n : Node) (ns : List Node) → P n → All P ns → All P (insert_sorted n ns)
unfolding insert_sorted
All-insert_sorted P n [] p h = (p, tt)
All-insert_sorted P n (x ∷ xs) p h = ground (arith, All-insert_sorted P n xs p h.1)

In-insert_sorted :
    (k : String) (n : Node) (ns : List Node)
    → In k (ids_of (insert_sorted n ns))
    → (n.id ≡ k) ⊎ In k (ids_of ns)
unfolding insert_sorted
In-insert_sorted k n [] h = h
In-insert_sorted k n (x ∷ xs) h = ground (arith, In-insert_sorted k n xs)

insert_sorted-In :
    (k : String) (n : Node) (ns : List Node)
    → (n.id ≡ k) ⊎ In k (ids_of ns)
    → In k (ids_of (insert_sorted n ns))
unfolding insert_sorted
insert_sorted-In k n [] h = h
insert_sorted-In k n (x ∷ xs) h = ground (arith, insert_sorted-In k n xs)

insert_sorted-Distinct :
    (n : Node) (ns : List Node)
    → ¬ In n.id (ids_of ns)
    → Distinct (ids_of ns)
    → Distinct (ids_of (insert_sorted n ns))
unfolding insert_sorted
insert_sorted-Distinct n [] a d = (a, tt)
insert_sorted-Distinct n (x ∷ xs) a d =
    if_ind (λ l. Distinct (ids_of l)) (id_less x n) {x = x ∷ insert_sorted n xs} {y = n ∷ x ∷ xs}
      (λ _. (fresh, insert_sorted-Distinct n xs (λ i. a (inr i)) d.1)) (λ _. (a, d))
  where
    fresh : ¬ In x.id (ids_of (insert_sorted n xs))
    fresh i = elim (In-insert_sorted x.id n xs i) [ inl e ↦ a (inl (sym e)) | inr j ↦ d.0 j ]

All-sorted_nodes :
    (P : Node → Type 0) (m : Map Node)
    → All (λ (e : String × Node). P e.1) m
    → All P (sorted_nodes m)
unfolding sorted_nodes
All-sorted_nodes P [] h = tt
All-sorted_nodes P ((k, n) ∷ m) h =
    All-insert_sorted P n (sorted_nodes m) h.0 (All-sorted_nodes P m h.1)

abbrev Keyed : Map Node → Type 0
Keyed m = All (λ (e : String × Node). e.1.id ≡ e.0) m

In-sorted_nodes :
    (k : String) (m : Map Node)
    → Keyed m
    → In k (ids_of (sorted_nodes m))
    → (n : Node) × (lookup k m ≡ some n)
unfolding sorted_nodes lookup
In-sorted_nodes k [] h i = absurd i
In-sorted_nodes k ((j, n) ∷ m) h i = elim (dec_string j k) [
  | yes p ↦ (n, if_pos (dec_string j k) p (some n) _)
  | no q ↦ elim (In-insert_sorted k n (sorted_nodes m) i) [
    | inl e ↦ absurd (q (sym h.0 ∙ e))
    | inr r ↦
        let (o, f) = In-sorted_nodes k m h.1 r in (o, if_neg (dec_string j k) q (some n) _ ∙ f)
  ]
]

sorted_nodes-In :
    (k : String) (m : Map Node) {n : Node}
    → Keyed m
    → lookup k m ≡ some n
    → In k (ids_of (sorted_nodes m))
unfolding sorted_nodes lookup
sorted_nodes-In k [] h e = cc
sorted_nodes-In k ((j, o) ∷ m) {n} h e = elim (dec_string j k) [
  | yes p ↦ insert_sorted-In k o (sorted_nodes m) (inl (h.0 ∙ p))
  | no q ↦
      insert_sorted-In k o (sorted_nodes m)
        (inr (sorted_nodes-In k m {n = n} h.1 (sym (if_neg (dec_string j k) q (some o) _) ∙ e)))
]

sorted_nodes-Distinct :
    (m : Map Node) → HasUniqueKeys m → Keyed m → Distinct (ids_of (sorted_nodes m))
unfolding sorted_nodes
sorted_nodes-Distinct [] u h = tt
sorted_nodes-Distinct ((k, n) ∷ m) u h =
    insert_sorted-Distinct n (sorted_nodes m)
      (λ i.
        let (o, e) = In-sorted_nodes n.id m h.1 i in
        absurd (none_some (sym u.0 ∙ ap (λ x. lookup x m) (sym h.0) ∙ e)))
      (sorted_nodes-Distinct m u.1 h.1)
  where
    none_some : {o : Node} → ◌≢◌ {A = Option Node} none (some o)
    none_some q = cc

Inv-Keyed : (r : Registry) → Inv r → Keyed r.nodes
Inv-Keyed r v =
    All-map (λ (e : String × Node). lookup e.0 r.nodes ≡ some e.1) (λ e. e.1.id ≡ e.0) r.nodes
      (λ e h. (v.sound e.0 e.1 h).keyed) (entries_found r.nodes v.unique)

-- Each listed node is the registered one of its id.
pub list_nodes_found :
    (r : Registry) → Inv r → All (λ n. lookup n.id r.nodes ≡ some n) (list_nodes r)
unfolding list_nodes
list_nodes_found r v =
    All-sorted_nodes (λ n. lookup n.id r.nodes ≡ some n) r.nodes
      (All-map (λ (e : String × Node). lookup e.0 r.nodes ≡ some e.1)
        (λ e. lookup e.1.id r.nodes ≡ some e.1) r.nodes
        (λ e h. ap (λ x. lookup x r.nodes) (v.sound e.0 e.1 h).keyed ∙ h)
        (entries_found r.nodes v.unique))

pub list_nodes-Distinct : (r : Registry) → Inv r → Distinct (ids_of (list_nodes r))
unfolding list_nodes
list_nodes-Distinct r v = sorted_nodes-Distinct r.nodes v.unique (Inv-Keyed r v)

-- The ids of the list are the registered ids.
pub list_nodes-In_iff :
    (r : Registry) (k : String)
    → Inv r
    → In k (ids_of (list_nodes r)) ↔ ((n : Node) × (lookup k r.nodes ≡ some n))
unfolding list_nodes
list_nodes-In_iff r k v = (
  In-sorted_nodes k r.nodes (Inv-Keyed r v),
  λ (n, e). sorted_nodes-In k r.nodes {n = n} (Inv-Keyed r v) e,
)
