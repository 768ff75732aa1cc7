-- ===== src/Jobs/Pending.antt =====
-- The queue of pending ids under `removePending`.
use slurmlite.Jobs.Manager.{remove_first, assigned_in}
use slurmlite.Prelude.{
  dec_string, if_pos, if_neg, true, String, List, [], ◌∷◌, ◌≡◌, ◌≢◌, refl, ap, inl, inr, arith, In,
  Distinct,
}

pub In-remove_first : (a x : String) (xs : List String) → In a (remove_first x xs) → In a xs
unfolding remove_first
In-remove_first a x [] h = h
In-remove_first a x (y ∷ ys) h = ground (arith, In-remove_first a x ys)

pub In-remove_first_ne :
    (a x : String) (xs : List String) → x ≢ a → In a xs → In a (remove_first x xs)
unfolding remove_first
In-remove_first_ne a x [] n h = h
In-remove_first_ne a x (y ∷ ys) n h = ground (arith, In-remove_first_ne a x ys n)

pub not-In-remove_first : (x : String) (xs : List String) → Distinct xs → ¬ In x (remove_first x xs)
unfolding remove_first
not-In-remove_first x [] d h = h
not-In-remove_first x (y ∷ ys) d h = elim (dec_string y x) [
  | yes p ↦ d.0 (rw p (rw (if_pos (dec_string y x) p) at h))
  | no p ↦ elim (rw (if_neg (dec_string y x) p) at h) [
    | inl e ↦ p e
    | inr i ↦ not-In-remove_first x ys d.1 i
  ]
]

pub remove_first-Distinct :
    (x : String) (xs : List String) → Distinct xs → Distinct (remove_first x xs)
unfolding remove_first
remove_first-Distinct x [] d = tt
remove_first-Distinct x (y ∷ ys) d = elim (dec_string y x) [
  | yes p ↦ rw (if_pos (dec_string y x) p) d.1
  | no p ↦
      rw (if_neg (dec_string y x) p)
        (λ h. d.0 (In-remove_first y x ys h), remove_first-Distinct x ys d.1)
]

-- Ids that are not the removed one keep their order: the removal is a filter on a distinct queue.
pub remove_first_absent : (x : String) (xs : List String) → ¬ In x xs → remove_first x xs ≡ xs
unfolding remove_first
remove_first_absent x [] n = refl
remove_first_absent x (y ∷ ys) n = elim (dec_string y x) [
  | yes p ↦ absurd (n (inl p))
  | no p ↦ rw (if_neg (dec_string y x) p) (ap (◌∷◌ y) (remove_first_absent x ys (λ h. n (inr h))))
]

pub assigned_in→In : (xs : List String) (a : String) → assigned_in xs a ≡ true → In a xs
unfolding assigned_in
assigned_in→In [] a h = cc
assigned_in→In (x ∷ xs) a h = ground (arith, assigned_in→In xs a)

pub In→assigned_in : (xs : List String) (a : String) → In a xs → assigned_in xs a ≡ true
unfolding assigned_in
In→assigned_in [] a h = absurd h
In→assigned_in (x ∷ xs) a h = ground (arith, In→assigned_in xs a)
