-- ===== src/Prelude/Counting.antt =====
-- How many entries a map has, against a list of its keys.
use slurmlite.Prelude.Lists.{length, In, Distinct}
use slurmlite.Prelude.Maps.{Map, lookup, delete, HasUniqueKeys, lookup-delete, delete-HasUniqueKeys}
use slurmlite.Prelude.Tests.{dec_string, Option-cases}
use Prim.Native.Nat.{◌+◌, ◌≤◌}
use Prim.Native.String.{String}
use mathlib.Core.Path.{◌≡◌, refl, sym, ◌∙◌, ap}
use mathlib.Core.Logic.{inl, inr, ◌≢◌, if_neg}
use mathlib.Core.List.{List, [], ◌∷◌}
use mathlib.Core.Option.{Option, none, some}
use native.Mathlib.Omega.{arith}

module _ {ℓ} {V : Type ℓ} where
  pub delete_absent : (k : String) (m : Map V) → lookup k m ≡ none → delete k m ≡ m
  unfolding lookup delete
  delete_absent k [] h = refl
  delete_absent k ((j, w) ∷ m) h = ground (arith, delete_absent k m)

  pub length-delete :
      (k : String) (m : Map V) {v : V}
      → HasUniqueKeys m
      → lookup k m ≡ some v
      → length (delete k m) + 1 ≡ length m
  unfolding lookup delete
  length-delete k [] u h = cc
  length-delete k ((j, w) ∷ m) {v} u h =
      ground (arith, length-delete k m {v = v} u.1, delete_absent k m)

  -- Every entry's key is in the list.
  abbrev pub KeysIn : Map V → List String → Type ℓ
  KeysIn m xs = (k : String) (v : V) → lookup k m ≡ some v → In k xs

  -- Every text of the list is a key.
  abbrev pub Covers : Map V → List String → Type ℓ
  Covers m xs = (k : String) → In k xs → (v : V) × (lookup k m ≡ some v)

  narrow :
      (x : String) (ys : List String) (m : Map V)
      → KeysIn m (x ∷ ys)
      → lookup x m ≡ none
      → KeysIn m ys
  narrow x ys m h n k v e = elim (h k v e) [
    | inl p ↦ absurd (none≢some (sym n ∙ ap (λ y. lookup y m) p ∙ e))
    | inr i ↦ i
  ]
    where
      none≢some : {w : V} → ◌≢◌ {A = Option V} none (some w)
      none≢some q = cc

  shrink : (x : String) (ys : List String) (m : Map V) → KeysIn m (x ∷ ys) → KeysIn (delete x m) ys
  shrink x ys m h k v e = elim (h k v (ground (arith, lookup-delete x k m))) [
    | inl p ↦ absurd (ground (arith, lookup-delete x k m))
    | inr i ↦ i
  ]

  -- A map with its keys in the list has at most as many entries.
  pub length_of_KeysIn :
      (xs : List String) (m : Map V) → HasUniqueKeys m → KeysIn m xs → length m ≤ length xs
  unfolding lookup
  length_of_KeysIn [] [] u h = omega arith
  length_of_KeysIn [] ((k, v) ∷ m) u h = absurd (h k v (ground arith))
  length_of_KeysIn (x ∷ ys) m u h = elim (Option-cases (lookup x m)) [
    | inl n ↦ omega (arith, length_of_KeysIn ys m u (narrow x ys m h n))
    | inr (v, e) ↦ omega (
      arith,
      length-delete x m {v = v} u e,
      length_of_KeysIn ys (delete x m) (delete-HasUniqueKeys x m u) (shrink x ys m h),
    )
  ]

  -- If it has as many, each text of the list is a key.
  pub Covers-of_length :
      (xs : List String) (m : Map V)
      → HasUniqueKeys m
      → KeysIn m xs
      → length xs ≤ length m
      → Covers m xs
  Covers-of_length [] m u h l k i = absurd i
  Covers-of_length (x ∷ ys) m u h l k i = elim (Option-cases (lookup x m)) [
    | inl n ↦ absurd (omega (arith, length_of_KeysIn ys m u (narrow x ys m h n)))
    | inr (v, e) ↦ elim i [
      | inl p ↦ (v, ap (λ y. lookup y m) (sym p) ∙ e)
      | inr q ↦
          let (w, f) =
            Covers-of_length ys (delete x m) (delete-HasUniqueKeys x m u) (shrink x ys m h)
              (omega (arith, length-delete x m {v = v} u e)) k q in
          (w, ground (arith, lookup-delete x k m))
    ]
  ]

  -- A map that has every text of a list without repetition as a key has at least as many entries.
  pub length_of_Covers :
      (xs : List String) (m : Map V)
      → HasUniqueKeys m
      → Distinct xs
      → Covers m xs
      → length xs ≤ length m
  length_of_Covers [] m u d c = omega arith
  length_of_Covers (x ∷ ys) m u d c =
      let (v, e) = c x (inl refl) in
      omega (
        arith,
        length-delete x m {v = v} u e,
        length_of_Covers ys (delete x m) (delete-HasUniqueKeys x m u) d.1 rest,
      )
    where
      rest : Covers (delete x m) ys
      rest k i =
          let (w, f) = c k (inr i) in
          (
            w,
            lookup-delete x k m
                ∙ if_neg (dec_string x k) (λ p. d.0 (subst_In p i)) none (lookup k m)
                ∙ f,
          )
        where
          subst_In : x ≡ k → In k ys → In x ys
          subst_In p j = rw p j
