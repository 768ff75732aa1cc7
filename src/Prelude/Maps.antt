-- ===== src/Prelude/Maps.antt =====
-- A Go map with string keys, as an association list. The order of the list is the order in which
-- `range` visits the entries; no theorem but those on iteration speaks of it.
use Prim.Native.String.{String}
use mathlib.Core.Path.{◌≡◌, refl, ◌∙◌}
use mathlib.Core.Logic.{◌≢◌, ite, if_pos, if_neg}
use mathlib.Core.List.{List, [], ◌∷◌}
use mathlib.Core.Option.{Option, none, some}
use slurmlite.Prelude.Lists.{All, All-map}
use native.Mathlib.Omega.{arith}
use slurmlite.Prelude.Tests.{dec_string}

abbrev pub Map {ℓ} : Type ℓ → Type ℓ
Map V = List (String × V)

module _ {ℓ} {V : Type ℓ} where
  unfoldable pub lookup : String → Map V → Option V
  lookup k [] = none
  lookup k ((j, v) ∷ m) = ite (dec_string j k) (some v) (lookup k m)

  unfoldable pub insert : String → V → Map V → Map V
  insert k v [] = (k, v) ∷ []
  insert k v ((j, w) ∷ m) = ite (dec_string j k) ((k, v) ∷ m) ((j, w) ∷ insert k v m)

  unfoldable pub delete : String → Map V → Map V
  delete k [] = []
  delete k ((j, w) ∷ m) = ite (dec_string j k) (delete k m) ((j, w) ∷ delete k m)

  -- No key stands twice, as in every map that Go can build.
  abbrev pub HasUniqueKeys : Map V → Type ℓ
  HasUniqueKeys [] = Unit
  HasUniqueKeys ((k, v) ∷ m) = (lookup k m ≡ none) × HasUniqueKeys m

  pub lookup-insert :
      (k j : String) (v : V) (m : Map V)
      → lookup j (insert k v m) ≡ ite (dec_string k j) (some v) (lookup j m)
  unfolding lookup insert
  lookup-insert k j v [] = refl
  lookup-insert k j v ((i, w) ∷ m) = ground (arith, lookup-insert k j v m)

  pub lookup-insert_self : (k : String) (v : V) (m : Map V) → lookup k (insert k v m) ≡ some v
  lookup-insert_self k v m = lookup-insert k k v m ∙ if_pos (dec_string k k) refl (some v) _

  pub lookup-insert_ne :
      (k j : String) (v : V) (m : Map V) → k ≢ j → lookup j (insert k v m) ≡ lookup j m
  lookup-insert_ne k j v m h = lookup-insert k j v m ∙ if_neg (dec_string k j) h (some v) _

  pub lookup-delete :
      (k j : String) (m : Map V) → lookup j (delete k m) ≡ ite (dec_string k j) none (lookup j m)
  unfolding lookup delete
  lookup-delete k j [] = ground arith
  lookup-delete k j ((i, w) ∷ m) = ground (arith, lookup-delete k j m)

  pub insert-HasUniqueKeys :
      (k : String) (v : V) (m : Map V) → HasUniqueKeys m → HasUniqueKeys (insert k v m)
  unfolding lookup insert
  insert-HasUniqueKeys k v [] u = (refl, tt)
  insert-HasUniqueKeys k v ((j, w) ∷ m) u = elim (dec_string j k) [
    | yes p ↦ rw (if_pos (dec_string j k) p) (ground arith)
    | no p ↦
        rw (if_neg (dec_string j k) p)
          (lookup-insert k j v m ∙ ground arith, insert-HasUniqueKeys k v m u.1)
  ]

  pub delete-HasUniqueKeys : (k : String) (m : Map V) → HasUniqueKeys m → HasUniqueKeys (delete k m)
  unfolding delete
  delete-HasUniqueKeys k [] u = tt
  delete-HasUniqueKeys k ((j, w) ∷ m) u = elim (dec_string j k) [
    | yes p ↦ rw (if_pos (dec_string j k) p) (delete-HasUniqueKeys k m u.1)
    | no p ↦
        rw (if_neg (dec_string j k) p)
          (lookup-delete k j m ∙ ground arith, delete-HasUniqueKeys k m u.1)
  ]

  pub delete-insert_self : (k : String) (v : V) (m : Map V) → delete k (insert k v m) ≡ delete k m
  unfolding insert delete
  delete-insert_self k v [] = ground arith
  delete-insert_self k v ((j, w) ∷ m) = ground (arith, delete-insert_self k v m)

  pub lookup-insert_inv :
      (k j : String) (v : V) {w : V} (m : Map V) → k ≡ j → lookup j (insert k v m) ≡ some w → v ≡ w
  lookup-insert_inv k j v m e h = ground (arith, lookup-insert k j v m)

  -- What `range` visits is what the map holds.
  pub entries_found :
      (m : Map V) → HasUniqueKeys m → All (λ (e : String × V). lookup e.0 m ≡ some e.1) m
  unfolding lookup
  entries_found [] u = tt
  entries_found ((k, v) ∷ m) u = (
    if_pos (dec_string k k) refl (some v) (lookup k m),
    All-map (λ (e : String × V). lookup e.0 m ≡ some e.1)
        (λ (e : String × V). lookup e.0 ((k, v) ∷ m) ≡ some e.1) m (λ e h. ground arith)
        (entries_found m u.1),
  )
