-- ===== src/Prelude/Lists.antt =====
-- Lists measured by native numbers, and membership of a text.
use Prim.Native.Nat.{ℕ, zero, suc, ◌+◌, ◌-◌, ◌≤◌}
use Prim.Native.String.{String}
use mathlib.Core.Path.{◌≡◌, refl, sym, ap, ◌∙◌}
use mathlib.Core.Logic.{◌⊎◌, inl, inr}
use mathlib.Core.List.{List, [], ◌∷◌, ◌++◌}
use slurmlite.Prelude.Tests.{dec_string}
use native.Mathlib.Omega.{arith}

module _ {ℓ} {A : Type ℓ} where
  abbrev pub length : List A → ℕ
  length [] = 0
  length (x ∷ xs) = suc (length xs)

  abbrev pub drop : ℕ → List A → List A
  drop zero xs = xs
  drop (suc n) [] = []
  drop (suc n) (x ∷ xs) = drop n xs

  abbrev pub All {κ} : (A → Type κ) → List A → Type κ
  All P [] = Unit
  All P (x ∷ xs) = P x × All P xs

  pub length-append : (xs ys : List A) → length (xs ++ ys) ≡ length xs + length ys
  length-append [] ys = omega arith
  length-append (x ∷ xs) ys = omega (arith, length-append xs ys)

  pub length-drop : (n : ℕ) (xs : List A) → length (drop n xs) ≡ length xs - n
  length-drop zero xs = omega arith
  length-drop (suc n) [] = omega arith
  length-drop (suc n) (x ∷ xs) = omega (arith, length-drop n xs)

  -- The last `n` of a list.
  abbrev pub last_of : ℕ → List A → List A
  last_of n xs = drop (length xs - n) xs

  pub drop_append : (n : ℕ) (xs ys : List A) → n ≤ length xs → drop n (xs ++ ys) ≡ drop n xs ++ ys
  drop_append zero xs ys h = refl
  drop_append (suc n) [] ys h = absurd (omega (arith, h))
  drop_append (suc n) (x ∷ xs) ys h = drop_append n xs ys (omega (arith, h))

  drop_empty : (n : ℕ) → drop n [] ≡ []
  drop_empty zero = refl
  drop_empty (suc n) = refl

  drop-drop : (n k : ℕ) (xs : List A) → drop n (drop k xs) ≡ drop (k + n) xs
  drop-drop n zero xs = ap (λ (k : ℕ). drop k xs) (omega arith)
  drop-drop n (suc k) [] = drop_empty n ∙ sym (drop_empty (suc k + n))
  drop-drop n (suc k) (x ∷ xs) = drop-drop n k xs ∙ ap (λ (i : ℕ). drop i (x ∷ xs)) (suc_add k n)
    where
      suc_add : (a b : ℕ) → suc (a + b) ≡ suc a + b
      suc_add a b = omega arith

  -- To keep the last `n` after each addition is to keep the last `n` of all.
  pub last_of_snoc :
      (n : ℕ) (xs : List A) (a : A) → last_of n (last_of n xs ++ a ∷ []) ≡ last_of n (xs ++ a ∷ [])
  last_of_snoc n xs a =
      ap (last_of n) (sym (drop_append (length xs - n) xs (a ∷ []) (omega arith)))
      ∙ drop-drop (length (drop (length xs - n) (xs ++ a ∷ [])) - n) (length xs - n) (xs ++ a ∷ [])
      ∙ ap (λ (k : ℕ). drop k (xs ++ a ∷ []))
          (omega (arith, length-append xs (a ∷ []), length-drop (length xs - n) (xs ++ a ∷ [])))

  pub append_assoc : (xs ys zs : List A) → (xs ++ ys) ++ zs ≡ xs ++ (ys ++ zs)
  append_assoc [] ys zs = refl
  append_assoc (x ∷ xs) ys zs = ap (◌∷◌ x) (append_assoc xs ys zs)

  pub append_empty : (xs : List A) → xs ++ [] ≡ xs
  append_empty [] = refl
  append_empty (x ∷ xs) = ap (◌∷◌ x) (append_empty xs)

module _ {ℓ κ} {A : Type ℓ} where
  pub All-append : (P : A → Type κ) (xs ys : List A) → All P xs → All P ys → All P (xs ++ ys)
  All-append P [] ys hx hy = hy
  All-append P (x ∷ xs) ys hx hy = (hx.0, All-append P xs ys hx.1 hy)

-- The text occurs in the list.
abbrev pub In : String → List String → Type 0
In a [] = ⊥
In a (x ∷ xs) = (x ≡ a) ⊎ In a xs

-- No text occurs twice.
abbrev pub Distinct : List String → Type 0
Distinct [] = Unit
Distinct (x ∷ xs) = (¬ In x xs) × Distinct xs

pub In-append_left : (a : String) (xs ys : List String) → In a xs → In a (xs ++ ys)
In-append_left a (x ∷ xs) ys (inl e) = inl e
In-append_left a (x ∷ xs) ys (inr h) = inr (In-append_left a xs ys h)
In-append_left a [] ys h = absurd h

pub In-append_right : (a : String) (xs ys : List String) → In a ys → In a (xs ++ ys)
In-append_right a [] ys h = h
In-append_right a (x ∷ xs) ys h = inr (In-append_right a xs ys h)

pub In-append_cases : (a : String) (xs ys : List String) → In a (xs ++ ys) → In a xs ⊎ In a ys
In-append_cases a [] ys h = inr h
In-append_cases a (x ∷ xs) ys (inl e) = inl (inl e)
In-append_cases a (x ∷ xs) ys (inr h) = elim (In-append_cases a xs ys h) [
  | inl l ↦ inl (inr l)
  | inr r ↦ inr r
]

pub Distinct-snoc :
    (xs : List String) (a : String) → Distinct xs → ¬ In a xs → Distinct (xs ++ a ∷ [])
Distinct-snoc [] a d n = ((λ h. h), tt)
Distinct-snoc (x ∷ xs) a d n = (
  λ h. elim (In-append_cases x xs (a ∷ []) h) [
    | inl l ↦ d.0 l
    | inr (inl e) ↦ n (inl (ground arith))
    | inr (inr f) ↦ f
  ],
  Distinct-snoc xs a d.1 (λ h. n (inr h)),
)

unfoldable pub dec_In : (a : String) (xs : List String) → Dec (In a xs)
unfolding dec_string
dec_In a [] = no (λ h. h)
dec_In a (x ∷ xs) = elim (dec_string x a) [
  | yes p ↦ yes (inl p)
  | no n ↦ elim (dec_In a xs) [
    | yes q ↦ yes (inr q)
    | no m ↦ no (λ h. elim h [ inl e ↦ n e | inr i ↦ m i ])
  ]
]

module _ {ℓ κ} {A : Type ℓ} where
  pub All-map : (P Q : A → Type κ) (xs : List A) → ((x : A) → P x → Q x) → All P xs → All Q xs
  All-map P Q [] f h = tt
  All-map P Q (x ∷ xs) f h = (f x h.0, All-map P Q xs f h.1)

module _ {ℓ} {A : Type ℓ} where
  abbrev pub take : ℕ → List A → List A
  take zero xs = []
  take (suc n) [] = []
  take (suc n) (x ∷ xs) = x ∷ take n xs

  pub length-take : (n : ℕ) (xs : List A) → n ≤ length xs → length (take n xs) ≡ n
  length-take zero xs h = omega arith
  length-take (suc n) [] h = absurd (omega arith)
  length-take (suc n) (x ∷ xs) h = omega (arith, length-take n xs)

pub In-take : (n : ℕ) (a : String) (xs : List String) → In a (take n xs) → In a xs
In-take zero a xs h = absurd h
In-take (suc n) a [] h = absurd h
In-take (suc n) a (x ∷ xs) (inl e) = inl e
In-take (suc n) a (x ∷ xs) (inr h) = inr (In-take n a xs h)

pub take-Distinct : (n : ℕ) (xs : List String) → Distinct xs → Distinct (take n xs)
take-Distinct zero xs d = tt
take-Distinct (suc n) [] d = tt
take-Distinct (suc n) (x ∷ xs) d = ((λ h. d.0 (In-take n x xs h)), take-Distinct n xs d.1)
