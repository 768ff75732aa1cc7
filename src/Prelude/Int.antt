-- ===== src/Prelude/Int.antt =====
-- Signed integers over the native numbers, and the wrap-around of the fixed-width ones.
use Prim.Native.Nat.{ℕ, suc, ◌+◌, ◌-◌, ◌*◌, ◌%◌, ◌^◌, ◌≤◌, ◌<◌}
use mathlib.Core.Path.{◌≡◌}
use mathlib.Core.Bool.{Bool}
use mathlib.Core.Logic.{◌⊎◌}
use native.Mathlib.Omega.{arith}
use slurmlite.Prelude.Tests.{ltb, leb, ◌==◌, if◌then◌else◌}

-- `negsuc n` is -(n + 1).
pub data ℤ : Type 0 where
  pos : ℕ → ℤ
  negsuc : ℕ → ℤ

abbrev pub pos_part : ℤ → ℕ
pos_part (pos n) = n
pos_part (negsuc n) = 0

abbrev pub neg_part : ℤ → ℕ
neg_part (pos n) = 0
neg_part (negsuc n) = suc n

-- a - b, as an integer.
abbrev pub sub_ℕ : ℕ → ℕ → ℤ
sub_ℕ a b = if leb b a then pos (a - b) else negsuc (b - a - 1)

infixl 65 ◌+ℤ◌ ◌-ℤ◌
infix 50 ◌≤ℤ◌ ◌<ℤ◌
unfoldable pub ◌+ℤ◌ : ℤ → ℤ → ℤ
a +ℤ b = sub_ℕ (pos_part a + pos_part b) (neg_part a + neg_part b)

unfoldable pub ◌-ℤ◌ : ℤ → ℤ → ℤ
a -ℤ b = sub_ℕ (pos_part a + neg_part b) (neg_part a + pos_part b)

abbrev pub ◌≤ℤ◌ : ℤ → ℤ → Type 0
a ≤ℤ b = pos_part a + neg_part b ≤ pos_part b + neg_part a

abbrev pub ◌<ℤ◌ : ℤ → ℤ → Type 0
a <ℤ b = pos_part a + neg_part b < pos_part b + neg_part a

abbrev pub ltb_ℤ : ℤ → ℤ → Bool
ltb_ℤ a b = ltb (pos_part a + neg_part b) (pos_part b + neg_part a)

abbrev pub leb_ℤ : ℤ → ℤ → Bool
leb_ℤ a b = leb (pos_part a + neg_part b) (pos_part b + neg_part a)

abbrev pub eqb_ℤ : ℤ → ℤ → Bool
eqb_ℤ a b = pos_part a + neg_part b == pos_part b + neg_part a

-- The signed integers of a width whose largest is `half - 1`, with wrap-around.
unfoldable pub wrap_at : ℕ → ℤ → ℤ
wrap_at half (pos n) =
    let r = n % (2 * half) in if ltb r half then pos r else negsuc (2 * half - 1 - r)
wrap_at half (negsuc n) =
    let r = n % (2 * half) in if ltb r half then negsuc r else pos (2 * half - 1 - r)

abbrev pub wrap64 : ℤ → ℤ
wrap64 = wrap_at (2 ^ 63)

abbrev pub wrap32 : ℤ → ℤ
wrap32 = wrap_at (2 ^ 31)

-- The value lies in the range of a width.
abbrev pub Fits : ℕ → ℤ → Type 0
Fits half a = (pos_part a < half) × (neg_part a ≤ half)

-- In range, nothing wraps.
pub wrap64_of_Fits : (a : ℤ) → Fits (2 ^ 63) a → wrap64 a ≡ a
unfolding wrap_at
wrap64_of_Fits (pos n) h = ground arith
wrap64_of_Fits (negsuc n) h = ground arith

pub wrap32_of_Fits : (a : ℤ) → Fits (2 ^ 31) a → wrap32 a ≡ a
unfolding wrap_at
wrap32_of_Fits (pos n) h = ground arith
wrap32_of_Fits (negsuc n) h = ground arith

pub +ℤ_parts :
    (a b : ℤ)
    → pos_part (a +ℤ b) + neg_part a + neg_part b ≡ neg_part (a +ℤ b) + pos_part a + pos_part b
unfolding ◌+ℤ◌
+ℤ_parts a b = ground arith

pub -ℤ_parts :
    (a b : ℤ)
    → pos_part (a -ℤ b) + neg_part a + pos_part b ≡ neg_part (a -ℤ b) + pos_part a + neg_part b
unfolding ◌-ℤ◌
-ℤ_parts a b = ground arith

pub eq_of_parts : (a b : ℤ) → pos_part a + neg_part b ≡ pos_part b + neg_part a → a ≡ b
eq_of_parts a b h = ground arith

pub parts_disjoint : (a : ℤ) → (pos_part a ≡ 0) ⊎ (neg_part a ≡ 0)
parts_disjoint a = ground arith

pub ruleset int_laws = (arith, +ℤ_parts, -ℤ_parts, parts_disjoint, eq_of_parts)
