-- ===== src/Prelude/Text.antt =====
-- `strings.TrimSpace`, over the code points of a text.
use Prim.Native.Char.{code}
use Prim.Native.Nat.{ℕ}
use Prim.Native.String.{String}
use mathlib.Core.Path.{◌≡◌, refl}
use mathlib.Core.Bool.{Bool, true, false, ◌&&◌, ◌||◌}
use mathlib.Core.List.{List, [], ◌∷◌, reverse}
use slurmlite.Prelude.Tests.{leb, ◌==◌, if◌then◌else◌}

-- `String` has its own `[]` and `∷`.
abbrev pub codes : String → List ℕ
codes String.[] = []
codes (String.◌∷◌ c s) = code c ∷ codes s

-- `unicode.IsSpace`.
unfoldable pub is_space : ℕ → Bool
is_space c =
    (leb 9 c && leb c 13)
    || c == 32
    || c == 0x85
    || c == 0xA0
    || c == 0x1680
    || (leb 0x2000 c && leb c 0x200A)
    || c == 0x2028
    || c == 0x2029
    || c == 0x202F
    || c == 0x205F
    || c == 0x3000

trim_left : List ℕ → List ℕ
trim_left [] = []
trim_left (c ∷ cs) = let rest = trim_left cs in if is_space c then rest else c ∷ cs

unfoldable pub trim_space : String → List ℕ
unfolding trim_left is_space
trim_space s = reverse (trim_left (reverse (trim_left (codes s))))

is_nil : List ℕ → Bool
is_nil [] = true
is_nil (c ∷ cs) = false

-- `strings.TrimSpace(s) == ""`.
unfoldable pub is_blank : String → Bool
unfolding trim_space is_nil
is_blank s = is_nil (trim_space s)

blank_text : is_blank " \t " ≡ true
unfolding is_blank
blank_text = refl

word_text : is_blank " job-1 " ≡ false
unfolding is_blank
word_text = refl
