-- ===== src/Prelude/Units.antt =====
-- The order of texts by code unit, in both directions.
use Prim.Native.Nat.{ℕ}
use Prim.Native.Char.{Char, char, code}
use Prim.Native.String.{String}
use mathlib.Core.Path.{◌≡◌, refl}
use mathlib.Core.Bool.{Bool, true, ◌&&◌, ◌||◌}
use mathlib.Core.List.{List, [], ◌∷◌}
use native.Mathlib.Omega.{arith}
use text.Mathlib.TextEquality.{Char-path}
use qe_report.Prelude.Tests.{ltb}
use qe_report.Prelude.Lists.{all}
use qe_report.Prelude.Text.{codes}
use qe_report.Prelude.Order.{units, units_le, text_le}

-- a code point that is no half of a surrogate pair
abbrev scalar : ℕ → Bool
scalar n = ltb n 0xD800 || (ltb 0xDFFF n && ltb n 0x110000)

code-scalar : (c : Char) → scalar (code c) ≡ true
code-scalar (char n h) = ground arith

codes-scalar : (s : String) → all scalar (codes s) ≡ true
codes-scalar String.[] = refl
codes-scalar (String.◌∷◌ c s) = ground (arith, code-scalar c, codes-scalar s)

codes_injective : (s t : String) → codes s ≡ codes t → s ≡ t
codes_injective String.[] String.[] h = refl
codes_injective String.[] (String.◌∷◌ d t) h = cc
codes_injective (String.◌∷◌ c s) String.[] h = cc
codes_injective (String.◌∷◌ c s) (String.◌∷◌ d t) h =
    ground (arith, codes_injective s t, Char-path c d)

units_le_antisym : (a b : List ℕ) → units_le a b ≡ true → units_le b a ≡ true → a ≡ b
unfolding units_le
units_le_antisym [] [] h k = refl
units_le_antisym [] (y ∷ b) h k = cc
units_le_antisym (x ∷ a) [] h k = cc
units_le_antisym (x ∷ a) (y ∷ b) h k = ground (arith, units_le_antisym a b)

units_injective :
    (a b : List ℕ) → all scalar a ≡ true → all scalar b ≡ true → units a ≡ units b → a ≡ b
unfolding units
units_injective [] [] h k e = refl
units_injective [] (y ∷ b) h k e = ground arith
units_injective (x ∷ a) [] h k e = ground arith
units_injective (x ∷ a) (y ∷ b) h k e = ground (arith, units_injective a b)

pub text_le_antisym : (a b : String) → text_le a b ≡ true → text_le b a ≡ true → a ≡ b
unfolding text_le
text_le_antisym a b h k = codes_injective a b (
    units_injective (codes a) (codes b) (codes-scalar a) (codes-scalar b)
      (units_le_antisym (units (codes a)) (units (codes b)) h k))
