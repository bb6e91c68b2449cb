-- ===== src/Prelude/Order.antt =====
-- The order of JavaScript texts by UTF-16 code unit, and the stable `Array.prototype.sort`.
use Prim.Native.Nat.{ℕ, ◌+◌, ◌-◌, ◌/◌, ◌%◌}
use Prim.Native.String.{String}
use mathlib.Core.Bool.{Bool, true, false}
use mathlib.Core.List.{List, [], ◌∷◌}
use qe_report.Prelude.Tests.{ltb, ◌==◌, if◌then◌else◌}
use qe_report.Prelude.Text.{codes}

-- a code point as one or two code units
unfoldable pub units : List ℕ → List ℕ
units [] = []
units (c ∷ r) =
    let rest = units r in
    if ltb c 0x10000
    then c ∷ rest
    else (0xD800 + (c - 0x10000) / 0x400) ∷ (0xDC00 + (c - 0x10000) % 0x400) ∷ rest

-- `a <= b` on code units
unfoldable pub units_le : List ℕ → List ℕ → Bool
units_le [] b = true
units_le (x ∷ a) [] = false
units_le (x ∷ a) (y ∷ b) =
    let rest = units_le a b in if ltb x y then true else if x == y then rest else false

unfoldable pub text_le : String → String → Bool
unfolding units units_le
text_le a b = units_le (units (codes a)) (units (codes b))

module _ {ℓ} {A : Type ℓ} (le : A → A → Bool) where
  -- in front of the first element that does not stand before it
  unfoldable pub insert : A → List A → List A
  insert a [] = a ∷ []
  insert a (x ∷ xs) = if le a x then a ∷ x ∷ xs else x ∷ insert a xs

  unfoldable pub sort : List A → List A
  unfolding insert
  sort [] = []
  sort (x ∷ xs) = insert x (sort xs)
