-- ===== src/ReadModel/Compare.antt =====
-- The comparators of the read model: the sign of what they return, as an `Ordering`.
use Prim.Native.Nat.{Ordering, compare as compare_numbers}
use qe_report.Prelude.{ℕ, String, Bool, true, false, if◌then◌else◌}
use qe_report.Prelude.Order.{text_le}

-- `a < b ? -1 : a > b ? 1 : 0`, by code unit
unfoldable pub compare : String → String → Ordering
compare a b =
    if text_le b a then (if text_le a b then Ordering.eq else Ordering.gt) else Ordering.lt

-- `a || b` on the results of comparators
abbrev pub or_else : Ordering → Ordering → Ordering
or_else Ordering.eq o = o
or_else Ordering.lt o = Ordering.lt
or_else Ordering.gt o = Ordering.gt

-- A comparator as the order that a stable sort goes by.
abbrev pub not_after : Ordering → Bool
not_after Ordering.gt = false
not_after _ = true

abbrev pub by_number : ℕ → ℕ → Ordering
by_number a b = compare_numbers a b

abbrev pub at_or_before {ℓ} : {A : Type ℓ} → (A → A → Ordering) → A → A → Bool
at_or_before cmp a b = not_after (cmp a b)

abbrev pub is_eq : Ordering → Bool
is_eq Ordering.eq = true
is_eq _ = false
