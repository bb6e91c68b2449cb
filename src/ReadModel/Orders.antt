-- ===== src/ReadModel/Orders.antt =====
-- The laws of an order, for the comparators of the read model.
use Prim.Native.Nat.{Ordering}
use qe_report.Prelude.{ℕ, String, true, false, List, [], ◌∷◌, ◌≡◌, refl, arith}
use qe_report.Prelude.Int.{ℤ, pos, negsuc}
use qe_report.Prelude.Text.{codes}
use qe_report.Prelude.Order.{units, units_le, text_le}
use qe_report.Prelude.Sorting.{IsTotal}
use qe_report.ReadModel.Compare.{compare, or_else, not_after, by_number, at_or_before}
use qe_report.ReadModel.Instant.{HistoryInstant, compare_ints, compare_history_instants}
use qe_report.ReadModel.History.{Placed, compare_history_occurrences}
use qe_report.ReadModel.Project.{Emitted, compare_events, compare_emitted}
use qe_report.Protocol.Model.{Event}

units_le_total : (a b : List ℕ) → units_le a b ≡ false → units_le b a ≡ true
unfolding units_le
units_le_total [] b h = ground arith
units_le_total (x ∷ a) [] h = refl
units_le_total (x ∷ a) (y ∷ b) h = ground (arith, units_le_total a b)

units_le_trans : (a b c : List ℕ) → units_le a b ≡ true → units_le b c ≡ true → units_le a c ≡ true
unfolding units_le
units_le_trans [] b c h k = refl
units_le_trans (x ∷ a) [] c h k = ground arith
units_le_trans (x ∷ a) (y ∷ b) [] h k = k
units_le_trans (x ∷ a) (y ∷ b) (z ∷ c) h k = ground (arith, units_le_trans a b c)

-- The sign of a comparator: turned by an exchange of its arguments, and transitive.
abbrev pub opposite : Ordering → Ordering
opposite Ordering.lt = Ordering.gt
opposite Ordering.eq = Ordering.eq
opposite Ordering.gt = Ordering.lt

pub record IsOrder {ℓ} {A : Type ℓ} (cmp : A → A → Ordering) : Type ℓ where
  pub turned : (a b : A) → cmp b a ≡ opposite (cmp a b)
  pub trans :
      (a b c : A)
      → not_after (cmp a b) ≡ true
      → not_after (cmp b c) ≡ true
      → not_after (cmp a c) ≡ true

pub at_or_before-IsTotal {ℓ} :
    {A : Type ℓ} (cmp : A → A → Ordering) → IsOrder cmp → IsTotal (at_or_before cmp)
at_or_before-IsTotal cmp o = record {
  total = λ a b h. ground (arith, o.turned a b);
  trans = o.trans;
}

compare_turned : (a b : String) → compare b a ≡ opposite (compare a b)
unfolding compare text_le
compare_turned a b = ground (
  arith,
  units_le_total (units (codes a)) (units (codes b)),
  units_le_total (units (codes b)) (units (codes a)),
)

compare_trans :
    (a b c : String)
    → not_after (compare a b) ≡ true
    → not_after (compare b c) ≡ true
    → not_after (compare a c) ≡ true
unfolding compare text_le
compare_trans a b c h k =
    let u = units (codes a) in
    let v = units (codes b) in
    let w = units (codes c) in
    ground (
      arith,
      units_le_total u v,
      units_le_total v u,
      units_le_total v w,
      units_le_total w v,
      units_le_total u w,
      units_le_total w u,
      units_le_trans u v w,
      units_le_trans w v u,
      units_le_trans u w v,
      units_le_trans v w u,
      units_le_trans v u w,
      units_le_trans w u v,
    )

pub compare-IsOrder : IsOrder compare
compare-IsOrder = record { turned = compare_turned; trans = compare_trans }

by_number_turned : (a b : ℕ) → by_number b a ≡ opposite (by_number a b)
by_number_turned a b = ground arith

by_number_trans :
    (a b c : ℕ)
    → not_after (by_number a b) ≡ true
    → not_after (by_number b c) ≡ true
    → not_after (by_number a c) ≡ true
by_number_trans a b c h k = ground arith

pub by_number-IsOrder : IsOrder by_number
by_number-IsOrder = record { turned = by_number_turned; trans = by_number_trans }

or_else_turned :
    (o p o' p' : Ordering)
    → o' ≡ opposite o
    → p' ≡ opposite p
    → or_else o' p' ≡ opposite (or_else o p)
or_else_turned o p o' p' h k = ground arith

-- the second comparator decides where the first says nothing
pub or_else-IsOrder {ℓ} :
    {A : Type ℓ} (f g : A → A → Ordering)
    → IsOrder f
    → IsOrder g
    → IsOrder (λ a b. or_else (f a b) (g a b))
or_else-IsOrder f g o p = record {
  turned = λ a b. or_else_turned (f a b) (g a b) (f b a) (g b a) (o.turned a b) (p.turned a b);
  trans = λ a b c h k. ground (
    arith,
    o.turned a b,
    o.turned b c,
    o.turned a c,
    o.trans a b c,
    o.trans c a b,
    o.trans b c a,
    p.trans a b c,
  );
}

pub key-IsOrder {ℓ κ} :
    {A : Type ℓ} {K : Type κ} (key : A → K) (cmp : K → K → Ordering)
    → IsOrder cmp
    → IsOrder (λ a b. cmp (key a) (key b))
key-IsOrder key cmp o = record {
  turned = λ a b. o.turned (key a) (key b);
  trans = λ a b c. o.trans (key a) (key b) (key c);
}

compare_ints_turned : (a b : ℤ) → compare_ints b a ≡ opposite (compare_ints a b)
compare_ints_turned (pos a) (pos b) = by_number_turned a b
compare_ints_turned (pos a) (negsuc b) = refl
compare_ints_turned (negsuc a) (pos b) = refl
compare_ints_turned (negsuc a) (negsuc b) = by_number_turned b a

compare_ints_trans :
    (a b c : ℤ)
    → not_after (compare_ints a b) ≡ true
    → not_after (compare_ints b c) ≡ true
    → not_after (compare_ints a c) ≡ true
compare_ints_trans (pos a) (pos b) (pos c) h k = by_number_trans a b c h k
compare_ints_trans (negsuc a) (negsuc b) (negsuc c) h k = by_number_trans c b a k h
compare_ints_trans a b c h k = ground arith

pub compare_ints-IsOrder : IsOrder compare_ints
compare_ints-IsOrder = record { turned = compare_ints_turned; trans = compare_ints_trans }

pub compare_events-IsOrder : IsOrder compare_events
compare_events-IsOrder =
    or_else-IsOrder (λ a b. compare a.session_id b.session_id)
      (λ a b. by_number a.sequence b.sequence)
      (key-IsOrder (λ (e : Event). e.session_id) compare compare-IsOrder)
      (key-IsOrder (λ (e : Event). e.sequence) by_number by_number-IsOrder)

pub compare_emitted-IsOrder : IsOrder compare_emitted
compare_emitted-IsOrder =
    or_else-IsOrder (λ a b. compare a.session_id b.session_id)
      (λ a b. by_number a.sequence b.sequence)
      (key-IsOrder (λ (e : Emitted). e.session_id) compare compare-IsOrder)
      (key-IsOrder (λ (e : Emitted). e.sequence) by_number by_number-IsOrder)

pub compare_history_instants-IsOrder : IsOrder compare_history_instants
compare_history_instants-IsOrder =
    or_else-IsOrder (λ a b. compare_ints a.epoch_ms b.epoch_ms) (λ a b. by_number a.leap b.leap)
      (key-IsOrder (λ (i : HistoryInstant). i.epoch_ms) compare_ints compare_ints-IsOrder)
      (key-IsOrder (λ (i : HistoryInstant). i.leap) by_number by_number-IsOrder)

pub compare_history_occurrences-IsOrder : IsOrder compare_history_occurrences
compare_history_occurrences-IsOrder =
    or_else-IsOrder (λ a b. compare_history_instants a.0 b.0)
      (λ a b. or_else (compare a.1.run_id b.1.run_id) (compare a.1.execution_id b.1.execution_id))
      (key-IsOrder (λ (p : Placed). p.0) compare_history_instants compare_history_instants-IsOrder)
      (or_else-IsOrder (λ a b. compare a.1.run_id b.1.run_id)
        (λ a b. compare a.1.execution_id b.1.execution_id)
        (key-IsOrder (λ (p : Placed). p.1.run_id) compare compare-IsOrder)
        (key-IsOrder (λ (p : Placed). p.1.execution_id) compare compare-IsOrder))
