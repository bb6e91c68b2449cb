-- ===== src/ReadModel/HistoryOrder.antt =====
-- history-order.ts: the order of a history, apart from the comparator.
use mathlib.Core.List.{Permᴰ}
use mathlib.Core.List.Permᴰ
use mathlib.Core.Option.{some-injective}
use qe_report.Prelude.{
  ℕ, ◌<◌, ◌⊎◌, inl, inr, arith, false, String, Bool, true, Option, none, some, List, [], ◌∷◌, ◌≡◌,
  refl, sym, ap, ◌∙◌, subst, map, All,
}
use Prim.Native.Nat.{Ordering}
use qe_report.Prelude.Int.{ℤ, pos, negsuc}
use qe_report.Prelude.Units.{text_le_antisym}
use qe_report.Prelude.Order.{sort, text_le}
use qe_report.Prelude.Sorting.{Pairwise, All-perm, IsSorted, sort-IsSorted, sort_permutes}
use qe_report.ReadModel.Model.{ExecutionOccurrence}
use qe_report.ReadModel.Compare.{at_or_before, compare, or_else, not_after, by_number}
use qe_report.ReadModel.Instant.{HistoryInstant, compare_ints, compare_history_instants}
use qe_report.ReadModel.History.{
  Placed, compare_history_occurrences, place, placed, in_order, sort_history,
}
use qe_report.ReadModel.Orders.{
  at_or_before-IsTotal, compare_history_occurrences-IsOrder, compare-IsOrder,
}

abbrev not_later : Placed → Placed → Bool
not_later = at_or_before compare_history_occurrences

-- the order of integers
abbrev Less : ℤ → ℤ → Type 0
Less (pos a) (pos b) = a < b
Less (pos a) (negsuc b) = ⊥
Less (negsuc a) (pos b) = Unit
Less (negsuc a) (negsuc b) = b < a

-- An earlier millisecond, or the same and an earlier place in a leap second.
abbrev Sooner : HistoryInstant → HistoryInstant → Type 0
Sooner i j = Less i.epoch_ms j.epoch_ms ⊎ ((i.epoch_ms ≡ j.epoch_ms) × (i.leap < j.leap))

-- A text that stands before another one by code unit.
abbrev Precedes : String → String → Type 0
Precedes a b = text_le b a ≡ false

-- An earlier instant; or the same and a run id before the other; or the same instant and run id and an
-- execution id that is before the other or the same.
abbrev pub Chronological : Placed → Placed → Type 0
Chronological (i, a) (j, b) =
    Sooner i j
    ⊎ (((i.epoch_ms ≡ j.epoch_ms) × (i.leap ≡ j.leap))
        × (Precedes a.run_id b.run_id
            ⊎ ((a.run_id ≡ b.run_id) × (text_le a.execution_id b.execution_id ≡ true))))

-- a comparator of two, which says `not after`
or_else-cases :
    (o p : Ordering)
    → not_after (or_else o p) ≡ true
    → (o ≡ Ordering.lt) ⊎ ((o ≡ Ordering.eq) × (not_after p ≡ true))
or_else-cases Ordering.lt p h = inl refl
or_else-cases Ordering.eq p h = inr (refl, h)
or_else-cases Ordering.gt p h = cc

or_else-lt :
    (o p : Ordering)
    → or_else o p ≡ Ordering.lt
    → (o ≡ Ordering.lt) ⊎ ((o ≡ Ordering.eq) × (p ≡ Ordering.lt))
or_else-lt Ordering.lt p h = inl refl
or_else-lt Ordering.eq p h = inr (refl, h)
or_else-lt Ordering.gt p h = cc

or_else-eq : (o p : Ordering) → or_else o p ≡ Ordering.eq → (o ≡ Ordering.eq) × (p ≡ Ordering.eq)
or_else-eq Ordering.lt p h = cc
or_else-eq Ordering.eq p h = (refl, h)
or_else-eq Ordering.gt p h = cc

compare_ints-Less : (a b : ℤ) → compare_ints a b ≡ Ordering.lt → Less a b
compare_ints-Less (pos a) (pos b) h = ground arith
compare_ints-Less (pos a) (negsuc b) h = cc
compare_ints-Less (negsuc a) (pos b) h = tt
compare_ints-Less (negsuc a) (negsuc b) h = ground arith

compare_ints-same : (a b : ℤ) → compare_ints a b ≡ Ordering.eq → a ≡ b
compare_ints-same (pos a) (pos b) h = ground arith
compare_ints-same (pos a) (negsuc b) h = cc
compare_ints-same (negsuc a) (pos b) h = cc
compare_ints-same (negsuc a) (negsuc b) h = ground arith

compare-Precedes : (a b : String) → compare a b ≡ Ordering.lt → Precedes a b
unfolding compare
compare-Precedes a b h = ground arith

compare_same : (a b : String) → compare a b ≡ Ordering.eq → a ≡ b
unfolding compare
compare_same a b h = ground (arith, text_le_antisym a b)

compare_at : (a b : String) → not_after (compare a b) ≡ true → text_le a b ≡ true
unfolding compare
compare_at a b h = ground (arith, compare-IsOrder.turned a b)

instants-Sooner : (i j : HistoryInstant) → compare_history_instants i j ≡ Ordering.lt → Sooner i j
instants-Sooner i j h =
    elim (or_else-lt (compare_ints i.epoch_ms j.epoch_ms) (by_number i.leap j.leap) h) [
      | inl e ↦ inl (compare_ints-Less i.epoch_ms j.epoch_ms e)
      | inr e ↦ inr (compare_ints-same i.epoch_ms j.epoch_ms e.0, before i.leap j.leap e.1)
    ]
  where
    before : (m n : ℕ) → by_number m n ≡ Ordering.lt → m < n
    before m n e = ground arith

instants_same :
    (i j : HistoryInstant)
    → compare_history_instants i j ≡ Ordering.eq
    → (i.epoch_ms ≡ j.epoch_ms) × (i.leap ≡ j.leap)
instants_same i j h =
    let (e, f) = or_else-eq (compare_ints i.epoch_ms j.epoch_ms) (by_number i.leap j.leap) h in
    (compare_ints-same i.epoch_ms j.epoch_ms e, equal i.leap j.leap f)
  where
    equal : (m n : ℕ) → by_number m n ≡ Ordering.eq → m ≡ n
    equal m n e = ground arith

not_later-Chronological : (p q : Placed) → not_later p q ≡ true → Chronological p q
not_later-Chronological (i, a) (j, b) h = elim (or_else-cases (compare_history_instants i j) _ h) [
  | inl e ↦ inl (instants-Sooner i j e)
  | inr e ↦ elim (or_else-cases (compare a.run_id b.run_id) _ e.1) [
    | inl f ↦ inr (instants_same i j e.0, inl (compare-Precedes a.run_id b.run_id f))
    | inr f ↦ inr (
      instants_same i j e.0,
      inr (compare_same a.run_id b.run_id f.0, compare_at a.execution_id b.execution_id f.1),
    )
  ]
]

module _ (instant : String → Option HistoryInstant) where
  abbrev IsAt : Placed → Type 0
  IsAt p = instant p.1.occurred_at ≡ some p.0

  -- Where both have instants, the first is in chronological order before the second.
  abbrev pub InHistoryOrder : ExecutionOccurrence → ExecutionOccurrence → Type 0
  InHistoryOrder a b =
      (i j : HistoryInstant)
      → instant a.occurred_at ≡ some i
      → instant b.occurred_at ≡ some j
      → Chronological (i, a) (j, b)

  abbrev Places : List ExecutionOccurrence → List Placed → Type 0
  Places os ps = All IsAt ps × (map (λ p. p.1) ps ≡ os)

  placed-Places :
      (o : ExecutionOccurrence) (os : List ExecutionOccurrence) (i : Option HistoryInstant)
      (r : Option (List Placed)) (ps : List Placed)
      → instant o.occurred_at ≡ i
      → ((qs : List Placed) → r ≡ some qs → Places os qs)
      → placed o i r ≡ some ps
      → Places (o ∷ os) ps
  placed-Places o os (some i) (some r) ps h f e =
      let (at, same) = f r refl in
      subst (Places (o ∷ os)) (some-injective _ _ e) ((h, at), ap (λ l. o ∷ l) same)
  placed-Places o os none r ps h f e = cc
  placed-Places o os (some i) none ps h f e = cc

  place-Places :
      (os : List ExecutionOccurrence) (ps : List Placed) → place instant os ≡ some ps → Places os ps
  place-Places [] ps e = subst (Places []) (some-injective _ _ e) (tt, refl)
  place-Places (o ∷ os) ps e =
      placed-Places o os (instant o.occurred_at) (place instant os) ps refl
        (λ qs k. place-Places os qs k) e

  later-All :
      (p : Placed) (ps : List Placed)
      → IsAt p
      → All IsAt ps
      → All (λ q. not_later p q ≡ true) ps
      → All (InHistoryOrder p.1) (map (λ p. p.1) ps)
  later-All p [] a h k = tt
  later-All p (q ∷ ps) a h k = (
    (λ i j x y.
        subst (λ z. Chronological (z, p.1) (j, q.1)) (some-injective _ _ (sym a ∙ x))
          (subst (λ z. Chronological (p.0, p.1) (z, q.1)) (some-injective _ _ (sym h.0 ∙ y))
            (not_later-Chronological p q k.0))),
    later-All p ps a h.1 k.1,
  )

  ordered :
      (ps : List Placed)
      → All IsAt ps
      → IsSorted not_later ps
      → Pairwise InHistoryOrder (map (λ p. p.1) ps)
  ordered [] h k = tt
  ordered (p ∷ ps) h k = (later-All p ps h.0 h.1 k.0, ordered ps h.1 k.1)

  abbrev Sorts : List ExecutionOccurrence → List ExecutionOccurrence → Type 0
  Sorts os out = Permᴰ out os × Pairwise InHistoryOrder out

  in_order-Sorts :
      (os out : List ExecutionOccurrence) (o : Option (List Placed))
      → place instant os ≡ o
      → in_order o ≡ some out
      → Sorts os out
  in_order-Sorts os out none h e = cc
  in_order-Sorts os out (some ps) h e =
      let (at, same) = place-Places os ps h in
      let p = sort_permutes not_later ps in
      subst (Sorts os) (some-injective _ _ e) (
        subst (Permᴰ (map (λ p. p.1) (sort not_later ps))) same (Permᴰ.map (λ p. p.1) p),
        ordered (sort not_later ps) (All-perm IsAt (Permᴰ.symm p) at) (
            sort-IsSorted not_later
              (at_or_before-IsTotal compare_history_occurrences compare_history_occurrences-IsOrder)
              ps),
      )

  pub sort_history-Sorts :
      (os out : List ExecutionOccurrence)
      → sort_history instant os ≡ some out
      → Permᴰ out os × Pairwise InHistoryOrder out
  unfolding sort_history
  sort_history-Sorts [] out e = subst (Sorts []) (some-injective _ _ e) (Permᴰ.nil, tt)
  sort_history-Sorts (o ∷ []) out e =
      subst (Sorts (o ∷ [])) (some-injective _ _ e) (Permᴰ.refl (o ∷ []), (tt, tt))
  sort_history-Sorts (o ∷ q ∷ os) out e =
      in_order-Sorts (o ∷ q ∷ os) out (place instant (o ∷ q ∷ os)) refl e
