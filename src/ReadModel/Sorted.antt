-- ===== src/ReadModel/Sorted.antt =====
-- projector.ts and read-model.ts: maps that are sorted by their keys.
use mathlib.Core.List.{Permᴰ}
use mathlib.Core.Option.{some-injective}
use qe_report.Prelude.{
  String, Bool, true, false, ◌&&◌, none, some, [], ◌∷◌, ◌≡◌, refl, sym, ap, ◌∙◌, inl, inr, subst,
  if◌then◌else◌, All, arith, Bool-cases,
}
use qe_report.Prelude.Keys.{text_keys, ◌===◌, ===_refl}
use qe_report.Prelude.Assoc.{Assoc, get}
use qe_report.Prelude.Units.{text_le_antisym}
use qe_report.Prelude.Sorting.{IsSorted, Apart, Apart-perm}
use qe_report.ReadModel.Compare.{compare, at_or_before}
use qe_report.ReadModel.Executions.{compare_keys}
use qe_report.ReadModel.Handled.{same_key, turned}
use qe_report.ReadModel.Orders.{compare-IsOrder}

abbrev pub by_key {ℓ} : {V : Type ℓ} → String × V → String × V → Bool
by_key = at_or_before compare_keys

-- Keys that follow each other both ways are one key.
same_place :
    (a b : String) → at_or_before compare a b ≡ true → at_or_before compare b a ≡ true → a ≡ b
unfolding compare
same_place a b h k = ground (arith, text_le_antisym a b, compare-IsOrder.turned a b)

module _ {ℓ} {V : Type ℓ} where
  -- a key that stands nowhere behind
  pub get_absent :
      (k : String) (m : Assoc String V)
      → All (λ y. ((k === y.0) && (y.0 === k)) ≡ false) m
      → get k m ≡ none
  unfolding get
  get_absent k [] h = refl
  get_absent k ((j, v) ∷ m) h =
      ground (arith, text_keys.beq_iff k j, text_keys.beq_iff j k, get_absent k m h.1)

  -- No entry of a key comes before the first of a sorted map.
  absent_before :
      (k j : String) (v w : V) (m : Assoc String V)
      → All (λ y. by_key (k, v) y ≡ true) m
      → get j m ≡ some w
      → at_or_before compare k j ≡ true
  unfolding get
  absent_before k j v w [] h e = cc
  absent_before k j v w ((i, u) ∷ m) h e = elim (Bool-cases (i === j)) [
    | inl s ↦ subst (λ z. at_or_before compare k z ≡ true) ((text_keys.beq_iff i j).0 s) h.0
    | inr s ↦ absent_before k j v w m h.1 (rw (s, get) at e)
  ]

  other_key :
      (i j : String) (v w : V) (m n : Assoc String V)
      → (i === j) ≡ false
      → get i ((i, v) ∷ m) ≡ get i ((j, w) ∷ n)
      → get i n ≡ some v
  unfolding get
  other_key i j v w m n s e =
      ground (arith, ===_refl i, text_keys.beq_iff i j, text_keys.beq_iff j i)

  same_tail :
      (i q : String) (v w : V) (m n : Assoc String V)
      → All (λ y. ((i === y.0) && (y.0 === i)) ≡ false) m
      → All (λ y. ((i === y.0) && (y.0 === i)) ≡ false) n
      → get q ((i, v) ∷ m) ≡ get q ((i, w) ∷ n)
      → get q m ≡ get q n
  unfolding get
  same_tail i q v w m n x y e = elim (Bool-cases (i === q)) [
    | inl s ↦
        let same = (text_keys.beq_iff i q).0 s in
        subst (λ z. get z m ≡ get z n) same (get_absent i m x ∙ sym (get_absent i n y))
    | inr s ↦ rw (s, get) at e
  ]

  same_head :
      (i : String) (v w : V) (m n : Assoc String V)
      → get i ((i, v) ∷ m) ≡ get i ((i, w) ∷ n)
      → v ≡ w
  unfolding get
  same_head i v w m n e = ground (arith, ===_refl i, some-injective v w)

  -- Sorted maps that hold the same are equal.
  pub sorted-get :
      (m n : Assoc String V)
      → IsSorted by_key m
      → IsSorted by_key n
      → Apart same_key m
      → Apart same_key n
      → ((k : String) → get k m ≡ get k n)
      → m ≡ n
  unfolding get
  sorted-get [] [] h k x y e = refl
  sorted-get [] ((j, w) ∷ n) h k x y e = ground (arith, e j, ===_refl j)
  sorted-get ((i, v) ∷ m) [] h k x y e = ground (arith, e i, ===_refl i)
  sorted-get ((i, v) ∷ m) ((j, w) ∷ n) h k x y e = elim (Bool-cases (i === j)) [
    | inl s ↦
        let same = (text_keys.beq_iff i j).0 s in
        let y' = subst (λ z. All (λ y. ((z === y.0) && (y.0 === z)) ≡ false) n) (sym same) y.0 in
        let e' = subst (λ z. (k : String) → get k ((i, v) ∷ m) ≡ get k ((z, w) ∷ n)) (sym same) e in
        ap (λ z. (z, v) ∷ m) same
        ∙ ap (λ z. (j, z) ∷ m) (same_head i v w m n (e' i))
        ∙ ap (λ z. (j, w) ∷ z)
            (sorted-get m n h.1 k.1 x.1 y.1 (λ q. same_tail i q v w m n x.0 y' (e' q)))
    | inr s ↦
        let after = absent_before j i w v n k.0 (other_key i j v w m n s (e i)) in
        let before =
          absent_before i j v w m h.0 (other_key j i w v n m (turned i j s) (sym (e j))) in
        absurd (ground (arith, same_place i j before after, text_keys.beq_iff i j))
  ]

  get_swap :
      (k : String) (a b : String × V) (l : Assoc String V)
      → (same_key a b && same_key b a) ≡ false
      → get k (a ∷ b ∷ l) ≡ get k (b ∷ a ∷ l)
  unfolding get
  get_swap k a b l h = ground (
    arith,
    text_keys.beq_iff a.0 k,
    text_keys.beq_iff b.0 k,
    text_keys.beq_iff a.0 b.0,
    text_keys.beq_iff b.0 a.0,
  )

  pub get-perm :
      (k : String) {m n : Assoc String V} → Permᴰ m n → Apart same_key m → get k m ≡ get k n
  unfolding get
  get-perm k Permᴰ.nil h = refl
  get-perm k (Permᴰ.cons {b = b} {l₁ = xs} e p) h =
      ap (λ z. get k (z ∷ xs)) e ∙ ap (λ r. if b.0 === k then some b.1 else r) (get-perm k p h.1)
  get-perm k (Permᴰ.swap {a = a} {b = b} {a' = c} {l = l} e f) h =
      get_swap k a b l h.0.0 ∙ ap (λ z. get k (z ∷ a ∷ l)) f ∙ ap (λ z. get k (c ∷ z ∷ l)) e
  get-perm k (Permᴰ.trans p q) h = get-perm k p h ∙ get-perm k q (Apart-perm same_key p h)
