-- ===== src/Prelude/Sorting.antt =====
-- What `sort` returns, for an order that is total and transitive.
use mathlib.Core.Path.{◌≡◌, refl, sym, ap, subst, ◌∙◌}
use mathlib.Core.Logic.{inl, inr}
use mathlib.Core.Bool.{Bool, true, false, ◌&&◌}
use mathlib.Core.List.{List, [], ◌∷◌, Permᴰ}
use mathlib.Core.List.Permᴰ
use native.Mathlib.Omega.{arith}
use qe_report.Prelude.Tests.{Bool-cases}
use qe_report.Prelude.Lists.{All}
use qe_report.Prelude.Order.{insert, sort}

pub record IsTotal {ℓ} {A : Type ℓ} (le : A → A → Bool) : Type ℓ where
  pub total : (a b : A) → le a b ≡ false → le b a ≡ true
  pub trans : (a b c : A) → le a b ≡ true → le b c ≡ true → le a c ≡ true

pub All-perm {ℓ κ} :
    {A : Type ℓ} (P : A → Type κ) {xs ys : List A} → Permᴰ xs ys → All P xs → All P ys
All-perm P Permᴰ.nil h = tt
All-perm P (Permᴰ.cons e p) h = (subst P e h.0, All-perm P p h.1)
All-perm P (Permᴰ.swap e f) h = (subst P f h.1.0, (subst P e h.0, h.1.1))
All-perm P (Permᴰ.trans p q) h = All-perm P q (All-perm P p h)

-- A symmetric relation between every two elements.
module _ {ℓ κ} {A : Type ℓ} (R : A → A → Type κ) where
  abbrev pub Pairwise : List A → Type κ
  Pairwise [] = Unit
  Pairwise (x ∷ xs) = All (R x) xs × Pairwise xs

  pub Pairwise-perm :
      ((x y : A) → R x y → R y x) → {xs ys : List A} → Permᴰ xs ys → Pairwise xs → Pairwise ys
  Pairwise-perm s Permᴰ.nil h = tt
  Pairwise-perm s (Permᴰ.cons {l₂ = ys} e p) h =
      (subst (λ w. All (R w) ys) e (All-perm (R _) p h.0), Pairwise-perm s p h.1)
  Pairwise-perm s (Permᴰ.swap {a = a} {b = b} {a' = c} {l = l} e f) ((h, u), (v, w)) =
      subst (λ t. Pairwise (c ∷ t ∷ l)) e
        (subst (λ t. Pairwise (t ∷ a ∷ l)) f ((s a b h, v), (u, w)))
  Pairwise-perm s (Permᴰ.trans p q) h = Pairwise-perm s q (Pairwise-perm s p h)

module _ {ℓ} {A : Type ℓ} (le : A → A → Bool) where
  -- The order tells every two elements apart.
  abbrev pub Apart : List A → Type 0
  Apart = Pairwise (λ x y. (le x y && le y x) ≡ false)

  abbrev pub IsSorted : List A → Type 0
  IsSorted = Pairwise (λ x y. le x y ≡ true)

  apart_comm : (x y : A) → (le x y && le y x) ≡ false → (le y x && le x y) ≡ false
  apart_comm x y h = ground arith

  pub Apart-perm : {xs ys : List A} → Permᴰ xs ys → Apart xs → Apart ys
  Apart-perm = Pairwise-perm (λ x y. (le x y && le y x) ≡ false) apart_comm

  -- Elements that the order does not tell apart are equal.
  abbrev pub Told : List A → Type ℓ
  Told = Pairwise (λ x y. (le x y && le y x) ≡ true → x ≡ y)

  told_comm : (x y : A) → ((le x y && le y x) ≡ true → x ≡ y) → (le y x && le x y) ≡ true → y ≡ x
  told_comm x y h e = sym (h (ground arith))

  module _ (o : IsTotal le) where
    insert_swap :
        (x y : A) (s : List A)
        → (le x y && le y x) ≡ false
        → insert le x (insert le y s) ≡ insert le y (insert le x s)
    unfolding insert
    insert_swap x y [] h = ground (arith, o.total x y)
    insert_swap x y (z ∷ s) h =
        ground (arith, o.total x y, o.total y x, o.trans x y z, o.trans y x z, insert_swap x y s h)

    All-insert {κ} : (P : A → Type κ) (x : A) (s : List A) → P x → All P s → All P (insert le x s)
    unfolding insert
    All-insert P x [] p h = (p, tt)
    All-insert P x (y ∷ s) p h = elim (Bool-cases (le x y)) [
      | inl e ↦ rw e (p, h)
      | inr e ↦ rw e (h.0, All-insert P x s p h.1)
    ]

    All-le :
        (x y : A) (s : List A)
        → le x y ≡ true
        → All (λ z. le y z ≡ true) s
        → All (λ z. le x z ≡ true) s
    All-le x y [] e h = tt
    All-le x y (z ∷ s) e h = (o.trans x y z e h.0, All-le x y s e h.1)

    insert-IsSorted : (x : A) (s : List A) → IsSorted s → IsSorted (insert le x s)
    unfolding insert
    insert-IsSorted x [] h = (tt, tt)
    insert-IsSorted x (y ∷ s) h = elim (Bool-cases (le x y)) [
      | inl e ↦ rw e ((e, All-le x y s e h.0), h)
      | inr e ↦
          rw e (All-insert (λ z. le y z ≡ true) x s (o.total x y e) h.0, insert-IsSorted x s h.1)
    ]

    pub sort-IsSorted : (xs : List A) → IsSorted (sort le xs)
    unfolding sort
    sort-IsSorted [] = tt
    sort-IsSorted (x ∷ xs) = insert-IsSorted x (sort le xs) (sort-IsSorted xs)

    insert_swap_told :
        (x y : A) (s : List A)
        → ((le x y && le y x) ≡ true → x ≡ y)
        → insert le x (insert le y s) ≡ insert le y (insert le x s)
    insert_swap_told x y s h = elim (Bool-cases (le x y && le y x)) [
      | inl e ↦
          ap (λ z. insert le z (insert le y s)) (h e)
          ∙ ap (λ z. insert le y (insert le z s)) (sym (h e))
      | inr e ↦ insert_swap x y s e
    ]

    -- One order of the elements comes out, whatever order they come in.
    pub sort-perm : {xs ys : List A} → Permᴰ xs ys → Told xs → sort le xs ≡ sort le ys
    unfolding sort
    sort-perm Permᴰ.nil h = refl
    sort-perm (Permᴰ.cons {b = y} {l₁ = xs} e p) h =
        ap (λ w. insert le w (sort le xs)) e ∙ ap (insert le y) (sort-perm p h.1)
    sort-perm (Permᴰ.swap {a = a} {b = b} {a' = c} {l = l} e f) h =
        insert_swap_told a b (sort le l) h.0.0
        ∙ ap (λ w. insert le w (insert le a (sort le l))) f
        ∙ ap (λ w. insert le c (insert le w (sort le l))) e
    sort-perm (Permᴰ.trans p q) h =
        sort-perm p h
        ∙ sort-perm q (Pairwise-perm (λ x y. (le x y && le y x) ≡ true → x ≡ y) told_comm p h)

module _ {ℓ} {A : Type ℓ} (le : A → A → Bool) where
  insert-perm : (x : A) (s : List A) → Permᴰ (insert le x s) (x ∷ s)
  unfolding insert
  insert-perm x [] = Permᴰ.refl (x ∷ [])
  insert-perm x (y ∷ s) = elim (Bool-cases (le x y)) [
    | inl e ↦ rw (e, insert) (Permᴰ.refl (x ∷ y ∷ s))
    | inr e ↦
        rw (e, insert) (Permᴰ.trans (Permᴰ.cons refl (insert-perm x s)) (Permᴰ.swap refl refl))
  ]

  pub sort_permutes : (xs : List A) → Permᴰ (sort le xs) xs
  unfolding sort
  sort_permutes [] = Permᴰ.nil
  sort_permutes (x ∷ xs) =
      Permᴰ.trans (insert-perm x (sort le xs)) (Permᴰ.cons refl (sort_permutes xs))
