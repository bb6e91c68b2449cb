-- ===== src/ReadModel/Attempts.antt =====
-- projector.ts: what rising attempt numbers say of the final attempt and of flakiness.
use qe_report.Prelude.{
  ◌≤◌, ◌<◌, String, Bool, true, false, ◌&&◌, ◌||◌, Option, List, [], ◌∷◌, ◌++◌, ◌≡◌, refl, sym,
  subst, map, length, length-append, any, all, All, ltb, arith, Bool-cases, inl, inr,
}
use qe_report.Prelude.Keys.{text_keys, option_keys, option_beq_iff, ◌===◌}
use qe_report.Prelude.Sorting.{IsSorted}
use qe_report.Validator.Model.{stability_keys}
use qe_report.ReadModel.Model.{Attempt}
use qe_report.ReadModel.Compare.{at_or_before}
use qe_report.ReadModel.Executions.{
  is_passed, expects_passed, highest, failed_unexpectedly, flaky_with, is_flaky, compare_attempts,
  repeats_number, same_identity, distinct, last,
}

-- The attempt numbers rise.
abbrev pub Ascending : List Attempt → Type 0
Ascending [] = Unit
Ascending (x ∷ xs) = All (λ y. x.attempt_number < y.attempt_number) xs × Ascending xs

abbrev pub Sorted : List Attempt → Type 0
Sorted = IsSorted (at_or_before compare_attempts)

All-below :
    (x y : Attempt) (xs : List Attempt)
    → x.attempt_number < y.attempt_number
    → All (λ z. at_or_before compare_attempts y z ≡ true) xs
    → All (λ z. x.attempt_number < z.attempt_number) xs
All-below x y [] h a = tt
All-below x y (z ∷ xs) h a = (ground (arith, a.0), All-below x y xs h a.1)

pub repeats-Ascending : (xs : List Attempt) → Sorted xs → repeats_number xs ≡ false → Ascending xs
repeats-Ascending [] s h = tt
repeats-Ascending (x ∷ []) s h = (tt, tt)
repeats-Ascending (x ∷ y ∷ xs) s h =
    let below : x.attempt_number < y.attempt_number = ground (arith, s.0.0) in
    let rest : Ascending (y ∷ xs) = repeats-Ascending (y ∷ xs) s.1 (ground arith) in
    ((below, All-below x y xs below s.1.0), rest)

pub last-highest :
    (x : Attempt) (xs : List Attempt)
    → Ascending (x ∷ xs)
    → All (λ a. a.attempt_number ≤ (last x xs).attempt_number) (x ∷ xs)
last-highest x [] h = (omega arith, tt)
last-highest x (y ∷ xs) h = let rest = last-highest y xs h.1 in (omega (arith, h.0.0, rest.0), rest)

-- on rising numbers the `reduce` ends at the last attempt, and loses none of the others
module _ (p : Attempt → Bool) where
  highest-last :
      (f : Attempt) (o xs : List Attempt)
      → Ascending (f ∷ xs)
      → ((highest f o xs).0 ≡ last f xs)
        × ((p (last f xs) || any p (highest f o xs).1) ≡ (any p o || any p (f ∷ xs)))
  highest-last f o [] h = (refl, ground arith)
  highest-last f o (a ∷ r) h =
      let above : ltb f.attempt_number a.attempt_number ≡ true = ground (arith, h.0.0) in
      let rest = highest-last a (f ∷ o) r h.1 in
      rw (above, highest) (rest.0, ground (arith, rest.1))

-- the final attempt passed as expected, and some attempt failed that was expected to pass
abbrev pub flaky_of : Attempt → List Attempt → Bool
flaky_of f list =
    (f.finished && is_passed f.status && expects_passed f.expected_status)
    && any failed_unexpectedly list

-- an attempt that passed did not fail
flaky_with_same :
    (f : Attempt) (o list : List Attempt)
    → (failed_unexpectedly f || any failed_unexpectedly o) ≡ any failed_unexpectedly list
    → flaky_with (f, o) ≡ flaky_of f list
flaky_with_same f o list h = ground arith

flaky_with_lem :
    (t : Attempt × List Attempt) (f : Attempt) (list : List Attempt)
    → t.0 ≡ f
    → (failed_unexpectedly f || any failed_unexpectedly t.1) ≡ any failed_unexpectedly list
    → flaky_with t ≡ flaky_of f list
flaky_with_lem (g, o) f list e h =
    subst (λ k. flaky_with (k, o) ≡ flaky_of f list) (sym e) (flaky_with_same f o list h)

pub is_flaky-Ascending :
    (x : Attempt) (xs : List Attempt)
    → Ascending (x ∷ xs)
    → is_flaky (x ∷ xs) ≡ flaky_of (last x xs) (x ∷ xs)
unfolding is_flaky
is_flaky-Ascending x [] h = ground arith
is_flaky-Ascending x (y ∷ r) h =
    let top = highest-last failed_unexpectedly x [] (y ∷ r) h in
    flaky_with_lem (highest x [] (y ∷ r)) (last y r) (x ∷ y ∷ r) top.0 top.1

pub one_identity_of :
    (first : Attempt) (xs : List Attempt)
    → all (same_identity first) xs ≡ true
    → All
        (λ a.
          (a.test.historical_id ≡ first.test.historical_id)
          × (a.test.historical_id_stability ≡ first.test.historical_id_stability))
        xs
one_identity_of first [] h = tt
one_identity_of first (a ∷ xs) h = (
  (
    ground (arith, option_beq_iff text_keys a.test.historical_id first.test.historical_id),
    ground (
      arith,
      stability_keys.beq_iff a.test.historical_id_stability first.test.historical_id_stability,
    ),
  ),
  one_identity_of first xs (ground arith),
)

length-distinct : (seen xs : List (Option String)) → length seen ≤ length (distinct seen xs)
length-distinct seen [] = omega arith
length-distinct seen (x ∷ xs) = elim (Bool-cases (any (λ y. y === x) seen)) [
  | inl e ↦ rw (e, distinct) (length-distinct seen xs)
  | inr e ↦
      rw (e, distinct)
        (omega (arith, length-distinct (seen ++ (x ∷ [])) xs, length-append seen (x ∷ [])))
]

-- one name in the set: it is the name of each
pub distinct-one :
    (r : Option String) (xs : List (Option String))
    → ltb 1 (length (distinct (r ∷ []) xs)) ≡ false
    → (distinct (r ∷ []) xs ≡ (r ∷ [])) × All (λ x. x ≡ r) xs
distinct-one r [] h = (refl, tt)
distinct-one r (x ∷ xs) h = elim (Bool-cases (r === x)) [
  | inl e ↦
      let rest = distinct-one r xs (rw (e, distinct) at h) in
      (rw (e, distinct) rest.0, (sym ((option_beq_iff text_keys r x).0 e), rest.1))
  | inr e ↦ absurd (ground (arith, length-distinct (r ∷ x ∷ []) xs))
]

pub All-map {ℓ κ μ} :
    {A : Type ℓ} {B : Type κ} (P : B → Type μ) (f : A → B) (xs : List A)
    → All P (map f xs)
    → All (λ x. P (f x)) xs
All-map P f [] h = tt
All-map P f (x ∷ xs) h = (h.0, All-map P f xs h.1)
