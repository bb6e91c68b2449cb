-- ===== src/Validator/Highest.antt =====
-- validator.ts: the attempt that the loop over the attempts keeps for an execution.
use qe_report.Prelude.{
  ℕ, ◌≤◌, ◌⊎◌, inl, inr, String, Bool, true, false, Option, none, some, List, [], ◌∷◌, ◌++◌, ◌≡◌,
  refl, sym, subst, ltb, arith, any, if◌then◌else◌, All, All-append, Bool-cases,
}
use mathlib.Core.List.{append_assoc, append-nil}
use mathlib.Core.Option.{some-injective}
use text.Mathlib.TextEquality.{eq_iff}
use qe_report.Prelude.Keys.{text_keys, ◌===◌}
use qe_report.Prelude.Assoc.{Assoc, get, set, get-set}
use qe_report.Validator.Model.{AttemptState}
use qe_report.Validator.Finish.{values, later, final_attempts_from}

abbrev pub Member : AttemptState → List AttemptState → Type 0
Member f [] = ⊥
Member f (a ∷ l) = (a ≡ f) ⊎ Member f l

Member-append_left : (f : AttemptState) (l r : List AttemptState) → Member f l → Member f (l ++ r)
Member-append_left f [] r m = elim m [ ]
Member-append_left f (a ∷ l) r (inl e) = inl e
Member-append_left f (a ∷ l) r (inr m) = inr (Member-append_left f l r m)

Member-append_last : (f : AttemptState) (l : List AttemptState) → Member f (l ++ f ∷ [])
Member-append_last f [] = inl refl
Member-append_last f (a ∷ l) = inr (Member-append_last f l)

-- no attempt of the execution has a higher number
abbrev pub NotAbove : String → ℕ → AttemptState → Type 0
NotAbove id n a = (a.execution_id ≡ id) → a.attempt_number ≤ n

abbrev pub OtherThan : String → AttemptState → Type 0
OtherThan id a = (a.execution_id === id) ≡ false

-- What the final attempt of an execution is, among the attempts of a run.
abbrev pub Highest : String → List AttemptState → Option AttemptState → Type 0
Highest id l none = All (OtherThan id) l
Highest id l (some f) = Member f l × (f.execution_id ≡ id) × All (NotAbove id f.attempt_number) l

All-weaken :
    (P Q : AttemptState → Type 0) (l : List AttemptState)
    → ((a : AttemptState) → P a → Q a)
    → All P l
    → All Q l
All-weaken P Q [] f h = tt
All-weaken P Q (a ∷ l) f h = (f a h.0, All-weaken P Q l f h.1)

above_others : (id : String) (n : ℕ) (a : AttemptState) → OtherThan id a → NotAbove id n a
above_others id n a h e = cc (h, (eq_iff a.execution_id id).1 e)

-- an attempt of another execution changes nothing
Highest-other :
    (id : String) (l : List AttemptState) (a : AttemptState) (o : Option AttemptState)
    → OtherThan id a
    → Highest id l o
    → Highest id (l ++ a ∷ []) o
Highest-other id l a none other h = All-append (OtherThan id) l (a ∷ []) h (other, tt)
Highest-other id l a (some f) other h = (
  Member-append_left f l (a ∷ []) h.0,
  h.1,
  All-append (NotAbove id f.attempt_number) l (a ∷ []) h.2
      (above_others id f.attempt_number a other, tt),
)

-- an attempt of the execution takes the place of the final one, or does not
Highest-same :
    (id : String) (l : List AttemptState) (a : AttemptState) (o : Option AttemptState)
    → a.execution_id ≡ id
    → Highest id l o
    → Highest id (l ++ a ∷ []) (if later a o then some a else o)
Highest-same id l a none same h = (
  Member-append_last a l,
  same,
  All-append (NotAbove id a.attempt_number) l (a ∷ [])
      (All-weaken (OtherThan id) (NotAbove id a.attempt_number) l
        (λ b. above_others id a.attempt_number b) h)
      ((λ _. omega arith), tt),
)
Highest-same id l a (some f) same h = elim (Bool-cases (ltb f.attempt_number a.attempt_number)) [
  | inl above ↦ rw above (
    Member-append_last a l,
    same,
    All-append (NotAbove id a.attempt_number) l (a ∷ [])
        (All-weaken (NotAbove id f.attempt_number) (NotAbove id a.attempt_number) l
          (λ b k e. ground (arith, k e)) h.2)
        ((λ _. omega arith), tt),
  )
  | inr below ↦ rw below (
    Member-append_left f l (a ∷ []) h.0,
    h.1,
    All-append (NotAbove id f.attempt_number) l (a ∷ []) h.2 ((λ e. ground arith), tt),
  )
]

update-other :
    (b : Bool) (k id : String) (a : AttemptState) (m : Assoc String AttemptState)
    → (k === id) ≡ false
    → get id (if b then set k a m else m) ≡ get id m
update-other true k id a m other = ground (arith, get-set k id a m)
update-other false k id a m other = refl

update-same :
    (b : Bool) (k : String) (a : AttemptState) (m : Assoc String AttemptState)
    → get k (if b then set k a m else m) ≡ (if b then some a else get k m)
update-same true k a m = ground (arith, get-set k k a m, eq_iff k k)
update-same false k a m = refl

abbrev pub put_later : AttemptState → Assoc String AttemptState → Assoc String AttemptState
put_later a finals =
    if later a (get a.execution_id finals) then set a.execution_id a finals else finals

Highest-own :
    (l : List AttemptState) (a : AttemptState) (finals : Assoc String AttemptState)
    → Highest a.execution_id l (get a.execution_id finals)
    → Highest a.execution_id (l ++ a ∷ []) (get a.execution_id (put_later a finals))
Highest-own l a finals h =
    subst (Highest a.execution_id (l ++ a ∷ []))
      (sym (update-same (later a (get a.execution_id finals)) a.execution_id a finals))
      (Highest-same a.execution_id l a (get a.execution_id finals) refl h)

Highest-step :
    (l : List AttemptState) (a : AttemptState) (finals : Assoc String AttemptState)
    → ((k : String) → Highest k l (get k finals))
    → (id : String) → Highest id (l ++ a ∷ []) (get id (put_later a finals))
Highest-step l a finals h id = elim (Bool-cases (a.execution_id === id)) [
  | inr other ↦
      subst (Highest id (l ++ a ∷ []))
        (sym (update-other (later a (get a.execution_id finals)) a.execution_id id a finals other))
        (Highest-other id l a (get id finals) other (h id))
  | inl same ↦
      subst (λ k. Highest k (l ++ a ∷ []) (get k (put_later a finals)))
        ((eq_iff a.execution_id id).0 same) (Highest-own l a finals (h a.execution_id))
]

Highest-from :
    (l r : List AttemptState) (finals : Assoc String AttemptState)
    → ((k : String) → Highest k l (get k finals))
    → (id : String) → Highest id (l ++ r) (get id (final_attempts_from finals r))
unfolding final_attempts_from
Highest-from l [] finals h id =
    subst (λ m. Highest id m (get id finals)) (sym (append-nil l)) (h id)
Highest-from l (a ∷ r) finals h id =
    subst (λ m. Highest id m (get id (final_attempts_from finals (a ∷ r))))
      (append_assoc l (a ∷ []) r)
      (Highest-from (l ++ a ∷ []) r (put_later a finals) (Highest-step l a finals h) id)

-- For every execution, the attempt that the loop keeps is one of the attempts, belongs to the
-- execution, and has the highest number among its attempts; none is kept only if there is none.
pub final_attempts_from-Highest :
    (l : List AttemptState) (id : String) → Highest id l (get id (final_attempts_from [] l))
unfolding get
final_attempts_from-Highest l id = Highest-from [] l [] (λ k. tt) id

pub any-values-get :
    (p : AttemptState → Bool) (id : String) (m : Assoc String AttemptState) {f : AttemptState}
    → any p (values m) ≡ false
    → get id m ≡ some f
    → p f ≡ false
unfolding get
any-values-get p id [] h e = cc (e)
any-values-get p id ((k, a) ∷ m) h e = elim (Bool-cases (k === id)) [
  | inl same ↦ subst (λ x. p x ≡ false) (some-injective _ _ (rw same at e)) (ground arith)
  | inr other ↦ any-values-get p id m (ground arith) (rw other at e)
]
