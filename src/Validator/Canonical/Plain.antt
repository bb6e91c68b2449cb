-- ===== src/Validator/Canonical/Plain.antt =====
-- The canonical text by recursion on the value, beside the stack of `canonical`.
use Prim.Native.String.{◌++◌ as append}
use package.text.Mathlib.TextLemmas.{append_assoc, append-nil}
use qe_report.Prelude.{
  ℕ, zero, suc, ◌+◌, String, Bool, true, false, List, [], ◌∷◌, ◌≡◌, refl, sym, ap, ◌∙◌, arith, All,
  Bool-cases, inl, inr, map,
}
use qe_report.Prelude.Order.{text_le, insert, sort}
use qe_report.Protocol.Json.{
  Json, null, boolean, number, text, array, object, Items, nil, cons, Obj, empty, property, items,
  entries,
}
use qe_report.Validator.Externals.{Externals}
use qe_report.Validator.Canonical.{
  Frame, array_frame, object_frame, Progress, emit, sorted_entries, open_value, comma, round, run,
  rounds, rounds_items, rounds_object,
}

abbrev comma_text : ℕ → String
comma_text zero = ""
comma_text (suc _) = ","

abbrev by_key {ℓ} : {V : Type ℓ} → String × V → String × V → Bool
by_key a b = text_le a.0 b.0

-- the elements from number `n` on, and the closing bracket
unfoldable pub elements : ℕ → List String → String
elements n [] = "]"
elements n (t ∷ ts) = append (comma_text n) (append t (elements (suc n) ts))

unfoldable pub properties : Externals → ℕ → List (String × String) → String
properties x n [] = "}"
properties x n ((k, t) ∷ r) =
    append (comma_text n) (append (append (x.quote k) ":") (append t (properties x (suc n) r)))

-- The canonical text: properties in the order of their names, no white space.
unfoldable mutual
  pub plain : Externals → Json → String
  plain x null = "null"
  plain x (boolean true) = "true"
  plain x (boolean false) = "false"
  plain x (number n) = x.number_text n
  plain x (text s) = x.quote s
  plain x (array vs) = append "[" (elements 0 (plain_items x vs))
  plain x (object o) = append "{" (properties x 0 (sort by_key (plain_properties x o)))

  pub plain_items : Externals → Items → List String
  plain_items x nil = []
  plain_items x (cons v vs) = plain x v ∷ plain_items x vs

  pub plain_properties : Externals → Obj → List (String × String)
  plain_properties x empty = []
  plain_properties x (property k v o) = (k, plain x v) ∷ plain_properties x o

-- A value is written on top of any stack, in its rounds.
abbrev Written : Externals → Json → Type 0
Written x v =
    (stack : List Frame) (out : String) (n : ℕ)
    → run x (rounds v n) (open_value x v (record { out = out; stack = stack })).stack
        (open_value x v (record { out = out; stack = stack })).out
      ≡ run x n stack (append out (plain x v))

abbrev cost : List Json → ℕ → ℕ
cost [] n = suc n
cost (v ∷ vs) n = suc (rounds v (cost vs n))

abbrev run_from : Externals → ℕ → Progress → String
run_from x n p = run x n p.stack p.out

three : (a b c d : String) → append (append (append a b) c) d ≡ append a (append b (append c d))
three a b c d = append_assoc (append a b) c d ∙ append_assoc a b (append c d)

module _ (x : Externals) where
  commas :
      (n : ℕ) (out : String) (stack : List Frame)
      → comma n (record { out = out; stack = stack })
        ≡ record { out = append out (comma_text n); stack = stack }
  commas zero out stack = ap (λ o. record { out = o; stack = stack }) (sym (append-nil out))
  commas (suc n) out stack = refl

  array_frame-run :
      (n : ℕ) (vs : List Json) (stack : List Frame) (out : String) (f : ℕ)
      → All (Written x) vs
      → run x (cost vs f) (array_frame n vs ∷ stack) out
        ≡ run x f stack (append out (elements n (map (plain x) vs)))
  unfolding run round elements
  array_frame-run n [] stack out f h = refl
  array_frame-run n (v ∷ vs) stack out f h =
      ap (λ p. run_from x (rounds v (cost vs f)) (open_value x v p))
        (commas n out (array_frame (suc n) vs ∷ stack))
      ∙ h.0 (array_frame (suc n) vs ∷ stack) (append out (comma_text n)) (cost vs f)
      ∙ array_frame-run (suc n) vs stack (append (append out (comma_text n)) (plain x v)) f h.1
      ∙ ap (run x f stack)
          (three out (comma_text n) (plain x v) (elements (suc n) (map (plain x) vs)))

  abbrev cost_pairs : List (String × Json) → ℕ → ℕ
  cost_pairs [] n = suc n
  cost_pairs ((_, v) ∷ r) n = suc (rounds v (cost_pairs r n))

  abbrev plain_pair : String × Json → String × String
  plain_pair (k, v) = (k, plain x v)

  abbrev pub PairWritten : String × Json → Type 0
  PairWritten e = Written x e.1

  object_frame-run :
      (n : ℕ) (r : List (String × Json)) (stack : List Frame) (out : String) (f : ℕ)
      → All PairWritten r
      → run x (cost_pairs r f) (object_frame n r ∷ stack) out
        ≡ run x f stack (append out (properties x n (map plain_pair r)))
  unfolding run round properties
  object_frame-run n [] stack out f h = refl
  object_frame-run n ((k, v) ∷ r) stack out f h =
      let name : String = append (x.quote k) ":" in
      ap (λ p. run_from x (rounds v (cost_pairs r f)) (open_value x v (emit name p)))
        (commas n out (object_frame (suc n) r ∷ stack))
      ∙ h.0 (object_frame (suc n) r ∷ stack) (append (append out (comma_text n)) name)
          (cost_pairs r f)
      ∙ object_frame-run (suc n) r stack
          (append (append (append out (comma_text n)) name) (plain x v)) f h.1
      ∙ ap (run x f stack) (
          append_assoc (append (append out (comma_text n)) name) (plain x v)
            (properties x (suc n) (map plain_pair r))
          ∙ three out (comma_text n) name
              (append (plain x v) (properties x (suc n) (map plain_pair r))))

  -- sorting the properties first, or their texts, comes to the same
  insert-map :
      (e : String × Json) (r : List (String × Json))
      → insert by_key (plain_pair e) (map plain_pair r) ≡ map plain_pair (insert by_key e r)
  unfolding insert
  insert-map e [] = refl
  insert-map e (d ∷ r) = elim (Bool-cases (text_le e.0 d.0)) [
    | inl before ↦ rw before refl
    | inr after ↦ rw after (ap (λ l. plain_pair d ∷ l) (insert-map e r))
  ]

  sort-map :
      (r : List (String × Json)) → sort by_key (map plain_pair r) ≡ map plain_pair (sort by_key r)
  unfolding sort
  sort-map [] = refl
  sort-map (e ∷ r) = ap (insert by_key (plain_pair e)) (sort-map r) ∙ insert-map e (sort by_key r)

  All-insert :
      (e : String × Json) (r : List (String × Json))
      → PairWritten e
      → All PairWritten r
      → All PairWritten (insert by_key e r)
  unfolding insert
  All-insert e [] h k = (h, tt)
  All-insert e (d ∷ r) h k = elim (Bool-cases (text_le e.0 d.0)) [
    | inl before ↦ rw before (h, k)
    | inr after ↦ rw after (k.0, All-insert e r h k.1)
  ]

  All-sort : (r : List (String × Json)) → All PairWritten r → All PairWritten (sort by_key r)
  unfolding sort
  All-sort [] h = tt
  All-sort (e ∷ r) h = All-insert e (sort by_key r) h.0 (All-sort r h.1)

  -- the rounds of a value stand on top of any others
  mutual
    unfolding rounds

    rounds_add : (v : Json) (n : ℕ) → rounds v n ≡ rounds v 0 + n
    rounds_add null n = omega arith
    rounds_add (boolean b) n = omega arith
    rounds_add (number k) n = omega arith
    rounds_add (text s) n = omega arith
    rounds_add (array vs) n = rounds_items_add vs n
    rounds_add (object o) n = rounds_object_add o n

    rounds_items_add : (vs : Items) (n : ℕ) → rounds_items vs n ≡ rounds_items vs 0 + n
    rounds_items_add nil n = omega arith
    rounds_items_add (cons v vs) n = omega (
      arith,
      rounds_add v (rounds_items vs n),
      rounds_add v (rounds_items vs 0),
      rounds_items_add vs n,
    )

    rounds_object_add : (o : Obj) (n : ℕ) → rounds_object o n ≡ rounds_object o 0 + n
    rounds_object_add empty n = omega arith
    rounds_object_add (property k v o) n = omega (
      arith,
      rounds_add v (rounds_object o n),
      rounds_add v (rounds_object o 0),
      rounds_object_add o n,
    )

  cost-insert :
      (e : String × Json) (r : List (String × Json)) (n : ℕ)
      → cost_pairs (insert by_key e r) n ≡ cost_pairs (e ∷ r) n
  unfolding insert
  cost-insert e [] n = refl
  cost-insert e (d ∷ r) n = elim (Bool-cases (text_le e.0 d.0)) [
    | inl before ↦ rw before refl
    | inr after ↦
        rw (after, cost-insert e r n)
          (omega (
            arith,
            rounds_add e.1 (suc (rounds d.1 (cost_pairs r n))),
            rounds_add d.1 (suc (rounds e.1 (cost_pairs r n))),
            rounds_add d.1 (cost_pairs r n),
            rounds_add e.1 (cost_pairs r n),
          ))
  ]

  cost-sort : (r : List (String × Json)) (n : ℕ) → cost_pairs (sort by_key r) n ≡ cost_pairs r n
  unfolding sort
  cost-sort [] n = refl
  cost-sort (e ∷ r) n =
      cost-insert e (sort by_key r) n ∙ ap (λ m. suc (rounds e.1 m)) (cost-sort r n)

  rounds_items-cost : (vs : Items) (n : ℕ) → rounds_items vs n ≡ cost (items vs) n
  unfolding rounds
  rounds_items-cost nil n = refl
  rounds_items-cost (cons v vs) n = ap (λ m. suc (rounds v m)) (rounds_items-cost vs n)

  rounds_object-cost_pairs : (o : Obj) (n : ℕ) → rounds_object o n ≡ cost_pairs (entries o) n
  unfolding rounds
  rounds_object-cost_pairs empty n = refl
  rounds_object-cost_pairs (property k v o) n =
      ap (λ m. suc (rounds v m)) (rounds_object-cost_pairs o n)

  map-plain_items : (vs : Items) → map (plain x) (items vs) ≡ plain_items x vs
  unfolding plain
  map-plain_items nil = refl
  map-plain_items (cons v vs) = ap (λ l. plain x v ∷ l) (map-plain_items vs)

  map-plain_properties : (o : Obj) → map plain_pair (entries o) ≡ plain_properties x o
  unfolding plain
  map-plain_properties empty = refl
  map-plain_properties (property k v o) = ap (λ l. (k, plain x v) ∷ l) (map-plain_properties o)

  array_rule : (vs : Items) → All (Written x) (items vs) → Written x (array vs)
  unfolding rounds plain open_value
  array_rule vs h stack out n =
      ap (λ m. run x m (array_frame 0 (items vs) ∷ stack) (append out "[")) (rounds_items-cost vs n)
      ∙ array_frame-run 0 (items vs) stack (append out "[") n h
      ∙ ap (run x n stack) (
          append_assoc out "[" (elements 0 (map (plain x) (items vs)))
          ∙ ap (λ l. append out (append "[" (elements 0 l))) (map-plain_items vs))

  object_value_rule : (o : Obj) → All PairWritten (entries o) → Written x (object o)
  unfolding rounds plain open_value sorted_entries
  object_value_rule o h stack out n =
      let sorted : List (String × Json) = sort by_key (entries o) in
      ap (λ m. run x m (object_frame 0 sorted ∷ stack) (append out "{"))
        (rounds_object-cost_pairs o n ∙ sym (cost-sort (entries o) n))
      ∙ object_frame-run 0 sorted stack (append out "{") n (All-sort (entries o) h)
      ∙ ap (run x n stack) (
          append_assoc out "{" (properties x 0 (map plain_pair sorted))
          ∙ ap (λ l. append out (append "{" (properties x 0 l)))
              (sym (sort-map (entries o)) ∙ ap (sort by_key) (map-plain_properties o)))

  mutual
    unfolding rounds plain open_value

    value_rule : (v : Json) → Written x v
    value_rule null stack out n = refl
    value_rule (boolean true) stack out n = refl
    value_rule (boolean false) stack out n = refl
    value_rule (number k) stack out n = refl
    value_rule (text s) stack out n = refl
    value_rule (array vs) stack out n = array_rule vs (items_rule vs) stack out n
    value_rule (object o) stack out n = object_value_rule o (object_rule o) stack out n

    items_rule : (vs : Items) → All (Written x) (items vs)
    items_rule nil = tt
    items_rule (cons v vs) = (value_rule v, items_rule vs)

    object_rule : (o : Obj) → All PairWritten (entries o)
    object_rule empty = tt
    object_rule (property k v o) = (value_rule v, object_rule o)
