-- ===== src/Validator/Canonical.antt =====
-- validator.ts: `canonical`, the loop over an explicit stack of frames.
pub mod Plain
use Prim.Native.String.{◌++◌ as append}
use qe_report.Prelude.{ℕ, zero, suc, ◌+◌, String, true, false, List, [], ◌∷◌}
use qe_report.Prelude.Order.{text_le, sort}
use qe_report.Protocol.Json.{
  Json, null, boolean, number, text, array, object, Items, nil, cons, Obj, empty, property, items,
  entries,
}
use qe_report.Validator.Externals.{Externals}

-- What is left of an array or of the sorted properties of an object, and how many were visited.
pub data Frame : Type 0 where
  array_frame : ℕ → List Json → Frame
  object_frame : ℕ → List (String × Json) → Frame

pub record Progress : Type 0 where
  pub out : String
  pub stack : List Frame

abbrev pub emit : String → Progress → Progress
emit piece p = record p { out = append p.out piece }

-- `Object.keys(object).sort()`, each name with the value under it
unfoldable pub sorted_entries : Obj → List (String × Json)
unfolding sort
sorted_entries o = sort (λ a b. text_le a.0 b.0) (entries o)

-- `open(value)`
unfoldable pub open_value : Externals → Json → Progress → Progress
open_value x null p = emit "null" p
open_value x (boolean true) p = emit "true" p
open_value x (boolean false) p = emit "false" p
open_value x (number n) p = emit (x.number_text n) p
open_value x (text s) p = emit (x.quote s) p
open_value x (array vs) p = record {
  out = append p.out "[";
  stack = array_frame 0 (items vs) ∷ p.stack;
}
open_value x (object o) p = record {
  out = append p.out "{";
  stack = object_frame 0 (sorted_entries o) ∷ p.stack;
}

-- a comma goes before every element but the first
abbrev pub comma : ℕ → Progress → Progress
comma zero p = p
comma (suc _) p = emit "," p

-- one round of the `while` loop, on the frame at the top of the stack
unfoldable pub round : Externals → Frame → List Frame → String → Progress
unfolding open_value
round x (array_frame n []) below out = record { out = append out "]"; stack = below }
round x (array_frame n (v ∷ vs)) below out =
    open_value x v (comma n (record { out = out; stack = array_frame (suc n) vs ∷ below }))
round x (object_frame n []) below out = record { out = append out "}"; stack = below }
round x (object_frame n ((k, v) ∷ r)) below out = open_value x v (
    emit (append (x.quote k) ":")
      (comma n (record { out = out; stack = object_frame (suc n) r ∷ below })))

unfoldable pub run : Externals → ℕ → List Frame → String → String
run x fuel [] out = out
run x zero (f ∷ below) out = out
run x (suc fuel) (f ∷ below) out = let p = round x f below out in run x fuel p.stack p.out

-- The rounds that a value takes on top of `n`: one for each element and property, and one to close a
-- collection.
unfoldable mutual
  pub rounds : Json → ℕ → ℕ
  rounds (array vs) n = rounds_items vs n
  rounds (object o) n = rounds_object o n
  rounds _ n = n

  pub rounds_items : Items → ℕ → ℕ
  rounds_items nil n = suc n
  rounds_items (cons v vs) n = suc (rounds v (rounds_items vs n))

  pub rounds_object : Obj → ℕ → ℕ
  rounds_object empty n = suc n
  rounds_object (property _ v o) n = suc (rounds v (rounds_object o n))

unfoldable pub canonical : Externals → Json → String
unfolding open_value run rounds
canonical x root =
    let p = open_value x root (record { out = ""; stack = [] }) in
    run x (rounds root 0) p.stack p.out
