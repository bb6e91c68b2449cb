-- ===== src/Protocol/Json.antt =====
-- JSON values as `JSON.parse` gives them. The properties of an object stand in the order of
-- `Object.entries`, and no name occurs twice.
use qe_report.Prelude.{String, Bool, Option, none, some, List, [], ◌∷◌, if◌then◌else◌}
use qe_report.Prelude.Int.{ℤ}
use qe_report.Prelude.Keys.{text_keys, ◌===◌}

-- A number with an integer value, or another number as the text that `JSON.stringify` writes.
pub data Number : Type 0 where
  integer : ℤ → Number
  other : String → Number

mutual
  pub data Json : Type 0 where
    null : Json
    boolean : Bool → Json
    number : Number → Json
    text : String → Json
    array : Items → Json
    object : Obj → Json

  pub data Items : Type 0 where
    nil : Items
    cons : Json → Items → Items

  pub data Obj : Type 0 where
    empty : Obj
    property : String → Json → Obj → Obj

-- `o[field]`; `none` is `undefined`
unfoldable pub member : String → Obj → Option Json
member field empty = none
member field (property k v o) = if k === field then some v else member field o

abbrev pub items : Items → List Json
items nil = []
items (cons x xs) = x ∷ items xs

abbrev pub from_list : List Json → Items
from_list [] = nil
from_list (x ∷ xs) = cons x (from_list xs)

-- `Object.entries`
abbrev pub entries : Obj → List (String × Json)
entries empty = []
entries (property k v o) = (k, v) ∷ entries o

-- `Object.fromEntries`, for entries with distinct names
abbrev pub from_entries : List (String × Json) → Obj
from_entries [] = empty
from_entries ((k, v) ∷ r) = property k v (from_entries r)
