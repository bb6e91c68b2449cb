-- ===== src/Protocol/Codec/Fields.antt =====
-- codec.ts: the readers of one property of an object. `at` is the pointer of the object.
use qe_report.Prelude.{
  ℕ, String, Bool, Option, none, some, List, [], ◌∷◌, ◌++◌, ◌+◌, leb, ltb, if◌then◌else◌,
}
use qe_report.Prelude.Int.{ℤ, pos, negsuc}
use qe_report.Prelude.Keys.{text_keys, ◌===◌}
use qe_report.Protocol.Errors.{Pointer, index, ◌▹◌, Result, ok, err, ◌>>=◌, invalid}
use qe_report.Protocol.Json.{
  Json, null, number, text, array, object, integer, Items, nil, cons, Obj, empty, property, member,
}
use qe_report.Protocol.Patterns.{is_identifier}
use qe_report.Protocol.Model.{StringMap}

-- `undefined` and `null` count as missing
abbrev pub present : Option Json → Option Json
present none = none
present (some null) = none
present (some v) = some v

unfoldable pub required : Obj → String → Pointer → Result Json
required o field at = elim (present (member field o)) [ none ↦ err (invalid at) | some v ↦ ok v ]

abbrev pub as_string : Pointer → Json → Result String
as_string at (text s) = ok s
as_string at _ = err (invalid at)

unfoldable pub required_string : Obj → String → Pointer → Result String
unfolding required
required_string o field at = do v ← required o field at; as_string (at ▹ field) v

-- an absent property is `undefined`; any other value goes to `read`
abbrev pub optional {ℓ} : {A : Type ℓ} → (Json → Result A) → Option Json → Result (Option A)
optional read none = ok none
optional read (some v) = do a ← read v; ok (some a)

unfoldable pub optional_string : Obj → String → Pointer → Result (Option String)
optional_string o field at = optional (as_string (at ▹ field)) (present (member field o))

abbrev pub checked_identifier : Pointer → String → Result String
checked_identifier at s = if is_identifier s then ok s else err (invalid at)

unfoldable pub identifier : Obj → String → Pointer → Result String
unfolding required_string
identifier o field at = do s ← required_string o field at; checked_identifier (at ▹ field) s

abbrev pub checked_optional_identifier : Pointer → Option String → Result (Option String)
checked_optional_identifier at none = ok none
checked_optional_identifier at (some s) = do c ← checked_identifier at s; ok (some c)

unfoldable pub optional_identifier : Obj → String → Pointer → Result (Option String)
unfolding optional_string
optional_identifier o field at = do
  s ← optional_string o field at
  checked_optional_identifier (at ▹ field) s

-- Number.isSafeInteger: the absolute value is at most 2^53 - 1
abbrev pub max_safe : ℕ
max_safe = 9_007_199_254_740_991

abbrev pub is_safe : ℤ → Bool
is_safe (pos n) = leb n max_safe
is_safe (negsuc n) = ltb n max_safe

abbrev pub as_integer : Pointer → Json → Result ℤ
as_integer at (number (integer n)) = if is_safe n then ok n else err (invalid at)
as_integer at _ = err (invalid at)

unfoldable pub integral : Obj → String → Pointer → Result ℤ
unfolding required
integral o field at = do v ← required o field at; as_integer (at ▹ field) v

unfoldable pub optional_integral : Obj → String → Pointer → Result (Option ℤ)
optional_integral o field at = optional (as_integer (at ▹ field)) (present (member field o))

-- `oneOf(value, allowed, at)`: the value of the enumeration that has this name
unfoldable pub one_of {ℓ} : {A : Type ℓ} → (A → String) → String → List A → Pointer → Result A
one_of name value [] at = err (invalid at)
one_of name value (a ∷ allowed) at = if name a === value then ok a else one_of name value allowed at

abbrev pub one_of_optional {ℓ} :
    {A : Type ℓ} → (A → String) → Option String → List A → Pointer → Result (Option A)
one_of_optional name none allowed at = ok none
one_of_optional name (some value) allowed at = do a ← one_of name value allowed at; ok (some a)

unfoldable pub string_entries : Pointer → Obj → Result StringMap
string_entries at empty = ok []
string_entries at (property k v o) = do
  s ← as_string (at ▹ k) v
  rest ← string_entries at o
  ok ((k, s) ∷ rest)

abbrev pub as_string_map : Pointer → Json → Result StringMap
as_string_map at (object o) = string_entries at o
as_string_map at _ = err (invalid at)

unfoldable pub string_map : Obj → String → Pointer → Result (Option StringMap)
unfolding string_entries
string_map o field at = optional (as_string_map (at ▹ field)) (present (member field o))

-- `v.map((item, i) => read(item, i))`, from index `i`
unfoldable pub read_items {ℓ} : {A : Type ℓ} → (ℕ → Json → Result A) → ℕ → Items → Result (List A)
read_items read i nil = ok []
read_items read i (cons v vs) = do a ← read i v; rest ← read_items read (i + 1) vs; ok (a ∷ rest)

abbrev pub as_array {ℓ} :
    {A : Type ℓ} → Pointer → (Pointer → Json → Result A) → Json → Result (List A)
as_array at read (array vs) = read_items (λ i v. read (at ++ index i ∷ []) v) 0 vs
as_array at read _ = err (invalid at)

unfoldable pub string_list : Obj → String → Pointer → Result (Option (List String))
unfolding read_items
string_list o field at = optional (as_array (at ▹ field) as_string) (present (member field o))

abbrev pub as_object {ℓ} : {A : Type ℓ} → Pointer → (Obj → Pointer → Result A) → Json → Result A
as_object at read (object o) = read o at
as_object at read _ = err (invalid at)

unfoldable pub optional_object {ℓ} :
    {A : Type ℓ} → Obj → String → Pointer → (Obj → Pointer → Result A) → Result (Option A)
optional_object o field at read = optional (as_object (at ▹ field) read) (present (member field o))
