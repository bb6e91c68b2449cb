-- ===== src/Protocol/Codec/Built.antt =====
-- codec.ts: what the readers find in an object that a writer has built.
use qe_report.Prelude.{
  String, Bool, true, false, ◌&&◌, not, Option, none, some, List, [], ◌∷◌, ◌≡◌, refl, ap, subst,
  if◌then◌else◌, Bool-cases, inl, inr, arith,
}
use qe_report.Prelude.Int.{ℤ}
use qe_report.Prelude.Keys.{text_keys, ◌===◌}
use qe_report.Protocol.Errors.{Pointer, ◌▹◌, Result, ok}
use qe_report.Protocol.Json.{Json, text, object, Obj, empty, member}
use qe_report.Protocol.Patterns.{is_identifier}
use qe_report.Protocol.Codec.Fields.{
  present, required, required_string, optional_string, identifier, optional_identifier, is_safe,
  integral, optional_integral, optional_object,
}
use qe_report.Protocol.Codec.Write.{field, write, whole}

-- the fields that a writer writes, in order
abbrev pub Fields : Type 0
Fields = List (String × Option Json)

abbrev pub build : Fields → Obj
build [] = empty
build ((n, v) ∷ l) = field n v (build l)

abbrev pub find : String → Fields → Option Json
find k [] = none
find k ((n, v) ∷ l) = if n === k then v else find k l

abbrev pub mentions : String → Fields → Bool
mentions k [] = false
mentions k ((n, _) ∷ l) = if n === k then true else mentions k l

abbrev pub are_distinct : Fields → Bool
are_distinct [] = true
are_distinct ((n, _) ∷ l) = not (mentions n l) && are_distinct l

unmentioned : (k : String) (l : Fields) → mentions k l ≡ false → member k (build l) ≡ none
unfolding member
unmentioned k [] h = refl
unmentioned k ((n, none) ∷ l) h = unmentioned k l (ground arith)
unmentioned k ((n, some v) ∷ l) h = ground (arith, unmentioned k l)

pub member-build : (k : String) (l : Fields) → are_distinct l ≡ true → member k (build l) ≡ find k l
unfolding member
member-build k [] d = refl
member-build k ((n, none) ∷ l) d = elim (Bool-cases (n === k)) [
  | inl e ↦
      rw (e, find)
        (unmentioned k l
          (subst (λ x. mentions x l ≡ false) ((text_keys.beq_iff n k).0 e) (ground arith)))
  | inr e ↦ rw (e, find) (member-build k l (ground arith))
]
member-build k ((n, some v) ∷ l) d = elim (Bool-cases (n === k)) [
  | inl e ↦ rw (e, member, find)
  | inr e ↦ rw (e, member, find) (member-build k l (ground arith))
]

abbrev pub IsIdentifier : Option String → Type 0
IsIdentifier none = Unit
IsIdentifier (some s) = is_identifier s ≡ true

abbrev pub IsSafe : Option ℤ → Type 0
IsSafe none = Unit
IsSafe (some n) = is_safe n ≡ true

-- What is written for a value is read as the value.
abbrev pub Reads {ℓ} : {A : Type ℓ} → (Obj → Pointer → Result A) → (A → Obj) → Option A → Type ℓ
Reads read writer none = Unit
Reads read writer (some a) = (p : Pointer) → read (writer a) p ≡ ok a

-- The readers, by what stands in the object.
module _ (o : Obj) (f : String) (at : Pointer) where
  pub required-member : (v : Json) → present (member f o) ≡ some v → required o f at ≡ ok v
  unfolding required
  required-member v h = ground (arith, h)

  pub required_string-member :
      (s : String) → member f o ≡ some (text s) → required_string o f at ≡ ok s
  unfolding required_string
  required_string-member s h = rw (required-member (text s) (ap present h))

  pub identifier-member :
      (s : String) → is_identifier s ≡ true → member f o ≡ some (text s) → identifier o f at ≡ ok s
  unfolding identifier
  identifier-member s i h = rw (required_string-member s h, i)

  pub optional_string-member :
      (v : Option String) → member f o ≡ write text v → optional_string o f at ≡ ok v
  unfolding optional_string
  optional_string-member none h = rw h
  optional_string-member (some s) h = rw h

  pub optional_identifier-member :
      (v : Option String)
      → IsIdentifier v
      → member f o ≡ write text v
      → optional_identifier o f at ≡ ok v
  unfolding optional_identifier
  optional_identifier-member none i h = rw (optional_string-member none h)
  optional_identifier-member (some s) i h = rw (optional_string-member (some s) h, i)

  pub integral-member :
      (n : ℤ) → is_safe n ≡ true → member f o ≡ some (whole n) → integral o f at ≡ ok n
  unfolding integral
  integral-member n i h = rw (required-member (whole n) (ap present h), i)

  pub optional_integral-member :
      (v : Option ℤ) → IsSafe v → member f o ≡ write whole v → optional_integral o f at ≡ ok v
  unfolding optional_integral
  optional_integral-member none i h = rw h
  optional_integral-member (some n) i h = rw (h, i)

  pub optional_object-member {ℓ} :
      {A : Type ℓ} (read : Obj → Pointer → Result A) (writer : A → Obj) (v : Option A)
      → Reads read writer v
      → member f o ≡ write (λ a. object (writer a)) v
      → optional_object o f at read ≡ ok v
  unfolding optional_object
  optional_object-member read writer none r h = rw h
  optional_object-member read writer (some a) r h = rw (h, r (at ▹ f))
