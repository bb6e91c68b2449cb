-- ===== src/Protocol/Patterns.antt =====
-- The regular expressions of codec.ts, as matchers over code points.
use qe_report.Prelude.{
  ℕ, zero, suc, String, Bool, true, false, Option, none, some, List, [], ◌∷◌, ◌&&◌, ◌||◌, ◌==◌,
  if◌then◌else◌, all, not, ◌≡◌, refl,
}
use qe_report.Prelude.Text.{codes, within}

-- IDENTIFIER: /^[\x21-\x7E]+$/
unfoldable pub is_identifier_codes : List ℕ → Bool
is_identifier_codes [] = false
is_identifier_codes (c ∷ r) = all (within 0x21 0x7E) (c ∷ r)

unfoldable pub is_identifier : String → Bool
unfolding is_identifier_codes
is_identifier s = is_identifier_codes (codes s)

abbrev lower : ℕ → Bool
lower = within b'a' b'z'

abbrev word : ℕ → Bool
word c = lower c || within b'A' b'Z' c || within b'0' b'9' c

-- EVENT_TYPE: /^[a-z][a-zA-Z0-9]*(\.[a-z][a-zA-Z0-9]*)+$/. `fresh`: a word has to begin here;
-- `dotted`: a dot has been read.
unfoldable pub dotted_words : Bool → Bool → List ℕ → Bool
dotted_words fresh dotted [] = not fresh && dotted
dotted_words true dotted (c ∷ r) =
    let rest = dotted_words false dotted r in if lower c then rest else false
dotted_words false dotted (c ∷ r) =
    let same = dotted_words false dotted r in
    let next = dotted_words true true r in
    if word c then same else if c == b'.' then next else false

unfoldable pub is_event_type : String → Bool
unfolding dotted_words
is_event_type s = dotted_words true false (codes s)

-- One character of a fixed shape.
pub data Shape : Type 0 where
  digit sign : Shape
  exactly : ℕ → Shape

abbrev fits : Shape → ℕ → Bool
fits digit c = within b'0' b'9' c
fits sign c = c == b'+' || c == b'-'
fits (exactly d) c = c == d

-- what follows a text of the given shape
unfoldable pub after : List Shape → List ℕ → Option (List ℕ)
after [] s = some s
after (x ∷ xs) [] = none
after (x ∷ xs) (c ∷ r) = let rest = after xs r in if fits x c then rest else none

abbrev date_time : List Shape
date_time =
    digit
    ∷ digit
    ∷ digit
    ∷ digit
    ∷ exactly b'-'
    ∷ digit
    ∷ digit
    ∷ exactly b'-'
    ∷ digit
    ∷ digit
    ∷ exactly b'T'
    ∷ digit
    ∷ digit
    ∷ exactly b':'
    ∷ digit
    ∷ digit
    ∷ exactly b':'
    ∷ digit
    ∷ digit
    ∷ []

abbrev offset : List Shape
offset = sign ∷ digit ∷ digit ∷ exactly b':' ∷ digit ∷ digit ∷ []

abbrev at_end : Option (List ℕ) → Bool
at_end (some []) = true
at_end _ = false

-- (Z|[+-][0-9]{2}:[0-9]{2})$
unfoldable pub is_zone : List ℕ → Bool
unfolding after
is_zone s = at_end (after (exactly b'Z' ∷ []) s) || at_end (after offset s)

-- `n` more digits may be read, then a zone follows: the end of (\.[0-9]{1,9})
unfoldable pub fraction : ℕ → List ℕ → Bool
unfolding is_zone
fraction zero s = is_zone s
fraction (suc n) [] = false
fraction (suc n) (c ∷ r) = let rest = fraction n r in if fits digit c then rest else is_zone (c ∷ r)

-- at least one digit stands behind the dot
unfoldable pub after_seconds : List ℕ → Bool
unfolding fraction
after_seconds [] = false
after_seconds (c ∷ []) = is_zone (c ∷ [])
after_seconds (c ∷ d ∷ r) =
    if c == b'.' then fits digit d && fraction 9 (d ∷ r) else is_zone (c ∷ d ∷ r)

-- TIMESTAMP
unfoldable pub is_timestamp : String → Bool
unfolding after after_seconds
is_timestamp s = elim (after date_time (codes s)) [ none ↦ false | some rest ↦ after_seconds rest ]

identifiers :
    (is_identifier "run-1" ≡ true) × (is_identifier "" ≡ false) × (is_identifier "a b" ≡ false)
unfolding is_identifier
identifiers = (refl, refl, refl)

event_type_shapes :
    (is_event_type "session.started" ≡ true)
    × (is_event_type "session" ≡ false)
    × (is_event_type "a..b" ≡ false)
    × (is_event_type "x.yZ9.w" ≡ true)
unfolding is_event_type
event_type_shapes = (refl, refl, refl, refl)

timestamps :
    (is_timestamp "2024-01-02T03:04:05Z" ≡ true)
    × (is_timestamp "2024-01-02T03:04:05.123+01:00" ≡ true)
    × (is_timestamp "2024-01-02T03:04:05." ≡ false)
    × (is_timestamp "2024-01-02T03:04:05.1234567890Z" ≡ false)
    × (is_timestamp "2024-01-02T03:04:05" ≡ false)
unfolding is_timestamp
timestamps = (refl, refl, refl, refl, refl)
