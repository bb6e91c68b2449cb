-- ===== src/ReadModel/Instant.antt =====
-- ts/packages/read-model/src/history-order.ts: where a timestamp stands in a history.
use Prim.Native.Nat.{Ordering}
use qe_report.Prelude.{
  ℕ, zero, suc, ◌+◌, ◌-◌, ◌*◌, ◌%◌, String, Bool, true, false, ◌&&◌, ◌||◌, not, Option, none, some,
  List, [], ◌∷◌, ◌++◌, length, ltb, leb, ◌==◌, if◌then◌else◌, ◌≡◌, refl,
}
use qe_report.Prelude.Int.{ℤ, pos, negsuc}
use qe_report.Prelude.Text.{codes, within, take}
use qe_report.ReadModel.Compare.{by_number, or_else}

-- `leap` is 0, or 1 and the millisecond inside a leap second.
pub record HistoryInstant : Type 0 where
  pub epoch_ms : ℤ
  pub leap : ℕ

-- What TIMESTAMP captures; a sign of `Z` is no sign.
pub record Timestamp : Type 0 where
  pub year : ℕ
  pub month : ℕ
  pub day : ℕ
  pub hour : ℕ
  pub minute : ℕ
  pub second : ℕ
  pub fraction : List ℕ
  pub is_negative : Bool
  pub offset_hour : ℕ
  pub offset_minute : ℕ
  pub zone : List ℕ

abbrev pub bind {ℓ κ} : {A : Type ℓ} {B : Type κ} → Option A → (A → Option B) → Option B
bind none f = none
bind (some a) f = f a

pub bind-some {ℓ κ} :
    {A : Type ℓ} {B : Type κ} (m : Option A) (f : A → Option B) (b : B)
    → bind m f ≡ some b
    → (a : A) × (m ≡ some a) × (f a ≡ some b)
bind-some none f b h = cc
bind-some (some a) f b h = (a, refl, h)

abbrev pub is_digit : ℕ → Bool
is_digit = within b'0' b'9'

-- `\d{n}` after a number that was read before it, and what follows
abbrev pub digits : ℕ → ℕ → List ℕ → Option (ℕ × List ℕ)
digits zero value s = some (value, s)
digits (suc n) value [] = none
digits (suc n) value (c ∷ s) =
    let rest = digits n (10 * value + (c - b'0')) s in if is_digit c then rest else none

abbrev pub literal : ℕ → List ℕ → Option (List ℕ)
literal c [] = none
literal c (d ∷ s) = if d == c then some s else none

-- the longest run of digits, and what follows
abbrev pub span : List ℕ → List ℕ × List ℕ
span [] = ([], [])
span (c ∷ s) = let rest = span s in if is_digit c then (c ∷ rest.0, rest.1) else ([], c ∷ s)

abbrev pub bounded : List ℕ × List ℕ → Option (List ℕ × List ℕ)
bounded (ds, s) = if leb 1 (length ds) && leb (length ds) 9 then some (ds, s) else none

-- `(?:\.(\d{1,9}))?`: what follows starts with no digit, so the longest run is the one that fits.
abbrev pub fraction : List ℕ → Option (List ℕ × List ℕ)
fraction [] = some ([], [])
fraction (c ∷ s) = if c == b'.' then bounded (span s) else some ([], c ∷ s)

-- the sign, the hours and minutes, and the text of the zone
abbrev pub Zone : Type 0
Zone = Bool × ℕ × ℕ × List ℕ

abbrev pub offset : Bool → List ℕ → Option Zone
offset negative [] = none
offset negative (c ∷ s) = bind (digits 2 0 s) λ (hour, s1). bind (literal b':' s1) λ s2.
    bind (digits 2 0 s2)
      λ (minute, s3). elim s3 [ [] ↦ some (negative, hour, minute, c ∷ s) | _ ↦ none ]

-- `(?:Z|([+-])(\d{2}):(\d{2}))$`
abbrev pub zone : List ℕ → Option Zone
zone [] = none
zone (c ∷ s) =
    if c == b'Z'
    then elim s [ [] ↦ some (false, 0, 0, b'Z' ∷ []) | _ ↦ none ]
    else if c == b'+'
    then offset false (c ∷ s)
    else if c == b'-'
    then offset true (c ∷ s)
    else none

-- two digits behind a literal
abbrev pub field : ℕ → List ℕ → Option (ℕ × List ℕ)
field c s = bind (literal c s) (digits 2 0)

-- `TIMESTAMP.exec`
unfoldable pub read_timestamp : List ℕ → Option Timestamp
read_timestamp s = do
  (year, s1) ← digits 4 0 s
  (month, s2) ← field b'-' s1
  (day, s3) ← field b'-' s2
  (hour, s4) ← field b'T' s3
  (minute, s5) ← field b':' s4
  (second, s6) ← field b':' s5
  (fraction, s7) ← fraction s6
  (negative, offset_hour, offset_minute, zone) ← zone s7
  some (record {
    year = year;
    month = month;
    day = day;
    hour = hour;
    minute = minute;
    second = second;
    fraction = fraction;
    is_negative = negative;
    offset_hour = offset_hour;
    offset_minute = offset_minute;
    zone = zone;
  })
  where
    infixl 5 ◌>>=◌
    ◌>>=◌ : {A B : Type 0} → Option A → (A → Option B) → Option B
    ◌>>=◌ = bind

abbrev pub is_leap_year : ℕ → Bool
is_leap_year y = (y % 4 == 0) && (not (y % 100 == 0) || (y % 400 == 0))

-- DAYS_IN_MONTH
abbrev pub days_in_month : ℕ → ℕ
days_in_month m =
    if m == 2
    then 28
    else if (m == 4) || (m == 6) || (m == 9) || (m == 11)
    then 30
    else if leb 1 m && leb m 12
    then 31
    else 0

abbrev pub days_of : Timestamp → ℕ
days_of t = if (t.month == 2) && is_leap_year t.year then 29 else days_in_month t.month

abbrev pub in_range : Timestamp → Bool
in_range t =
    leb 1 t.month
    && leb t.month 12
    && leb 1 t.day
    && leb t.day (days_of t)
    && leb t.hour 23
    && leb t.minute 59
    && leb t.second 60
    && leb t.offset_hour 23
    && leb t.offset_minute 59

-- `(((x - offset) % 1440) + 1440) % 1440`; an offset is less than a day.
abbrev pub utc_minute_of_day : Timestamp → ℕ
utc_minute_of_day t =
    let local = t.hour * 60 + t.minute in
    let shift = t.offset_hour * 60 + t.offset_minute in
    (if t.is_negative then local + shift else local + 1440 - shift) % 1440

-- `(fraction ?? '').padEnd(3, '0').slice(0, 3)`, read as a number
abbrev pub millisecond : List ℕ → ℕ
millisecond (a ∷ b ∷ c ∷ _) = 100 * (a - b'0') + 10 * (b - b'0') + (c - b'0')
millisecond (a ∷ b ∷ []) = 100 * (a - b'0') + 10 * (b - b'0')
millisecond (a ∷ []) = 100 * (a - b'0')
millisecond [] = 0

-- `date_parse` is Date.parse on a timestamp of this shape; `none` is NaN.
module _ (date_parse : List ℕ → Option ℤ) where
  abbrev pub instant : ℕ → Option ℤ → Option HistoryInstant
  instant leap none = none
  instant leap (some ms) = some (record { epoch_ms = ms; leap = leap })

  abbrev pub leap_second : List ℕ → Timestamp → Option HistoryInstant
  leap_second s t =
      if utc_minute_of_day t == 1439
      then instant (1 + millisecond t.fraction)
          (date_parse (take 17 s ++ (codes "59.999" ++ t.zone)))
      else none

  abbrev pub instant_of : List ℕ → Timestamp → Option HistoryInstant
  instant_of s t =
      if not (in_range t)
      then none
      else if ltb t.second 60
      then instant 0 (date_parse s)
      else leap_second s t

  -- `none` is the RangeError.
  unfoldable pub history_instant : String → Option HistoryInstant
  unfolding read_timestamp
  history_instant occurred_at =
      bind (read_timestamp (codes occurred_at)) (instant_of (codes occurred_at))

abbrev pub compare_ints : ℤ → ℤ → Ordering
compare_ints (pos a) (pos b) = by_number a b
compare_ints (pos a) (negsuc b) = Ordering.gt
compare_ints (negsuc a) (pos b) = Ordering.lt
compare_ints (negsuc a) (negsuc b) = by_number b a

abbrev pub compare_history_instants : HistoryInstant → HistoryInstant → Ordering
compare_history_instants a b =
    or_else (compare_ints a.epoch_ms b.epoch_ms) (by_number a.leap b.leap)
