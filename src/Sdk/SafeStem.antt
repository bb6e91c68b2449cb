-- ===== src/Sdk/SafeStem.antt =====
-- safe-name.ts: the characters, the length and the beginning of a stem.
use qe_report.Prelude.{
  ℕ, ◌≤◌, Bool, true, false, zero, suc, List, [], ◌∷◌, ◌≡◌, refl, map, length, all, arith, inl, inr,
  Bool-cases,
}
use qe_report.Prelude.Text.{take}
use qe_report.Sdk.SafeName.{
  max_stem, is_word, is_safe, sanitised, is_reserved, masked, begun, portable, stem_of, safe_stem,
}

-- the first character is a letter, a digit or an underscore
abbrev pub begins_with_word : List ℕ → Bool
begins_with_word [] = false
begins_with_word (c ∷ r) = is_word c

take-safe :
    (n : ℕ) (s : List ℕ)
    → all is_safe s ≡ true
    → (length (take n s) ≤ n) × (all is_safe (take n s) ≡ true)
take-safe zero s h = (omega arith, refl)
take-safe (suc n) [] h = (omega arith, refl)
take-safe (suc n) (c ∷ s) h = ground (arith, take-safe n s)

sanitised-safe : (c : ℕ) → is_safe (sanitised c) ≡ true
sanitised-safe c = elim (Bool-cases (is_safe c)) [ inl e ↦ rw e e | inr e ↦ rw e refl ]

map-safe : (s : List ℕ) → all is_safe (map sanitised s) ≡ true
map-safe [] = refl
map-safe (c ∷ s) = ground (arith, sanitised-safe c, map-safe s)

masked-unreserved : (s : List ℕ) → is_reserved (masked s) ≡ false
masked-unreserved [] = refl
masked-unreserved (c ∷ []) = refl
masked-unreserved (c ∷ y ∷ []) = refl
masked-unreserved (c ∷ y ∷ z ∷ r) = refl

-- what a stem is
pub record IsStem (s : List ℕ) : Type 0 where
  pub safe : all is_safe s ≡ true
  pub begun : begins_with_word s ≡ true
  pub bounded : length s ≤ max_stem
  pub unreserved : is_reserved s ≡ false

portable-IsStem :
    (s : List ℕ)
    → all is_safe s ≡ true
    → begins_with_word s ≡ true
    → length s ≤ max_stem
    → IsStem (portable s)
portable-IsStem [] h b m = cc
portable-IsStem (c ∷ s) h b m = elim (Bool-cases (is_reserved (c ∷ s))) [
  | inl e ↦ rw e (record {
    safe = ground arith;
    begun = refl;
    bounded = m;
    unreserved = masked-unreserved (c ∷ s);
  })
  | inr e ↦ rw e (record { safe = h; begun = b; bounded = m; unreserved = e })
]

begun-word :
    (c : ℕ) (r : List ℕ)
    → all is_safe (c ∷ r) ≡ true
    → (all is_safe (begun (c ∷ r)) ≡ true)
      × (begins_with_word (take max_stem (begun (c ∷ r))) ≡ true)
begun-word c r h = elim (Bool-cases (is_word c)) [
  | inl e ↦ rw e (h, e)
  | inr e ↦ rw e (ground arith, refl)
]

stem_of-IsStem : (s : List ℕ) → all is_safe s ≡ true → IsStem (stem_of s)
stem_of-IsStem [] h = record { safe = refl; begun = refl; bounded = omega arith; unreserved = refl }
stem_of-IsStem (c ∷ r) h =
    let (safe, word) = begun-word c r h in
    let (short, kept) = take-safe max_stem (begun (c ∷ r)) safe in
    portable-IsStem (take max_stem (begun (c ∷ r))) kept word short

-- Whatever the identifier, its stem has 1 to 48 characters, all of them letters, digits, dots, underscores or
-- dashes, the first neither a dot nor a dash, and it is no reserved device name, with or without an extension.
pub safe_stem-IsStem : (id : List ℕ) → IsStem (safe_stem id)
unfolding safe_stem
safe_stem-IsStem id = stem_of-IsStem (map sanitised id) (map-safe id)
