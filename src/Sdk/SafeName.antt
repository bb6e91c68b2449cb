-- ===== src/Sdk/SafeName.antt =====
-- safe-name.ts, session-file.ts and the name of run-directory.ts, over code points.
use qe_report.Prelude.{
  ℕ, ◌-◌, Bool, true, false, ◌&&◌, ◌||◌, List, [], ◌∷◌, ◌++◌, map, ◌==◌, if◌then◌else◌,
}
use qe_report.Prelude.Text.{codes, within, take}

abbrev pub max_stem : ℕ
max_stem = 48

abbrev pub hash_length : ℕ
hash_length = 12

-- `[A-Za-z0-9_]`
abbrev pub is_word : ℕ → Bool
is_word c = within b'A' b'Z' c || within b'a' b'z' c || within b'0' b'9' c || c == b'_'

-- `[A-Za-z0-9._-]`
abbrev pub is_safe : ℕ → Bool
is_safe c = is_word c || c == b'.' || c == b'-'

abbrev pub sanitised : ℕ → ℕ
sanitised c = if is_safe c then c else b'_'

-- the flag `i`, on letters of ASCII
abbrev pub upper : ℕ → ℕ
upper c = if within b'a' b'z' c then c - 32 else c

abbrev pub is_three : ℕ → ℕ → ℕ → ℕ → ℕ → ℕ → Bool
is_three a b c x y z = upper x == a && upper y == b && upper z == c

-- `(?:\.|$)`
abbrev pub ends : List ℕ → Bool
ends [] = true
ends (c ∷ _) = c == b'.'

abbrev pub numbered : List ℕ → Bool
numbered [] = false
numbered (c ∷ r) = within b'1' b'9' c && ends r

-- RESERVED_DEVICE
abbrev pub is_reserved : List ℕ → Bool
is_reserved (x ∷ y ∷ z ∷ r) =
    (is_three b'C' b'O' b'N' x y z
        || is_three b'P' b'R' b'N' x y z
        || is_three b'A' b'U' b'X' x y z
        || is_three b'N' b'U' b'L' x y z)
      && ends r
    || (is_three b'C' b'O' b'M' x y z || is_three b'L' b'P' b'T' x y z) && numbered r
is_reserved _ = false

-- `_${safe.slice(1)}`
abbrev pub masked : List ℕ → List ℕ
masked [] = b'_' ∷ []
masked (c ∷ r) = b'_' ∷ r

abbrev pub begun : List ℕ → List ℕ
begun [] = []
begun (c ∷ r) = if is_word c then c ∷ r else masked (c ∷ r)

abbrev pub portable : List ℕ → List ℕ
portable s = if is_reserved s then masked s else s

abbrev pub stem_of : List ℕ → List ℕ
stem_of [] = b'_' ∷ []
stem_of (c ∷ r) = portable (take max_stem (begun (c ∷ r)))

unfoldable pub safe_stem : List ℕ → List ℕ
safe_stem id = stem_of (map sanitised id)

-- SHA-256 in hexadecimal is a parameter.
module _ (sha256 : List ℕ → List ℕ) where
  abbrev pub short_hash : List ℕ → List ℕ
  short_hash id = take hash_length (sha256 id)

  unfoldable pub run_directory_name : List ℕ → List ℕ
  unfolding safe_stem
  run_directory_name run_id = safe_stem run_id ++ (b'-' ∷ short_hash run_id)

  unfoldable pub session_file_name : List ℕ → List ℕ
  unfolding safe_stem
  session_file_name session_id =
      safe_stem session_id ++ (b'-' ∷ (short_hash session_id ++ codes ".ndjson"))
