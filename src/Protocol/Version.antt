-- ===== src/Protocol/Version.antt =====
-- version.ts: `major.minor.patch` and the supported line 0.3.
use Prim.Native.Nat.{◌+◌, ◌*◌, ◌-◌}
use qe_report.Prelude.{
  ℕ, String, Bool, Option, none, some, List, [], ◌∷◌, ◌&&◌, ◌==◌, if◌then◌else◌,
}
use qe_report.Prelude.Text.{codes, within}

-- PROTOCOL_VERSION
abbrev pub current_version : String
current_version = "0.3.0"

pub record ParsedVersion : Type 0 where
  pub major : ℕ
  pub minor : ℕ
  pub patch : ℕ

abbrev digit : ℕ → Bool
digit = within b'0' b'9'

-- the digits at the front, as a number, and what follows them
unfoldable pub digits : ℕ → List ℕ → ℕ × List ℕ
digits n [] = (n, [])
digits n (c ∷ r) = let rest = digits (n * 10 + (c - b'0')) r in if digit c then rest else (n, c ∷ r)

-- `0|[1-9][0-9]*`: a zero stands alone
unfoldable pub numeral : List ℕ → Option (ℕ × List ℕ)
unfolding digits
numeral [] = none
numeral (c ∷ r) =
    if c == b'0' then some (0, r) else if within b'1' b'9' c then some (digits 0 (c ∷ r)) else none

-- a literal dot at the front
unfoldable pub dot : List ℕ → Option (List ℕ)
dot [] = none
dot (c ∷ r) = if c == b'.' then some r else none

abbrev bind {ℓ κ} : {A : Type ℓ} {B : Type κ} → Option A → (A → Option B) → Option B
bind none f = none
bind (some a) f = f a

abbrev finished : ℕ → ℕ → ℕ × List ℕ → Option ParsedVersion
finished major minor (patch, []) = some (record { major = major; minor = minor; patch = patch })
finished major minor (patch, _ ∷ _) = none

-- `SEMVER.exec`, over code points
unfoldable pub parse_codes : List ℕ → Option ParsedVersion
unfolding numeral dot
parse_codes s = bind (numeral s) λ a.
    bind (dot a.1)
      λ s1. bind (numeral s1) λ b. bind (dot b.1) λ s2. bind (numeral s2) λ c. finished a.0 b.0 c

unfoldable pub parse_protocol_version : String → Option ParsedVersion
unfolding parse_codes
parse_protocol_version version = parse_codes (codes version)

unfoldable pub is_supported_protocol_version : ParsedVersion → Bool
is_supported_protocol_version v = v.major == 0 && v.minor == 3
