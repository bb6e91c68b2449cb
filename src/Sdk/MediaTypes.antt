-- ===== src/Sdk/MediaTypes.antt =====
-- media-types.ts: `isTextualMediaType`, over code points. `lower_case` is the engine's `toLowerCase`.
use qe_report.Prelude.{
  ℕ, String, Bool, true, false, List, [], ◌∷◌, ◌||◌, ◌&&◌, ◌==◌, ◌≡◌, refl, if◌then◌else◌,
}
use qe_report.Prelude.Text.{codes}
use qe_report.Validator.Decode.{is_space}

-- what stands before the first semicolon
unfoldable pub before_semicolon : List ℕ → List ℕ
before_semicolon [] = []
before_semicolon (c ∷ s) = let rest = before_semicolon s in if c == b';' then [] else c ∷ rest

unfoldable pub trim_start : List ℕ → List ℕ
trim_start [] = []
trim_start (c ∷ s) = let rest = trim_start s in if is_space c then rest else c ∷ s

abbrev pub reverse_onto : List ℕ → List ℕ → List ℕ
reverse_onto [] r = r
reverse_onto (c ∷ s) r = reverse_onto s (c ∷ r)

abbrev pub reverse : List ℕ → List ℕ
reverse s = reverse_onto s []

abbrev pub trim : List ℕ → List ℕ
trim s = reverse (trim_start (reverse (trim_start s)))

unfoldable pub starts_with : List ℕ → List ℕ → Bool
starts_with [] s = true
starts_with (p ∷ ps) [] = false
starts_with (p ∷ ps) (c ∷ s) = c == p && starts_with ps s

abbrev pub ends_with : List ℕ → List ℕ → Bool
ends_with suffix s = starts_with (reverse suffix) (reverse s)

unfoldable pub same_codes : List ℕ → List ℕ → Bool
same_codes [] [] = true
same_codes (a ∷ s) (b ∷ t) = a == b && same_codes s t
same_codes _ _ = false

unfoldable pub is_textual_media_type : (List ℕ → List ℕ) → String → Bool
unfolding before_semicolon trim_start starts_with same_codes
is_textual_media_type lower_case media_type =
    let base = lower_case (trim (before_semicolon (codes media_type))) in
    starts_with (codes "text/") base
    || same_codes base (codes "application/json")
    || same_codes base (codes "application/xml")
    || same_codes base (codes "application/x-www-form-urlencoded")
    || same_codes base (codes "application/javascript")
    || ends_with (codes "+json") base
    || ends_with (codes "+xml") base

media_types :
    (is_textual_media_type (λ s. s) "text/plain; charset=utf-8" ≡ true)
    × (is_textual_media_type (λ s. s) " application/vnd.api+json " ≡ true)
    × (is_textual_media_type (λ s. s) "image/png" ≡ false)
unfolding is_textual_media_type
media_types = (refl, refl, refl)
