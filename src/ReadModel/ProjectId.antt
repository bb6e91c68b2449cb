-- ===== src/ReadModel/ProjectId.antt =====
-- ts/packages/read-model/src/project-id.ts. A code point in the range of the surrogates is an unpaired one.
use qe_report.Prelude.{
  ℕ, ◌+◌, String, Bool, ◌&&◌, not, List, [], ◌∷◌, any, length, ltb, leb, ◌==◌, if◌then◌else◌,
}
use qe_report.Prelude.Text.{codes, within}

-- MAX_PROJECT_ID_UTF8_BYTES
abbrev pub max_project_id_utf8_bytes : ℕ
max_project_id_utf8_bytes = 512

abbrev pub utf8_size : ℕ → ℕ
utf8_size c = if ltb c 0x80 then 1 else if ltb c 0x800 then 2 else if ltb c 0x10000 then 3 else 4

-- `Buffer.byteLength(s, 'utf8')`
abbrev pub utf8_length : List ℕ → ℕ
utf8_length [] = 0
utf8_length (c ∷ s) = utf8_size c + utf8_length s

abbrev pub is_project_id : List ℕ → Bool
is_project_id s =
    leb 1 (length s)
    && not (any (within 0xD800 0xDFFF) s)
    && not (any (λ c. c == 0) s)
    && leb (utf8_length s) max_project_id_utf8_bytes

-- `checkProjectId`; `false` is the TypeError.
unfoldable pub check_project_id : String → Bool
check_project_id project_id = is_project_id (codes project_id)
