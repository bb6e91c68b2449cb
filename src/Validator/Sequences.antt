-- ===== src/Validator/Sequences.antt =====
-- validator.ts: the numbers of the lines that are kept of a session.
pub mod AroundSessions
pub mod Around
pub mod Steps
pub mod Numbers
pub mod Feed
pub mod Results
use qe_report.Prelude.{
  ℕ, zero, suc, ◌+◌, String, Bool, true, false, Option, none, some, List, [], ◌∷◌, ◌++◌, ◌≡◌, refl,
  arith, not, ◌&&◌, if◌then◌else◌, Bool-cases, inl, inr, ap, ◌∙◌,
}
use mathlib.Core.List.{append-nil}
use qe_report.Prelude.Keys.{text_keys, ◌===◌}
use qe_report.Prelude.Assoc.{Assoc, get, set, get-set}
use qe_report.Validator.Model.{
  Disposition, accepted, ignored, duplicate, ValidatedSourceLine, SessionState, RunValidator,
  is_valid,
}

abbrev pub is_duplicate : Disposition → Bool
is_duplicate duplicate = true
is_duplicate _ = false

-- a line of the session that is no repetition
abbrev pub counts : String → ValidatedSourceLine → Bool
counts id l = l.session_id === id && not (is_duplicate l.disposition)

-- the sequence numbers of the session's lines, in the order in which they were read
abbrev pub sequences : String → List ValidatedSourceLine → List ℕ
sequences id [] = []
sequences id (l ∷ ls) =
    let rest = sequences id ls in if counts id l then l.sequence ∷ rest else rest

abbrev pub only_if : Bool → ℕ → List ℕ
only_if true n = n ∷ []
only_if false n = []

pub sequences-append :
    (id : String) (ls : List ValidatedSourceLine) (l : ValidatedSourceLine)
    → sequences id (ls ++ l ∷ []) ≡ sequences id ls ++ only_if (counts id l) l.sequence
sequences-append id [] l = ground arith
sequences-append id (x ∷ ls) l = ground (arith, sequences-append id ls l)

-- 1, 2, ..., n
abbrev pub upto : ℕ → List ℕ
upto zero = []
upto (suc n) = upto n ++ suc n ∷ []

abbrev pub last_of : Option SessionState → ℕ
last_of none = 0
last_of (some s) = s.last_sequence

abbrev pub last_sequence : String → Assoc String SessionState → ℕ
last_sequence id sessions = last_of (get id sessions)

-- The kept lines of every session carry the numbers up to its last one.
abbrev pub Contiguous : RunValidator → Type 0
Contiguous v = (id : String) → sequences id v.source ≡ upto (last_sequence id v.sessions)

-- Nothing is claimed of a run with an error; without one, the lines are kept and contiguous.
abbrev pub IfKept : RunValidator → Type 0
IfKept v = is_valid v ≡ true → (v.options.retain_source_lines ≡ true) × Contiguous v
