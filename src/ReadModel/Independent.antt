-- ===== src/ReadModel/Independent.antt =====
-- projector.ts: the order in which files were fed.
use mathlib.Core.List.{Permᴰ}
use qe_report.Prelude.{ℕ, String, true, ◌&&◌, List, [], ◌∷◌, ◌≡◌, ap, All, arith}
use qe_report.Prelude.Sorting.{Pairwise, Told, sort-perm}
use qe_report.Prelude.Units.{text_le_antisym}
use qe_report.Protocol.Model.{Event}
use qe_report.Validator.Finish.{Report}
use qe_report.Validator.Model.{ValidatedSourceLine}
use qe_report.ReadModel.Compare.{compare, or_else, not_after, by_number, at_or_before}
use qe_report.ReadModel.Project.{compare_events, ordered}
use qe_report.ReadModel.Orders.{at_or_before-IsTotal, compare_events-IsOrder, compare-IsOrder}
use qe_report.ReadModel.Run.{project_if, project_run}

-- Two events of one session with one sequence number are one event.
abbrev pub OnePlaceEach : List Event → Type 0
OnePlaceEach = Pairwise (λ a b. a.session_id ≡ b.session_id → a.sequence ≡ b.sequence → a ≡ b)

-- places that follow each other both ways
same_session :
    (a b : String) (m n : ℕ)
    → (not_after (or_else (compare a b) (by_number m n))
        && not_after (or_else (compare b a) (by_number n m)))
      ≡ true
    → a ≡ b
unfolding compare
same_session a b m n h = ground (arith, text_le_antisym a b, compare-IsOrder.turned a b)

same_sequence :
    (a b : String) (m n : ℕ)
    → (not_after (or_else (compare a b) (by_number m n))
        && not_after (or_else (compare b a) (by_number n m)))
      ≡ true
    → m ≡ n
same_sequence a b m n h = ground (arith, compare-IsOrder.turned a b)

told-All :
    (x : Event) (xs : List Event)
    → All (λ b. x.session_id ≡ b.session_id → x.sequence ≡ b.sequence → x ≡ b) xs
    → All
        (λ b. (at_or_before compare_events x b && at_or_before compare_events b x) ≡ true → x ≡ b)
        xs
told-All x [] h = tt
told-All x (y ∷ xs) h = (
  (λ e.
      h.0 (same_session x.session_id y.session_id x.sequence y.sequence e)
        (same_sequence x.session_id y.session_id x.sequence y.sequence e)),
  told-All x xs h.1,
)

Told-events : (xs : List Event) → OnePlaceEach xs → Told (at_or_before compare_events) xs
Told-events [] h = tt
Told-events (x ∷ xs) h = (told-All x xs h.0, Told-events xs h.1)

ordered-perm : {xs ys : List Event} → Permᴰ xs ys → OnePlaceEach xs → ordered xs ≡ ordered ys
unfolding ordered
ordered-perm {xs} p h =
    sort-perm (at_or_before compare_events)
      (at_or_before-IsTotal compare_events compare_events-IsOrder) p (Told-events xs h)

-- If events with the same session and sequence number are equal, then `projectRun` gives the same run, or
-- the same error, for the events in any order, whatever the source lines.
pub project_run-perm :
    (project directory : String) (report : Report) (xs ys : List Event)
    (ls ms : List ValidatedSourceLine)
    → Permᴰ xs ys
    → OnePlaceEach xs
    → project_run project directory (record { report = report; events = xs; source_lines = ls })
      ≡ project_run project directory (record { report = report; events = ys; source_lines = ms })
unfolding project_run
project_run-perm project directory report xs ys ls ms p h =
    ap (project_if report.valid project directory report) (ordered-perm p h)
