-- ===== src/Validator/Sequences/Results.antt =====
-- The source lines of a validated run directory.
use qe_report.Prelude.{ℕ, String, true, Option, none, some, ◌≡◌, refl, ap, ◌∙◌}
use qe_report.Prelude.Assoc.{get}
use qe_report.Validator.Externals.{Externals}
use qe_report.Validator.Model.{ValidateOptions, RunValidator, new_validator}
use qe_report.Validator.FileSystem.{EntryKind, missing, found, FileSystem, entry_kind}
use qe_report.Validator.Attachments.{bind, refuse_entry}
use qe_report.Validator.Finish.{finished_validator, report_of}
use qe_report.Validator.Directory.{
  ValidatedRun, attachments_directory, read_directory, snapshot, validate_found,
  validate_run_directory_snapshot,
}
use qe_report.Validator.Beside.{Beside, Beside-push}
use qe_report.Validator.Complete.{finished_validator-Finished}
use qe_report.Validator.Reading.{Result, Result-bind, anything, result_some, read_directory-kept}
use qe_report.Validator.Sequences.{sequences, upto, last_sequence, IfKept}
use qe_report.Validator.Sequences.AroundSessions.{Around-Beside}
use qe_report.Validator.Sequences.Steps.{Around-IfKept}
use qe_report.Validator.Sequences.Feed.{feed-IfKept}

refuse_entry-IfKept : (path : String) (v : RunValidator) → IfKept v → IfKept (refuse_entry path v)
unfolding refuse_entry
refuse_entry-IfKept path v h = Around-IfKept v _ (Around-Beside (Beside-push _ v)) h

-- the sequence numbers of a session's kept lines, in a valid run
abbrev pub Ordered : ValidatedRun → Type 0
Ordered r = r.report.valid ≡ true → (id : String) → (n : ℕ) × (sequences id r.source_lines ≡ upto n)

snapshot-Ordered :
    (fs : FileSystem) (v : RunValidator) (o : Option RunValidator)
    → finished_validator fs v ≡ o
    → IfKept v
    → Result Ordered (
        bind o
          λ w. some (record { report = report_of w; events = w.accepted; source_lines = w.source }))
snapshot-Ordered fs v none e h = tt
snapshot-Ordered fs v (some w) e h = λ valid id.
    let b : Beside v w = (finished_validator-Finished fs v e).beside in
    (last_sequence id v.sessions, ap (sequences id) b.source ∙ (h (b.valid valid)).1 id)

new_validator-IfKept :
    (o : ValidateOptions) → o.retain_source_lines ≡ true → IfKept (new_validator o)
unfolding get
new_validator-IfKept o on valid = (on, λ id. refl)

validate_found-Ordered :
    (x : Externals) (fs : FileSystem) (dir : String) (options : ValidateOptions) (events : String)
    (kind : EntryKind)
    → options.retain_source_lines ≡ true
    → Result Ordered (validate_found x fs dir options events kind)
validate_found-Ordered x fs dir options events missing on = tt
validate_found-Ordered x fs dir options events (found kind) on =
    Result-bind (λ _. Unit) Ordered (attachments_directory fs dir options.attachments_dir) _
      (λ attachments _.
        Result-bind IfKept Ordered (read_directory x fs events kind _) (snapshot fs)
          (λ v h. snapshot-Ordered fs v _ refl h)
          (read_directory-kept IfKept refuse_entry-IfKept feed-IfKept x fs events kind _
            (new_validator-IfKept _ on)))
      (anything (attachments_directory fs dir options.attachments_dir))

-- If `validateRunDirectorySnapshot` keeps the source lines and its report is valid, then the lines of
-- every session, repetitions aside, carry the sequence numbers 1, 2, 3 and so on, without a gap, in the
-- order in which they were read.
pub validate_run_directory_snapshot-Ordered :
    (x : Externals) (fs : FileSystem) (dir : String) (options : ValidateOptions) {r : ValidatedRun}
    → options.retain_source_lines ≡ true
    → validate_run_directory_snapshot x fs dir options ≡ some r
    → r.report.valid ≡ true
    → (id : String) → (n : ℕ) × (sequences id r.source_lines ≡ upto n)
unfolding validate_run_directory_snapshot
validate_run_directory_snapshot-Ordered x fs dir options on e =
    result_some Ordered (validate_run_directory_snapshot x fs dir options)
      (Result-bind (λ _. Unit) Ordered (entry_kind fs (fs.join dir "events")) _
        (λ kind _. validate_found-Ordered x fs dir options _ kind on)
        (anything (entry_kind fs (fs.join dir "events"))))
      e
