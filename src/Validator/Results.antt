-- ===== src/Validator/Results.antt =====
-- What a valid report of a run directory says of the run.
use qe_report.Prelude.{String, true, false, Option, none, some, ◌≡◌, refl, subst, sym, is_some}
use qe_report.Validator.Externals.{Externals}
use qe_report.Validator.Model.{ValidateOptions, RunValidator, new_validator}
use qe_report.Validator.FileSystem.{EntryKind, missing, found, FileSystem, entry_kind}
use qe_report.Validator.Attachments.{bind, refuse_entry}
use qe_report.Validator.Attachments.Verified.{AttachmentsVerified, AllVerified}
use qe_report.Validator.Finish.{Report, finish, finished_validator, report_of, values}
use qe_report.Validator.Directory.{
  ValidatedRun, read_directory, attachments_directory, snapshot, validate_found,
  validate_run_directory_snapshot,
}
use qe_report.Validator.Beside.{Beside-push}
use qe_report.Validator.Brackets.{IfValid}
use qe_report.Validator.Brackets.Keep.{Beside-IfValid}
use qe_report.Validator.Brackets.Feed.{feed-IfValid}
use qe_report.Validator.Complete.{
  Finished, finished_validator-Finished, Bracketed-complete, all_finished,
}
use qe_report.Validator.Reading.{result_some, Result, Result-bind, anything, read_directory-kept}

refuse_entry-IfValid :
    (path : String) (v : RunValidator) → IfValid v → IfValid (refuse_entry path v)
unfolding refuse_entry
refuse_entry-IfValid path v h = Beside-IfValid (Beside-push _ v) h

-- a valid report of a run that was closed says that it is complete
abbrev pub ClosedComplete : Report → Type 0
ClosedComplete r = r.valid ≡ true → r.summary.closed ≡ true → r.summary.complete ≡ true

abbrev pub RunClosedComplete : ValidatedRun → Type 0
RunClosedComplete r = ClosedComplete r.report

report_of-ClosedComplete :
    (fs : FileSystem) (v w : RunValidator)
    → IfValid v
    → Finished fs v w
    → ClosedComplete (report_of w)
report_of-ClosedComplete fs v w h f valid closed =
    Bracketed-complete w
      (subst (λ m. all_finished (values m) ≡ true) (sym f.beside.sessions)
        (f.sessions_finished valid (subst (λ o. is_some o ≡ true) f.beside.run_finished closed)))
      (Beside-IfValid f.beside h valid)

snapshot-ClosedComplete :
    (fs : FileSystem) (v : RunValidator) (o : Option RunValidator)
    → finished_validator fs v ≡ o
    → IfValid v
    → Result RunClosedComplete (
        bind o
          λ w. some (record { report = report_of w; events = w.accepted; source_lines = w.source }))
snapshot-ClosedComplete fs v none e h = tt
snapshot-ClosedComplete fs v (some w) e h =
    report_of-ClosedComplete fs v w h (finished_validator-Finished fs v e)

new_validator-IfValid : (o : ValidateOptions) → IfValid (new_validator o)
new_validator-IfValid o valid = tt

validate_found-ClosedComplete :
    (x : Externals) (fs : FileSystem) (dir : String) (options : ValidateOptions) (events : String)
    (kind : EntryKind)
    → Result RunClosedComplete (validate_found x fs dir options events kind)
validate_found-ClosedComplete x fs dir options events missing = tt
validate_found-ClosedComplete x fs dir options events (found kind) =
    Result-bind (λ _. Unit) RunClosedComplete (attachments_directory fs dir options.attachments_dir)
      _
      (λ attachments _.
        Result-bind IfValid RunClosedComplete (read_directory x fs events kind _) (snapshot fs)
          (λ v h. snapshot-ClosedComplete fs v _ refl h)
          (read_directory-kept IfValid refuse_entry-IfValid feed-IfValid x fs events kind _
            (new_validator-IfValid _)))
      (anything (attachments_directory fs dir options.attachments_dir))

-- If `validateRunDirectorySnapshot` returns a report that is valid, and the run was closed by
-- run.finished, then the report says that the run is complete: every session and every attempt has
-- finished, and so has every step.
pub validate_run_directory_snapshot-closed_complete :
    (x : Externals) (fs : FileSystem) (dir : String) (options : ValidateOptions) {r : ValidatedRun}
    → validate_run_directory_snapshot x fs dir options ≡ some r
    → r.report.valid ≡ true
    → r.report.summary.closed ≡ true
    → r.report.summary.complete ≡ true
unfolding validate_run_directory_snapshot
validate_run_directory_snapshot-closed_complete x fs dir options e =
    result_some RunClosedComplete (validate_run_directory_snapshot x fs dir options)
      (Result-bind (λ _. Unit) RunClosedComplete (entry_kind fs (fs.join dir "events")) _
        (λ kind _. validate_found-ClosedComplete x fs dir options _ kind)
        (anything (entry_kind fs (fs.join dir "events"))))
      e

abbrev ReportVerified : FileSystem → RunValidator → Report → Type 0
ReportVerified fs v r =
    r.valid ≡ true
    → v.attachments_dir_refused ≡ false
    → AttachmentsVerified fs v.options.attachments_dir v.attachments

report-verified :
    (fs : FileSystem) (v : RunValidator) (o : Option RunValidator)
    → finished_validator fs v ≡ o
    → Result (ReportVerified fs v) (bind o λ w. some (report_of w))
report-verified fs v none e = tt
report-verified fs v (some w) e = (finished_validator-Finished fs v e).verified

-- If `finish` has an attachments directory, has not refused it before, and reports the run as
-- valid, then every declared attachment is a regular file under that directory whose size and
-- SHA-256, taken from the open descriptor, are the declared ones.
pub finish-attachments_verified :
    (fs : FileSystem) (v : RunValidator) {dir : String} {r : Report}
    → v.options.attachments_dir ≡ some dir
    → v.attachments_dir_refused ≡ false
    → finish fs v ≡ some r
    → r.valid ≡ true
    → AllVerified fs dir v.attachments
unfolding finish
finish-attachments_verified fs v named fresh e valid =
    subst (λ o. AttachmentsVerified fs o v.attachments) named
      (result_some (ReportVerified fs v) (finish fs v)
        (report-verified fs v (finished_validator fs v) refl) e valid fresh)
