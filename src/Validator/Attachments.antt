-- ===== src/Validator/Attachments.antt =====
-- validator.ts: the part of `finish` that checks the bytes of the declared attachments.
pub mod Verified
use qe_report.Prelude.{
  ℕ, String, Bool, true, false, Option, none, some, List, [], ◌∷◌, if◌then◌else◌,
}
use qe_report.Prelude.Int.{ℤ, pos}
use qe_report.Prelude.Keys.{text_keys, nat_keys, ◌===◌}
use qe_report.Validator.Model.{
  error, DiagnosticCode, attachment_missing, attachment_size_mismatch, attachment_hash_mismatch,
  unsafe_filesystem_entry, Diagnostic, Position, DeclaredAttachment, RunValidator, push,
}
use qe_report.Validator.FileSystem.{
  EntryKind, file, directory, missing, found, FileSystem, entry_kind, Regular, fd, gone, refused,
  open_regular,
}

-- `refuseEntry`
unfoldable pub refuse_entry : String → RunValidator → RunValidator
refuse_entry path = push (record {
  severity = error;
  code = unsafe_filesystem_entry;
  file = path;
  line = 0;
  event_id = none;
  pointer = none;
})

abbrev pub problem : Position → DiagnosticCode → Diagnostic
problem at code = record {
  severity = error;
  code = code;
  file = at.file;
  line = at.line;
  event_id = some at.event_id;
  pointer = none;
}

abbrev pub declared_size : ℤ → ℕ → Bool
declared_size (pos n) size = n === size
declared_size _ size = false

abbrev pub check : Bool → Diagnostic → RunValidator → RunValidator
check true d v = v
check false d v = push d v

-- size first, then the hash; both may be reported
abbrev pub compare_bytes :
    DeclaredAttachment → Option ℕ → Option String → RunValidator → Option RunValidator
compare_bytes a none sha256 v = none
compare_bytes a (some size) none v = none
compare_bytes a (some size) (some actual) v = some (
    check (actual === a.sha256) (problem a.position attachment_hash_mismatch)
      (check (declared_size a.size_bytes size) (problem a.position attachment_size_mismatch) v))

abbrev pub check_opened : DeclaredAttachment → Option Regular → RunValidator → Option RunValidator
check_opened a none v = none
check_opened a (some gone) v = some (push (problem a.position attachment_missing) v)
check_opened a (some (refused _)) v = some (push (problem a.position unsafe_filesystem_entry) v)
check_opened a (some (fd d)) v = compare_bytes a d.size d.sha256 v

abbrev pub check_entry :
    FileSystem → String → DeclaredAttachment → Option EntryKind → RunValidator → Option RunValidator
check_entry fs path a none v = none
check_entry fs path a (some missing) v = some (push (problem a.position attachment_missing) v)
check_entry fs path a (some (found file)) v = check_opened a (open_regular fs path) v
check_entry fs path a (some (found _)) v =
    some (push (problem a.position unsafe_filesystem_entry) v)

unfoldable pub check_attachment :
    FileSystem → String → DeclaredAttachment → RunValidator → Option RunValidator
check_attachment fs dir a v =
    let path = fs.join dir a.sha256 in check_entry fs path a (entry_kind fs path) v

abbrev pub bind {ℓ} : {A B : Type ℓ} → Option A → (A → Option B) → Option B
bind none f = none
bind (some a) f = f a

unfoldable pub check_all :
    FileSystem → String → List DeclaredAttachment → RunValidator → Option RunValidator
unfolding check_attachment
check_all fs dir [] v = some v
check_all fs dir (a ∷ rest) v = bind (check_attachment fs dir a v) (check_all fs dir rest)

abbrev pub mark_refused : RunValidator → RunValidator
mark_refused w = record w { attachments_dir_refused = true }

abbrev pub refuse_for : List DeclaredAttachment → String → RunValidator → RunValidator
refuse_for [] dir v = v
refuse_for (_ ∷ _) dir v =
    if v.attachments_dir_refused then v else mark_refused (refuse_entry dir v)

-- One refusal stands for every attachment below an entry that is no real directory.
abbrev pub refuse_directory : String → RunValidator → RunValidator
refuse_directory dir v = refuse_for v.attachments dir v

abbrev pub check_directory :
    FileSystem → String → Option EntryKind → RunValidator → Option RunValidator
check_directory fs dir none v = none
check_directory fs dir (some missing) v = check_all fs dir v.attachments v
check_directory fs dir (some (found directory)) v = check_all fs dir v.attachments v
check_directory fs dir (some (found _)) v = some (refuse_directory dir v)

abbrev pub check_named : FileSystem → Option String → RunValidator → Option RunValidator
check_named fs none v = some v
check_named fs (some dir) v = check_directory fs dir (entry_kind fs dir) v

unfoldable pub check_attachments : FileSystem → RunValidator → Option RunValidator
unfolding check_all refuse_entry
check_attachments fs v = check_named fs v.options.attachments_dir v
