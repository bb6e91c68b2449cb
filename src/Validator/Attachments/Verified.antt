-- ===== src/Validator/Attachments/Verified.antt =====
-- The attachments of a run without errors, and the bytes under their hashes.
use qe_report.Prelude.{
  ℕ, if◌then◌else◌, String, Bool, true, false, Option, none, some, List, [], ◌∷◌, ◌≡◌, refl, ap,
  arith, All,
}
use qe_report.Prelude.Int.{ℤ, pos, negsuc}
use qe_report.Prelude.Keys.{text_keys, nat_keys, ◌===◌}
use text.Mathlib.TextEquality.{eq_iff}
use qe_report.Validator.Model.{
  DiagnosticCode, attachment_missing, attachment_size_mismatch, attachment_hash_mismatch,
  unsafe_filesystem_entry, DeclaredAttachment, RunValidator, is_valid, push,
}
use qe_report.Validator.FileSystem.{
  EntryKind, file, directory, missing, found, Descriptor, FileSystem, entry_kind, Regular, fd, gone,
  refused, open_regular,
}
use qe_report.Validator.Attachments.{
  problem, declared_size, check, compare_bytes, check_opened, check_entry, check_attachment, bind,
  check_all, refuse_entry, refuse_for, mark_refused, check_directory, check_named,
  check_attachments,
}
use qe_report.Validator.Validity.{is_valid-push}
use qe_report.Validator.Beside.{Beside, Beside-refl, Beside-trans, Beside-push}

-- `w` comes from `v` by checks, and without an error they have shown `P`.
pub record Checked (P : Type 0) (v w : RunValidator) : Type 0 where
  pub beside : Beside v w
  pub shown : is_valid w ≡ true → P

-- the same of a result; an exception shows nothing
abbrev pub Passed : Type 0 → RunValidator → Option RunValidator → Type 0
Passed P v none = Unit
Passed P v (some w) = Checked P v w

-- an error shows anything
Checked-problem :
    (P : Type 0) (at : _) (code : DiagnosticCode) (v : RunValidator)
    → Checked P v (push (problem at code) v)
Checked-problem P at code v = record {
  beside = Beside-push _ v;
  shown = λ h. cc (h, is_valid-push (problem at code) v);
}

Checked-check :
    (b : Bool) (at : _) (code : DiagnosticCode) (v : RunValidator)
    → Checked (b ≡ true) v (check b (problem at code) v)
Checked-check true at code v = record { beside = Beside-refl v; shown = λ h. refl }
Checked-check false at code v = Checked-problem _ at code v

-- The size and the hash of the descriptor are those that were declared.
abbrev pub SameBytes : DeclaredAttachment → Descriptor → Type 0
SameBytes a d = (n : ℕ) × (d.size ≡ some n) × (a.size_bytes ≡ pos n) × (d.sha256 ≡ some a.sha256)

declared_size-eq : (z : ℤ) (n : ℕ) → declared_size z n ≡ true → z ≡ pos n
declared_size-eq (pos m) n h = ground arith
declared_size-eq (negsuc m) n h = cc

compare_bytes-Passed :
    (a : DeclaredAttachment) (size : Option ℕ) (sha256 : Option String) (v : RunValidator)
    → Passed
        ((n : ℕ) × (size ≡ some n) × (a.size_bytes ≡ pos n) × (sha256 ≡ some a.sha256))
        v
        (compare_bytes a size sha256 v)
compare_bytes-Passed a none sha256 v = tt
compare_bytes-Passed a (some n) none v = tt
compare_bytes-Passed a (some n) (some actual) v =
    let first =
      Checked-check (declared_size a.size_bytes n) a.position attachment_size_mismatch v in
    let second = Checked-check (actual === a.sha256) a.position attachment_hash_mismatch _ in
    record {
      beside = Beside-trans first.beside second.beside;
      shown = λ h. (
        n,
        refl,
        declared_size-eq a.size_bytes n (first.shown (second.beside.valid h)),
        ap some ((eq_iff actual a.sha256).0 (second.shown h)),
      );
    }

-- The file that a declared attachment names under `dir`, opened as a regular file.
abbrev pub Verified : FileSystem → String → DeclaredAttachment → Type 0
Verified fs dir a =
    (d : Descriptor) × (entry_kind fs (fs.join dir a.sha256) ≡ some (found file))
    × (open_regular fs (fs.join dir a.sha256) ≡ some (fd d))
    × SameBytes a d

Passed-map :
    (P Q : Type 0) (v : RunValidator) (o : Option RunValidator)
    → (P → Q)
    → Passed P v o
    → Passed Q v o
Passed-map P Q v none f h = tt
Passed-map P Q v (some w) f h = record { beside = h.beside; shown = λ valid. f (h.shown valid) }

Passed-after :
    (P Q : Type 0) (v w : RunValidator) (o : Option RunValidator)
    → Checked P v w
    → Passed Q w o
    → Passed (P × Q) v o
Passed-after P Q v w none h k = tt
Passed-after P Q v w (some u) h k = record {
  beside = Beside-trans h.beside k.beside;
  shown = λ valid. (h.shown (k.beside.valid valid), k.shown valid);
}

check_opened-Passed :
    (fs : FileSystem) (dir : String) (a : DeclaredAttachment) (o : Option Regular)
    (v : RunValidator)
    → entry_kind fs (fs.join dir a.sha256) ≡ some (found file)
    → open_regular fs (fs.join dir a.sha256) ≡ o
    → Passed (Verified fs dir a) v (check_opened a o v)
check_opened-Passed fs dir a none v k e = tt
check_opened-Passed fs dir a (some gone) v k e = Checked-problem _ a.position attachment_missing v
check_opened-Passed fs dir a (some (refused _)) v k e =
    Checked-problem _ a.position unsafe_filesystem_entry v
check_opened-Passed fs dir a (some (fd d)) v k e =
    Passed-map (SameBytes a d) (Verified fs dir a) v _ (λ same. (d, k, e, same))
      (compare_bytes-Passed a d.size d.sha256 v)

check_entry-Passed :
    (fs : FileSystem) (dir : String) (a : DeclaredAttachment) (o : Option EntryKind)
    (v : RunValidator)
    → entry_kind fs (fs.join dir a.sha256) ≡ o
    → Passed (Verified fs dir a) v (check_entry fs (fs.join dir a.sha256) a o v)
check_entry-Passed fs dir a none v e = tt
check_entry-Passed fs dir a (some missing) v e = Checked-problem _ a.position attachment_missing v
check_entry-Passed fs dir a (some (found file)) v e = check_opened-Passed fs dir a _ v e refl
check_entry-Passed fs dir a (some (found _)) v e =
    Checked-problem _ a.position unsafe_filesystem_entry v

abbrev pub AllVerified : FileSystem → String → List DeclaredAttachment → Type 0
AllVerified fs dir = All (Verified fs dir)

Passed-bind :
    (P Q : Type 0) (v : RunValidator) (o : Option RunValidator)
    (f : RunValidator → Option RunValidator)
    → Passed P v o
    → ((w : RunValidator) → Passed Q w (f w))
    → Passed (P × Q) v (bind o f)
Passed-bind P Q v none f h k = tt
Passed-bind P Q v (some w) f h k = Passed-after P Q v w (f w) h (k w)

check_all-Passed :
    (fs : FileSystem) (dir : String) (l : List DeclaredAttachment) (v : RunValidator)
    → Passed (AllVerified fs dir l) v (check_all fs dir l v)
unfolding check_all
check_all-Passed fs dir [] v = record { beside = Beside-refl v; shown = λ _. tt }
check_all-Passed fs dir (a ∷ l) v =
    Passed-bind (Verified fs dir a) (AllVerified fs dir l) v (check_attachment fs dir a v)
      (check_all fs dir l) (check_entry-Passed fs dir a _ v refl) (check_all-Passed fs dir l)

invalid-refused :
    (dir : String) (v : RunValidator) → is_valid (mark_refused (refuse_entry dir v)) ≡ false
unfolding refuse_entry is_valid
invalid-refused dir v = is_valid-push _ v

Checked-refused :
    (P : Type 0) (b : Bool) (dir : String) (v : RunValidator)
    → Checked (b ≡ false → P) v (if b then v else mark_refused (refuse_entry dir v))
unfolding refuse_entry
Checked-refused P true dir v = record { beside = Beside-refl v; shown = λ _ e. cc }
Checked-refused P false dir v = record {
  beside = record {
    options = refl;
    sessions = refl;
    attempts = refl;
    source = refl;
    attachments = refl;
    seen = refl;
    run_finished = refl;
    valid = λ h. cc (h, invalid-refused dir v);
  };
  shown = λ h. cc (h, invalid-refused dir v);
}

-- What a first call of `finish` shows: none has refused the directory before.
abbrev First : RunValidator → Type 0 → Type 0
First v P = v.attachments_dir_refused ≡ false → P

-- Below an entry that is no real directory nothing passes, unless nothing is declared.
refuse_for-Checked :
    (fs : FileSystem) (dir : String) (l : List DeclaredAttachment) (v : RunValidator)
    → Checked (First v (AllVerified fs dir l)) v (refuse_for l dir v)
refuse_for-Checked fs dir [] v = record { beside = Beside-refl v; shown = λ _ _. tt }
refuse_for-Checked fs dir (a ∷ l) v = Checked-refused _ v.attachments_dir_refused dir v

read_directory-Passed :
    (fs : FileSystem) (dir : String) (v : RunValidator)
    → Passed (First v (AllVerified fs dir v.attachments)) v (check_all fs dir v.attachments v)
read_directory-Passed fs dir v =
    Passed-map _ _ v _ (λ h _. h) (check_all-Passed fs dir v.attachments v)

check_directory-Passed :
    (fs : FileSystem) (dir : String) (o : Option EntryKind) (v : RunValidator)
    → Passed (First v (AllVerified fs dir v.attachments)) v (check_directory fs dir o v)
check_directory-Passed fs dir none v = tt
check_directory-Passed fs dir (some missing) v = read_directory-Passed fs dir v
check_directory-Passed fs dir (some (found directory)) v = read_directory-Passed fs dir v
check_directory-Passed fs dir (some (found _)) v = refuse_for-Checked fs dir v.attachments v

-- What the checks of `finish` show, by the option that names the directory.
abbrev pub AttachmentsVerified : FileSystem → Option String → List DeclaredAttachment → Type 0
AttachmentsVerified fs none l = Unit
AttachmentsVerified fs (some dir) l = AllVerified fs dir l

check_named-Passed :
    (fs : FileSystem) (o : Option String) (v : RunValidator)
    → Passed (First v (AttachmentsVerified fs o v.attachments)) v (check_named fs o v)
check_named-Passed fs none v = record { beside = Beside-refl v; shown = λ _ _. tt }
check_named-Passed fs (some dir) v = check_directory-Passed fs dir (entry_kind fs dir) v

pub check_attachments-Passed :
    (fs : FileSystem) (v : RunValidator)
    → Passed
        (v.attachments_dir_refused ≡ false
          → AttachmentsVerified fs v.options.attachments_dir v.attachments)
        v
        (check_attachments fs v)
unfolding check_attachments
check_attachments-Passed fs v = check_named-Passed fs v.options.attachments_dir v
