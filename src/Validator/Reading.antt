-- ===== src/Validator/Reading.antt =====
-- Properties of a validator under the reading of the event files.
use qe_report.Prelude.{String, Option, none, some, List, [], ◌∷◌, ◌≡◌, subst}
use qe_report.Validator.Externals.{Externals}
use mathlib.Core.Option.{some-injective}
use qe_report.Validator.Feed.{Call, feed}
use qe_report.Validator.Model.{RunValidator}
use qe_report.Validator.FileSystem.{
  FoundKind, EntryKind, file, directory, symlink, special, missing, found, FileSystem, entry_kind,
  Regular, fd, gone, refused, open_regular,
}
use qe_report.Validator.Attachments.{bind, refuse_entry}
use qe_report.Validator.Directory.{read_file, read_opened, read_entry, read_files, read_directory}

-- a property of a result; an exception has every property
abbrev pub Result {ℓ} : {A : Type ℓ} → (A → Type ℓ) → Option A → Type ℓ
Result P none = Unit
Result P (some a) = P a

pub Result-bind {ℓ} :
    {A B : Type ℓ} (P : A → Type ℓ) (Q : B → Type ℓ) (o : Option A) (f : A → Option B)
    → ((a : A) → P a → Result Q (f a))
    → Result P o
    → Result Q (bind o f)
Result-bind P Q none f k h = tt
Result-bind P Q (some a) f k h = k a h

pub anything : {A : Type 0} (o : Option A) → Result (λ (_ : A). Unit {0}) o
anything none = tt
anything (some _) = tt

pub result_some {ℓ} :
    {A : Type ℓ} (P : A → Type ℓ) (o : Option A) {a : A} → Result P o → o ≡ some a → P a
result_some P none h e = cc
result_some P (some b) h e = subst P (some-injective _ _ e) h

-- A property that a refused entry and the reading of lines keep, the reading of a directory keeps.
module _ (P : RunValidator → Type 0)
    (refused_entry : (path : String) (v : RunValidator) → P v → P (refuse_entry path v))
    (fed : (c : Call) (lines : List String) (v : RunValidator) → P v → P (feed c lines v)) where
  read_file-kept :
      (x : Externals) (path : String) (o : Option (List String)) (v : RunValidator)
      → P v
      → Result P (read_file x path o v)
  read_file-kept x path none v h = tt
  read_file-kept x path (some lines) v h = fed _ lines v h

  read_opened-kept :
      (x : Externals) (path : String) (o : Option Regular) (v : RunValidator)
      → P v
      → Result P (read_opened x path o v)
  read_opened-kept x path none v h = tt
  read_opened-kept x path (some gone) v h = h
  read_opened-kept x path (some (refused _)) v h = refused_entry path v h
  read_opened-kept x path (some (fd d)) v h = read_file-kept x path d.lines v h

  read_entry-kept :
      (x : Externals) (fs : FileSystem) (path : String) (o : Option EntryKind) (v : RunValidator)
      → P v
      → Result P (read_entry x fs path o v)
  read_entry-kept x fs path none v h = tt
  read_entry-kept x fs path (some missing) v h = h
  read_entry-kept x fs path (some (found file)) v h =
      read_opened-kept x path (open_regular fs path) v h
  read_entry-kept x fs path (some (found _)) v h = refused_entry path v h

  read_files-kept :
      (x : Externals) (fs : FileSystem) (dir : String) (names : List String) (v : RunValidator)
      → P v
      → Result P (read_files x fs dir names v)
  unfolding read_files
  read_files-kept x fs dir [] v h = h
  read_files-kept x fs dir (n ∷ names) v h =
      Result-bind P P (read_entry x fs (fs.join dir n) _ v) (read_files x fs dir names)
        (read_files-kept x fs dir names)
        (read_entry-kept x fs (fs.join dir n) (entry_kind fs (fs.join dir n)) v h)

  pub read_directory-kept :
      (x : Externals) (fs : FileSystem) (dir : String) (kind : FoundKind) (v : RunValidator)
      → P v
      → Result P (read_directory x fs dir kind v)
  read_directory-kept x fs dir directory v h =
      Result-bind (λ _. Unit) P (fs.readdir dir) _ (λ names _. read_files-kept x fs dir _ v h)
        (anything (fs.readdir dir))
  read_directory-kept x fs dir file v h = refused_entry dir v h
  read_directory-kept x fs dir symlink v h = refused_entry dir v h
  read_directory-kept x fs dir special v h = refused_entry dir v h
