-- ===== src/Validator/FileSystem.antt =====
-- validator.ts: what the validator asks of a path. The answers of the file system are arguments:
-- `lstat` and `open` may disagree, since an entry can change between the two calls.
use qe_report.Prelude.{ℕ, String, Option, none, some, List}

-- `Exclude<EntryKind, 'missing'>`
pub data FoundKind : Type 0 where
  file directory symlink special : FoundKind

pub data EntryKind : Type 0 where
  missing : EntryKind
  found : FoundKind → EntryKind

-- What `lstatSync` returns, or the code of its error.
pub data Lstat : Type 0 where
  stat : FoundKind → Lstat
  enoent enotdir other_error : Lstat

-- An open descriptor: its kind and its size by `fstatSync`, its bytes as text, and their hash.
pub record Descriptor : Type 0 where
  pub kind : Option FoundKind
  pub size : Option ℕ
  pub lines : Option (List String)
  pub sha256 : Option String

-- What `openSync` returns, or the code of its error.
pub data Opened : Type 0 where
  descriptor : Descriptor → Opened
  eloop emlink enoent other_error : Opened

pub record FileSystem : Type 0 where
  pub lstat : String → Lstat
  pub open_read : String → Opened
  -- the names in a directory; no value for an error
  pub readdir : String → Option (List String)
  -- `realpathSync`: the path, `none` for ENOENT, and no value for another error
  pub realpath : String → Option (Option String)
  pub join : String → String → String

-- `none` is an exception that leaves the validator.
unfoldable pub entry_kind : FileSystem → String → Option EntryKind
entry_kind fs path = elim (fs.lstat path) [
  | stat kind ↦ some (found kind)
  | Lstat.enoent ↦ some missing
  | enotdir ↦ some missing
  | Lstat.other_error ↦ none
]

-- A descriptor of a regular file, or what was found instead.
pub data Regular : Type 0 where
  fd : Descriptor → Regular
  gone : Regular
  refused : FoundKind → Regular

abbrev regular_descriptor : Descriptor → Option FoundKind → Option Regular
regular_descriptor d none = none
regular_descriptor d (some file) = some (fd d)
regular_descriptor d (some kind) = some (refused kind)

unfoldable pub open_regular : FileSystem → String → Option Regular
open_regular fs path = elim (fs.open_read path) [
  | descriptor d ↦ regular_descriptor d d.kind
  | eloop ↦ some (refused symlink)
  | emlink ↦ some (refused symlink)
  | Opened.enoent ↦ some gone
  | Opened.other_error ↦ none
]

-- `trustedDirectory`
unfoldable pub trusted_directory : FileSystem → String → Option String
trusted_directory fs path = elim (fs.realpath path) [
  | none ↦ none
  | some none ↦ some path
  | some (some real) ↦ some real
]
