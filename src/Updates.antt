-- ===== src/Updates.antt =====
-- internal/updates and internal/models/release.go: the releases of EMLy and of its updater, their
-- tables as lists of rows, and the files of the storage bucket.
pub mod Slots
pub mod Rows
pub mod Requests
pub mod Filename
pub mod Releases
pub mod Manifest
pub mod UpdaterRows
pub mod Updaters
pub mod Examples
use Prim.Native.String.{◌++◌}
use emly_go_api.Base.{ℕ, Bool, Option, List, String, ◌==◌, string_eq, Map, if◌then◌else◌}

-- A row of update_releases. The database fills id and created_at, and no code reads them.
pub record Release : Type 0 where
  pub version : String
  pub is_stable : Bool
  pub is_beta : Bool
  pub download_filename : String
  pub sha256_checksum : String
  pub short_note : String
  pub severity_type : String
  pub description_en : Option String
  pub description_it : Option String
  pub is_critical : Bool
  pub critical_version : Option String
  pub min_required_version : Option String
  pub released_at : ℕ

-- What the handlers call besides: the RFC3339 parser, the clock in UTC, and the hexadecimal SHA-256
-- of a file.
pub record Env : Type 0 where
  pub parse_time : String → Option ℕ
  pub now : ℕ
  pub sha256_hex : String → String

-- What DeleteFile of the bucket answers.
pub data Removal : Type 0 where
  removed : Removal
  not_found : Removal
  unavailable : Removal

-- The calls that fail: the bucket's and the statements of the database.
pub record Faults : Type 0 where
  pub upload : Bool
  pub remove_file : Removal
  pub select : Bool
  pub begin_tx : Bool
  pub clear : Bool
  pub write : Bool
  pub commit : Bool
  pub reload : Bool

-- A table, and the contents of the bucket by key.
pub record Store {ℓ} (R : Type ℓ) : Type ℓ where
  pub rows : List R
  pub files : Map String String

-- A part of a multipart form: its file name, and its content where it can be read.
pub record Upload : Type 0 where
  pub filename : String
  pub content : Option String

abbrev pub s3_key : String → String → String
s3_key prefix filename = if prefix == "" then filename else prefix ++ ("/" ++ filename)
