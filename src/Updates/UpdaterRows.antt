-- ===== src/Updates/UpdaterRows.antt =====
-- updater.route.go and internal/models/updater_release.go: the rows of updater_releases, the manifest
-- that is served from them, and the requests that write them.
use Prim.Native.String.{◌++◌}
use emly_go_api.Base.{
  ℕ, Bool, false, not, ◌&&◌, ◌||◌, is_some, Option, none, some, List, [], String, ◌==◌, string_eq,
  if◌then◌else◌, nat_beq,
}
use emly_go_api.Base.Text.{trim_space}
use emly_go_api.Base.Dict.{Dict, put}
use emly_go_api.Base.Sql.{Database, find_where, update_where}
use emly_go_api.Updates.{Env, Upload}
use emly_go_api.Updates.Rows.{same_option, same_bool}
use emly_go_api.Updates.Requests.{form_flag, or_else}
use emly_go_api.DbValue.{null_string}

-- A row of updater_releases. The database fills id and created_at, and no code reads them.
pub record UpdaterRelease : Type 0 where
  pub version : String
  pub is_current : Bool
  pub download_filename : String
  pub sha256_checksum : String
  pub file_size : ℕ
  pub notes_it : Option String
  pub notes_en : Option String
  pub published_at : ℕ

pub record UpdaterManifest : Type 0 where
  pub version : String
  pub download : String
  pub sha256 : String
  pub size : ℕ
  pub published_at : String
  pub release_notes : Dict String String

abbrev pub equal : UpdaterRelease → UpdaterRelease → Bool
equal r s =
    r.version == s.version
    && same_bool r.is_current s.is_current
    && r.download_filename == s.download_filename
    && r.sha256_checksum == s.sha256_checksum
    && nat_beq r.file_size s.file_size
    && same_option r.notes_it s.notes_it
    && same_option r.notes_en s.notes_en
    && nat_beq r.published_at s.published_at

abbrev pub is_version : Database → String → UpdaterRelease → Bool
is_version db v r = db.same v r.version

unfoldable pub clear_current_updater_flag :
    Database → String → List UpdaterRelease → List UpdaterRelease
clear_current_updater_flag db v =
    update_where (λ r. r.is_current && not (is_version db v r))
      (λ r. record r { is_current = false })

-- GetUpdaterManifest, by the row it selects: the empty manifest without one. `format_time` is the
-- RFC3339 text of a moment.
abbrev pub add_note : String → Option String → Dict String String → Dict String String
add_note lang none notes = notes
add_note lang (some s) notes = if s == "" then notes else put lang s notes

unfoldable pub get_updater_manifest : (ℕ → String) → String → List UpdaterRelease → UpdaterManifest
get_updater_manifest format_time base rows = elim (find_where (λ r. r.is_current) rows) [
  | none ↦ record {
    version = "";
    download = "";
    sha256 = "";
    size = 0;
    published_at = "";
    release_notes = [];
  }
  | some rel ↦ record {
    version = rel.version;
    download = base ++ ("/v2/updates/download/updater/" ++ rel.version);
    sha256 = rel.sha256_checksum;
    size = rel.file_size;
    published_at = format_time rel.published_at;
    release_notes = add_note "en" rel.notes_en (add_note "it" rel.notes_it []);
  }
]

-- The fields of the multipart form, in which a missing one is empty.
pub record Form : Type 0 where
  pub version : String
  pub is_current : String
  pub notes_it : String
  pub notes_en : String
  pub published_at : String
  pub file : Option Upload

pub record PatchRequest : Type 0 where
  pub is_current : Option Bool
  pub notes_it : Option String
  pub notes_en : Option String
  pub published_at : Option String

-- A column that a given text sets, to NULL by an empty one.
abbrev pub set_note : Option String → Option String → Option String
set_note none old = old
set_note (some s) old = null_string (trim_space s)

abbrev pub patch_fields : PatchRequest → Option ℕ → UpdaterRelease → UpdaterRelease
patch_fields req published_at r = record r {
  is_current = or_else req.is_current r.is_current;
  notes_it = set_note req.notes_it r.notes_it;
  notes_en = set_note req.notes_en r.notes_en;
  published_at = or_else published_at r.published_at;
}

-- No set clause.
abbrev pub is_blank : PatchRequest → Bool
is_blank req = not (
    is_some req.is_current
    || is_some req.notes_it
    || is_some req.notes_en
    || is_some req.published_at)

abbrev pub form_time : Env → String → Option ℕ
form_time env text = if text == "" then some env.now else env.parse_time text

-- The row of a form, of the moment it gives and of the bytes of its file.
abbrev pub new_release : Env → (String → ℕ) → Form → ℕ → String → String → UpdaterRelease
new_release env byte_length form published_at filename bytes = record {
  version = trim_space form.version;
  is_current = form_flag form.is_current;
  download_filename = filename;
  sha256_checksum = env.sha256_hex bytes;
  file_size = byte_length bytes;
  notes_it = null_string (trim_space form.notes_it);
  notes_en = null_string (trim_space form.notes_en);
  published_at = published_at;
}
