-- ===== src/Updates/Updaters.antt =====
-- updater.route.go: the handlers that write updater_releases.
pub mod Current
pub mod Served
pub mod Switch
use emly_go_api.Base.{
  ℕ, Bool, not, ◌&&◌, ◌||◌, Option, none, some, String, ◌==◌, string_eq, update, remove, is_some,
}
use emly_go_api.Base.Text.{trim_space}
use emly_go_api.Base.Result.{Result, ok, fail, ◌>>=◌, ◌>>◌, stop_if, need, settle}
use emly_go_api.Base.Sql.{
  Database, find_where, update_where, delete_where, some_row, insert_new, affects, claim,
}
use emly_go_api.Updates.{
  Env, Removal, removed, not_found, unavailable, Faults, Store, Upload, s3_key,
}
use emly_go_api.Updates.Requests.{claims, patched_time}
use emly_go_api.Updates.Filename.{matches_updater_version, updater_installer_filename}
use emly_go_api.Updates.Releases.{Refusal}
use emly_go_api.Updates.UpdaterRows.{
  UpdaterRelease, equal, is_version, clear_current_updater_flag, Form, PatchRequest, patch_fields,
  form_time, new_release, is_blank,
}

pub data Response : Type 0 where
  error : ℕ → String → Response
  created : String → Bool → String → String → ℕ → Response
  release : UpdaterRelease → Response
  deleted : Response

abbrev pub refuse : Refusal → Response
refuse (code, text) = error code text

abbrev pub State : Type 0
State = Store UpdaterRelease

module _ (env : Env) (byte_length : String → ℕ) (db : Database) (f : Faults) where
  -- CreateUpdaterRelease from the transaction on.
  unfoldable pub create_tx : UpdaterRelease → State → Result Refusal (Response × State)
  unfolding clear_current_updater_flag
  create_tx new s = do
    stop_if f.begin_tx (500, "failed to begin transaction")
    stop_if (new.is_current && f.clear) (500, "failed to clear existing current release")
    let cleared = claim new.is_current (clear_current_updater_flag db new.version) s.rows
    stop_if f.write (500, "failed to create updater release")
    rows ←
        need (insert_new (is_version db new.version) new cleared)
          (500, "failed to create updater release")
    stop_if f.commit (500, "failed to commit")
    ok (
      created new.version new.is_current new.download_filename new.sha256_checksum new.file_size,
      record s { rows = rows },
    )

  -- CreateUpdaterRelease once the file is read.
  unfoldable pub create_file :
      String → Form → ℕ → Upload → String → State → Result Refusal (Response × State)
  unfolding create_tx
  create_file prefix form published_at file bytes s = do
    let filename = updater_installer_filename file.filename (trim_space form.version)
    stop_if f.upload (500, "upload failed")
    let stored = record s { files = update (s3_key prefix filename) bytes s.files }
    ok (
        settle refuse stored
          (create_tx (new_release env byte_length form published_at filename bytes) stored))

  -- CreateUpdaterRelease with storage configured and the form parsed.
  unfoldable pub create_form : String → Form → State → Result Refusal (Response × State)
  unfolding create_file
  create_form prefix form s = do
    stop_if (trim_space form.version == "") (400, "version is required")
    stop_if (not (matches_updater_version (trim_space form.version)))
        (400, "version must be semver without a leading 'v' (e.g. 1.5.0)")
    published_at ←
        need (form_time env (trim_space form.published_at)) (400, "published_at must be RFC3339")
    file ← need form.file (400, "missing file field")
    bytes ← need file.content (500, "failed to read file")
    create_file prefix form published_at file bytes s

  -- CreateUpdaterRelease: no storage, and no form where it does not parse.
  unfoldable pub create_updater_release : Option String → Option Form → State → Response × State
  unfolding create_form
  create_updater_release storage body s = settle refuse s (do
    prefix ← need storage (503, "S3 storage is not configured")
    form ← need body (400, "invalid multipart form")
    create_form prefix form s)

  unfoldable pub patch_tx :
      String → PatchRequest → Option ℕ → State → Result Refusal (Response × State)
  unfolding clear_current_updater_flag
  patch_tx version req published_at s = do
    stop_if f.begin_tx (500, "failed to begin transaction")
    stop_if (claims req.is_current && f.clear) (500, "failed to clear existing current release")
    let cleared = claim (claims req.is_current) (clear_current_updater_flag db version) s.rows
    stop_if f.write (500, "failed to update updater release")
    stop_if (not (affects db equal (is_version db version) (patch_fields req published_at) cleared))
        (404, "updater release not found")
    stop_if f.commit (500, "failed to commit")
    let updated = record s {
      rows = update_where (is_version db version) (patch_fields req published_at) cleared;
    }
    ok (
        settle refuse updated (do
          stop_if f.reload (500, "failed to fetch updated updater release")
          row ←
              need (find_where (is_version db version) updated.rows)
                (500, "failed to fetch updated updater release")
          ok (release row, updated)))

  -- PatchUpdaterRelease with the body parsed.
  unfoldable pub patch_request : String → PatchRequest → State → Result Refusal (Response × State)
  unfolding patch_tx
  patch_request version req s = do
    published_at ← need (patched_time env req.published_at) (400, "published_at must be RFC3339")
    stop_if (is_blank req) (400, "no fields to update")
    patch_tx version req published_at s

  unfoldable pub patch_updater_release : String → Option PatchRequest → State → Response × State
  unfolding patch_request
  patch_updater_release version body s =
      settle refuse s (do req ← need body (400, "invalid JSON"); patch_request version req s)

  -- DeleteUpdaterRelease once the file is gone.
  unfoldable pub delete_row : String → State → Response × State
  delete_row version s = settle refuse s (do
    stop_if f.write (500, "failed to delete updater release")
    stop_if (not (some_row (is_version db version) s.rows)) (404, "updater release not found")
    ok (deleted, record s { rows = delete_where (is_version db version) s.rows }))

  unfoldable pub delete_file : String → String → State → Removal → Response × State
  unfolding delete_row
  delete_file version key s removed = delete_row version (record s { files = remove key s.files })
  delete_file version key s not_found = delete_row version s
  delete_file version key s unavailable = (error 500 "failed to delete file from storage", s)

  unfoldable pub delete_updater_release : Option String → String → State → Response × State
  unfolding delete_file
  delete_updater_release storage version s = settle refuse s (do
    prefix ← need storage (503, "S3 storage is not configured")
    stop_if f.select (404, "updater release not found")
    row ← need (find_where (is_version db version) s.rows) (404, "updater release not found")
    ok (delete_file version (s3_key prefix row.download_filename) s f.remove_file))

-- The routes that write updater_releases, with what they read of the request.
pub data Request : Type 0 where
  create : Option Form → Request
  patch : String → Option PatchRequest → Request
  delete : String → Request

abbrev pub handle :
    Env → (String → ℕ) → Database → Faults → Option String → Request → State → Response × State
handle env byte_length db f storage (create body) =
    create_updater_release env byte_length db f storage body
handle env byte_length db f storage (patch version body) =
    patch_updater_release env byte_length db f version body
handle env byte_length db f storage (delete version) =
    delete_updater_release env byte_length db f storage version
