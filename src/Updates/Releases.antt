-- ===== src/Updates/Releases.antt =====
-- updates.route.go: the handlers that write update_releases.
pub mod Exclusive
pub mod Reported
pub mod Invariant
use emly_go_api.Base.{
  ℕ, Bool, false, not, ◌&&◌, ◌||◌, Option, List, String, ◌==◌, string_eq, update, remove, is_some,
}
use emly_go_api.Base.Text.{trim_space}
use emly_go_api.Base.Result.{Result, ok, fail, ◌>>=◌, ◌>>◌, stop_if, need, settle}
use emly_go_api.Base.Sql.{
  Database, find_where, update_where, delete_where, some_row, insert_new, affects, claim,
}
use emly_go_api.Updates.{
  Release, Env, Removal, removed, not_found, unavailable, Faults, Store, Upload, s3_key,
}
use emly_go_api.Updates.Rows.{
  equal, is_version, clear_stable_flag, clear_beta_flag, clear_critical_flag, clear_all_critical,
}
use emly_go_api.Updates.Requests.{
  valid_severity, default_severity, Form, new_release, claims, or_else, ChannelsRequest, PutRequest,
  PatchRequest, set_channels, put_fields, patch_fields, is_blank, patched_time,
}

pub data Response : Type 0 where
  error : ℕ → String → Response
  created : String → Bool → Bool → String → String → Response
  channels : String → Bool → Bool → Response
  release : Release → Response
  deleted : Response

abbrev pub State : Type 0
State = Store Release

-- The code and the text of an error response. The text of an error that a call reports, which the
-- code appends to some, is left off.
abbrev pub Refusal : Type 0
Refusal = ℕ × String

abbrev pub refuse : Refusal → Response
refuse (code, text) = error code text

abbrev bad_severity : Refusal
bad_severity = (400, "severity_type must be one of: none, security, bugfix, feature")

module _ (env : Env) (db : Database) (f : Faults) where
  -- CreateRelease from the transaction on.
  unfoldable pub create_tx : Release → State → Result Refusal (Response × State)
  unfolding clear_all_critical clear_stable_flag clear_beta_flag
  create_tx new s = do
    stop_if f.begin_tx (500, "failed to begin transaction")
    stop_if (new.is_critical && f.clear) (500, "failed to clear existing critical flag")
    stop_if (new.is_stable && f.clear) (500, "failed to clear existing stable release")
    stop_if (new.is_beta && f.clear) (500, "failed to clear existing beta release")
    let cleared = claim new.is_beta (clear_beta_flag db new.version) (
        claim new.is_stable (clear_stable_flag db new.version)
          (claim new.is_critical (clear_all_critical db) s.rows))
    stop_if f.write (500, "failed to create release")
    rows ←
        need (insert_new (is_version db new.version) new cleared) (500, "failed to create release")
    stop_if f.commit (500, "failed to commit")
    ok (
      created new.version new.is_stable new.is_beta new.download_filename new.sha256_checksum,
      record s { rows = rows },
    )

  -- CreateRelease with storage configured and the form parsed.
  unfoldable pub create_form : String → Form → State → Result Refusal (Response × State)
  unfolding create_tx
  create_form prefix form s = do
    stop_if (trim_space form.version == "") (400, "version is required")
    stop_if (not (valid_severity (default_severity (trim_space form.severity_type)))) bad_severity
    file ← need form.file (400, "missing file field")
    bytes ← need file.content (500, "failed to read file")
    stop_if f.upload (500, "upload failed")
    let stored = record s { files = update (s3_key prefix file.filename) bytes s.files }
    ok (settle refuse stored (create_tx (new_release env form file.filename bytes) stored))

  -- CreateRelease: no storage, and no form where it does not parse.
  unfoldable pub create_release : Option String → Option Form → State → Response × State
  unfolding create_form
  create_release storage body s = settle refuse s (do
    prefix ← need storage (503, "S3 storage is not configured")
    form ← need body (400, "invalid multipart form")
    create_form prefix form s)

  -- DeleteRelease once the file is gone.
  unfoldable pub delete_row : String → State → Response × State
  delete_row version s = settle refuse s (do
    stop_if f.write (500, "failed to delete release")
    stop_if (not (some_row (is_version db version) s.rows)) (404, "release not found")
    ok (deleted, record s { rows = delete_where (is_version db version) s.rows }))

  -- DeleteRelease by what DeleteFile answers.
  unfoldable pub delete_file : String → String → State → Removal → Response × State
  unfolding delete_row
  delete_file version key s removed = delete_row version (record s { files = remove key s.files })
  delete_file version key s not_found = delete_row version s
  delete_file version key s unavailable = (error 500 "failed to delete file from storage", s)

  -- DeleteRelease
  unfoldable pub delete_release : Option String → String → State → Response × State
  unfolding delete_file
  delete_release storage version s = settle refuse s (do
    prefix ← need storage (503, "S3 storage is not configured")
    stop_if f.select (404, "release not found")
    row ← need (find_where (is_version db version) s.rows) (404, "release not found")
    ok (delete_file version (s3_key prefix row.download_filename) s f.remove_file))

  -- What PatchReleaseChannels, PutRelease and PatchRelease do in the transaction: the flags that
  -- the request claims are cleared elsewhere, and the row of the version is changed.
  unfoldable pub update_tx :
      Bool
      → Bool
      → Bool
      → String
      → (Release → Release)
      → String
      → (Release → Response)
      → State
      → Result Refusal (Response × State)
  unfolding clear_stable_flag clear_beta_flag clear_critical_flag
  update_tx stable beta critical version change failure answer s = do
    stop_if f.begin_tx (500, "failed to begin transaction")
    stop_if (stable && f.clear) (500, "failed to clear existing stable release")
    stop_if (beta && f.clear) (500, "failed to clear existing beta release")
    stop_if (critical && f.clear) (500, "failed to clear existing critical flag")
    let cleared = claim critical (clear_critical_flag db version) (
        claim beta (clear_beta_flag db version)
          (claim stable (clear_stable_flag db version) s.rows))
    stop_if f.write (500, failure)
    stop_if (not (affects db equal (is_version db version) change cleared))
        (404, "release not found")
    stop_if f.commit (500, "failed to commit")
    let updated = record s { rows = update_where (is_version db version) change cleared }
    ok (
        settle refuse updated (do
          stop_if f.reload (500, "failed to fetch updated release")
          row ←
              need (find_where (is_version db version) updated.rows)
                (500, "failed to fetch updated release")
          ok (answer row, updated)))

module _ (env : Env) (db : Database) (f : Faults) where
  unfoldable pub patch_release_channels : String → Option ChannelsRequest → State → Response × State
  unfolding update_tx
  patch_release_channels version body s = settle refuse s (do
    req ← need body (400, "invalid JSON")
    stop_if (not (is_some req.is_stable || is_some req.is_beta))
        (400, "is_stable and/or is_beta required")
    update_tx env db f (claims req.is_stable) (claims req.is_beta) false version (set_channels req)
        "failed to update channels" (λ row. channels row.version row.is_stable row.is_beta) s)

  unfoldable pub put_release : String → Option PutRequest → State → Response × State
  unfolding update_tx
  put_release version body s = settle refuse s (do
    req ← need body (400, "invalid JSON")
    stop_if (not (valid_severity (default_severity req.severity_type))) bad_severity
    update_tx env db f req.is_stable req.is_beta req.is_critical version (put_fields env req)
        "failed to update release" release s)

  unfoldable pub patch_release : String → Option PatchRequest → State → Response × State
  unfolding update_tx
  patch_release version body s = settle refuse s (do
    req ← need body (400, "invalid JSON")
    stop_if (not (valid_severity (or_else req.severity_type "none"))) bad_severity
    released_at ← need (patched_time env req.released_at) (400, "released_at must be RFC3339")
    stop_if (is_blank req) (400, "no fields to update")
    update_tx env db f (claims req.is_stable) (claims req.is_beta) (claims req.is_critical) version
        (patch_fields req released_at) "failed to update release" release s)

-- The routes that write update_releases, with what they read of the request.
pub data Request : Type 0 where
  create : Option Form → Request
  delete : String → Request
  patch_channels : String → Option ChannelsRequest → Request
  put : String → Option PutRequest → Request
  patch : String → Option PatchRequest → Request

abbrev pub handle : Env → Database → Faults → Option String → Request → State → Response × State
handle env db f storage (create body) = create_release env db f storage body
handle env db f storage (delete version) = delete_release env db f storage version
handle env db f storage (patch_channels version body) = patch_release_channels env db f version body
handle env db f storage (put version body) = put_release env db f version body
handle env db f storage (patch version body) = patch_release env db f version body
