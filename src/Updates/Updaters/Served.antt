-- ===== src/Updates/Updaters/Served.antt =====
-- The checksum of each updater release is that of the bytes that are stored under its name.
use emly_go_api.Base.{
  ℕ, Bool, false, not, ◌&&◌, some, List, [], ◌∷◌, String, ◌==◌, string_eq, ◌≡◌, ◌≢◌, refl, sym,
  update, ==-refl, ==-ne, subst, All, if-intro, Map,
}
use emly_go_api.Base.Text.{trim_space}
use emly_go_api.Base.Result.{Result, settle, Holds, stop_if-Holds, need-Holds, settle-after}
use emly_go_api.Base.Sql.{Database, insert_new, insert_new-some, claim}
use emly_go_api.Updates.{Env, Faults, Upload, s3_key}
use emly_go_api.Updates.Slots
use emly_go_api.Updates.Filename.{matches_updater_version, updater_installer_filename}
use emly_go_api.Updates.Releases.{Refusal}
use emly_go_api.Updates.UpdaterRows.{
  UpdaterRelease, is_version, clear_current_updater_flag, Form, form_time, new_release,
}
use emly_go_api.Updates.Updaters.{
  Response, refuse, State, create_tx, create_file, create_form, create_updater_release,
}

-- Bytes with the row's checksum are stored under the row's file name.
abbrev pub IsStored : Env → String → Map String String → UpdaterRelease → Type 0
IsStored env prefix files r =
    (bytes : String) × (files (s3_key prefix r.download_filename) ≡ some bytes)
    × (env.sha256_hex bytes ≡ r.sha256_checksum)

-- So for every row: what the manifest says of a release is true of the file it links.
abbrev pub IsServed : Env → String → State → Type 0
IsServed env prefix s = All (IsStored env prefix s.files) s.rows

-- The row's file has another key than the file of the form.
abbrev pub HasOtherKey : String → Form → Upload → UpdaterRelease → Type 0
HasOtherKey prefix form file r =
    s3_key prefix (updater_installer_filename file.filename (trim_space form.version))
    ≢ s3_key prefix r.download_filename

abbrev pub IsNewName : String → Form → Upload → State → Type 0
IsNewName prefix form file s = All (HasOtherKey prefix form file) s.rows

module _ (env : Env) (byte_length : String → ℕ) (db : Database) (f : Faults) (prefix : String) where
  Serves : Response × State → Type 0
  Serves answer = IsServed env prefix answer.1

  to_Serves : (answer : Response × State) → IsServed env prefix answer.1 → Serves answer
  unfolding Serves
  to_Serves answer h = h

  settle-Serves :
      (s : State) (r : Result Refusal (Response × State))
      → IsServed env prefix s
      → Holds Serves r
      → Serves (settle refuse s r)
  unfolding Serves
  settle-Serves s r h = settle-after Serves refuse s r (λ e. h)

  cleared-IsServed :
      (on : Bool) (version : String) (files : Map String String) (rows : List UpdaterRelease)
      → All (IsStored env prefix files) rows
      → All (IsStored env prefix files) (claim on (clear_current_updater_flag db version) rows)
  unfolding clear_current_updater_flag
  cleared-IsServed on version files rows h =
      if-intro (All (IsStored env prefix files)) on _ rows
        (Slots.All-update_where _ _ (λ r. r.is_current && not (is_version db version r))
          (λ r. record r { is_current = false }) rows (λ r h e. h) (λ r h e. h) h)
        h

  create_tx-Serves :
      (new : UpdaterRelease) (s : State)
      → IsStored env prefix s.files new
      → IsServed env prefix s
      → Holds Serves (create_tx env byte_length db f new s)
  unfolding create_tx
  create_tx-Serves new s here h = stop_if-Holds _ f.begin_tx _ _ (
      stop_if-Holds _ (new.is_current && f.clear) _ _ (
        stop_if-Holds _ f.write _ _ (
          need-Holds _ (insert_new (is_version db new.version) new _) _ _ (λ rows e.
            stop_if-Holds _ f.commit _ _ (
              let (fresh, added) = insert_new-some _ new _ rows e in
              to_Serves _ (
                subst (All (IsStored env prefix s.files)) (sym added) (
                  Slots.All-append_one _ _ new
                    (cleared-IsServed new.is_current new.version s.files s.rows h) here)))))))

  create_file-Serves :
      (form : Form) (published_at : ℕ) (file : Upload) (bytes : String) (s : State)
      → IsNewName prefix form file s
      → IsServed env prefix s
      → Holds Serves (create_file env byte_length db f prefix form published_at file bytes s)
  unfolding create_file
  create_file-Serves form published_at file bytes s others h =
      let name = updater_installer_filename file.filename (trim_space form.version) in
      let kept : All (IsStored env prefix (update (s3_key prefix name) bytes s.files)) s.rows =
        both s.rows others h in
      stop_if-Holds _ f.upload _ _ (
        settle-Serves _ _ kept (
          create_tx-Serves (new_release env byte_length form published_at name bytes) _
            (bytes, rw (==-refl (s3_key prefix name)) refl, refl) kept))
    where
      both :
          (rows : List UpdaterRelease)
          → All (HasOtherKey prefix form file) rows
          → All (IsStored env prefix s.files) rows
          → All
              (IsStored env prefix (
                update
                  (s3_key prefix
                    (updater_installer_filename file.filename (trim_space form.version)))
                  bytes
                  s.files))
              rows
      both [] others h = tt
      both (r ∷ rows) (other, others) ((old, stored, sum), h) = (
        (old, rw (==-ne _ (s3_key prefix r.download_filename) other) stored, sum),
        both rows others h,
      )

  create_form-Serves :
      (form : Form) (file : Upload) (s : State)
      → form.file ≡ some file
      → IsNewName prefix form file s
      → IsServed env prefix s
      → Holds Serves (create_form env byte_length db f prefix form s)
  unfolding create_form
  create_form-Serves form file s given others h =
      stop_if-Holds _ (trim_space form.version == "") _ _ (
        stop_if-Holds _ (not (matches_updater_version (trim_space form.version))) _ _ (
          need-Holds _ (form_time env (trim_space form.published_at)) _ _ (λ published_at e.
            need-Holds _ form.file _ _ (λ upload e.
              let same : file ≡ upload = cc (given, e) in
              need-Holds _ upload.content _ _ (λ bytes read.
                create_file-Serves form published_at upload bytes s
                  (subst (λ u. IsNewName prefix form u s) same others) h)))))

-- Where every updater release has its checksum from the bytes stored under its file name, it is
-- still so after a release is created, whatever the request answers and whichever statement or
-- bucket call fails, given that no release has the key of the new file already.
pub create_updater_release-IsServed :
    (env : Env) (byte_length : String → ℕ) (db : Database) (f : Faults) (prefix : String)
    (form : Form) (file : Upload) (s : State)
    → form.file ≡ some file
    → IsNewName prefix form file s
    → IsServed env prefix s
    → IsServed env prefix
        (create_updater_release env byte_length db f (some prefix) (some form) s).1
unfolding Serves create_updater_release
create_updater_release-IsServed env byte_length db f prefix form file s given others h =
    settle-Serves env byte_length db f prefix s (create_form env byte_length db f prefix form s) h
      (create_form-Serves env byte_length db f prefix form file s given others h)
