-- ===== src/Updates/Updaters/Current.antt =====
-- At most one updater release is current, and the manifest serves it.
use emly_go_api.Base.{
  ℕ, ◌≤◌, Bool, not, ◌&&◌, Option, some, List, String, ◌==◌, string_eq, ◌≡◌, refl, sym, remove,
  subst,
}
use emly_go_api.Base.Text.{trim_space}
use emly_go_api.Base.Result.{Result, settle, Holds, stop_if-Holds, need-Holds, settle-after}
use emly_go_api.Base.Sql.{
  Database, find_where, update_where, delete_where, some_row, insert_new, insert_new-some, affects,
  claim,
}
use emly_go_api.Updates.{Env, Removal, removed, not_found, unavailable, Faults, s3_key}
use emly_go_api.Updates.Slots
use emly_go_api.Updates.Slots.Claims
use emly_go_api.Updates.Requests.{claims, patched_time, or_else-claims}
use emly_go_api.Updates.Filename.{matches_updater_version}
use emly_go_api.Updates.Releases.{Refusal}
use emly_go_api.Updates.UpdaterRows.{
  UpdaterRelease, equal, is_version, clear_current_updater_flag, Form, PatchRequest, patch_fields,
  form_time, is_blank,
}
use emly_go_api.Updates.Updaters.{
  Response, refuse, State, create_tx, create_file, create_form, patch_request,
  create_updater_release, patch_tx, patch_updater_release, delete_row, delete_file,
  delete_updater_release, Request, create, patch, delete, handle,
}

abbrev pub version_of : UpdaterRelease → String
version_of r = r.version

abbrev pub current : UpdaterRelease → Bool
current r = r.is_current

module _ (db : Database) where
  -- Versions are distinct, and at most one row is current.
  abbrev pub IsSingle : List UpdaterRelease → Type 0
  IsSingle rows = Slots.HasDistinctKeys db version_of rows × (Slots.count current rows ≤ 1)

  abbrev HasOne : List UpdaterRelease → Type 0
  HasOne rows =
      Slots.HasDistinctKeys db version_of rows × Slots.HasHolder db version_of current rows

  IsSingle-HasOne : (rows : List UpdaterRelease) → IsSingle rows → HasOne rows
  IsSingle-HasOne rows (d, c) = (d, Slots.HasHolder-count db version_of current rows c)

  cleared-IsReady :
      (on : Bool) (version : String) (rows : List UpdaterRelease)
      → HasOne rows
      → Slots.HasDistinctKeys db version_of (claim on (clear_current_updater_flag db version) rows)
        × Claims.IsReady db version_of current version on
            (claim on (clear_current_updater_flag db version) rows)
  unfolding clear_current_updater_flag
  cleared-IsReady on version rows (d, h) = (
    Claims.claim-HasDistinctKeys db version_of on _ _ rows (λ r. refl) d,
    Claims.claim-IsReady db version_of current version on _ rows (λ r. refl) h,
  )

  inserted-HasOne :
      (new : UpdaterRelease) (rows after : List UpdaterRelease)
      → HasOne rows
      → insert_new
          (is_version db new.version)
          new
          (claim new.is_current (clear_current_updater_flag db new.version) rows)
        ≡ some after
      → HasOne after
  inserted-HasOne new rows after h e =
      let (d, ready) = cleared-IsReady new.is_current new.version rows h in
      let (fresh, added) = insert_new-some _ new _ after e in
      subst HasOne (sym added) (
        Slots.append_one-HasDistinctKeys db version_of _ new fresh d,
        Claims.insert-HasHolder db version_of current new.is_current new _ (λ on. on) ready,
      )

  updated-HasOne :
      (version : String) (req : PatchRequest) (published_at : Option ℕ) (rows : List UpdaterRelease)
      → HasOne rows
      → HasOne (
          update_where
            (is_version db version)
            (patch_fields req published_at)
            (claim (claims req.is_current) (clear_current_updater_flag db version) rows))
  updated-HasOne version req published_at rows h =
      let (d, ready) = cleared-IsReady (claims req.is_current) version rows h in
      (
        Slots.update_where-HasDistinctKeys db version_of _ _ _ (λ r. refl) d,
        Claims.update-HasHolder db version_of current version (claims req.is_current)
            (patch_fields req published_at) _ (λ r. refl)
            (λ r. or_else-claims req.is_current r.is_current) ready,
      )

  deleted-HasOne :
      (p : UpdaterRelease → Bool) (rows : List UpdaterRelease)
      → HasOne rows
      → HasOne (delete_where p rows)
  deleted-HasOne p rows (d, (v, h)) = (
    Slots.delete_where-HasDistinctKeys db version_of p rows d,
    (v, Slots.All-delete_where _ p rows h),
  )

module _ (env : Env) (byte_length : String → ℕ) (db : Database) (f : Faults) where
  Keeps : Response × State → Type 0
  Keeps answer = HasOne db answer.1.rows

  to_Keeps : (answer : Response × State) → HasOne db answer.1.rows → Keeps answer
  unfolding Keeps
  to_Keeps answer h = h

  settle-Keeps :
      (s : State) (r : Result Refusal (Response × State))
      → HasOne db s.rows
      → Holds Keeps r
      → Keeps (settle refuse s r)
  unfolding Keeps
  settle-Keeps s r h = settle-after Keeps refuse s r (λ e. h)

  create_tx-Keeps :
      (new : UpdaterRelease) (s : State)
      → HasOne db s.rows
      → Holds Keeps (create_tx env byte_length db f new s)
  unfolding create_tx
  create_tx-Keeps new s h = stop_if-Holds _ f.begin_tx _ _ (
      stop_if-Holds _ (new.is_current && f.clear) _ _ (
        stop_if-Holds _ f.write _ _ (
          need-Holds _ (insert_new (is_version db new.version) new _) _ _ (λ rows e.
            stop_if-Holds _ f.commit _ _ (to_Keeps _ (inserted-HasOne db new s.rows rows h e))))))

  create-Keeps :
      (storage : Option String) (body : Option Form) (s : State)
      → HasOne db s.rows
      → Keeps (create_updater_release env byte_length db f storage body s)
  unfolding create_updater_release create_form create_file
  create-Keeps storage body s h = settle-Keeps s _ h (
      need-Holds _ storage _ _ (λ prefix e. need-Holds _ body _ _ (λ form e.
        stop_if-Holds _ (trim_space form.version == "") _ _ (
          stop_if-Holds _ (not (matches_updater_version (trim_space form.version))) _ _ (
            need-Holds _ (form_time env (trim_space form.published_at)) _ _ (λ published_at e.
              need-Holds _ form.file _ _ (λ file e. need-Holds _ file.content _ _ (λ bytes e.
                stop_if-Holds _ f.upload _ _ (settle-Keeps _ _ h (create_tx-Keeps _ _ h))))))))))

  patch-Keeps :
      (version : String) (body : Option PatchRequest) (s : State)
      → HasOne db s.rows
      → Keeps (patch_updater_release env byte_length db f version body s)
  unfolding patch_updater_release patch_request patch_tx
  patch-Keeps version body s h = settle-Keeps s _ h (
      need-Holds _ body _ _ (λ req e.
        need-Holds _ (patched_time env req.published_at) _ _ (λ published_at e.
          let updated = updated-HasOne db version req published_at s.rows h in
          stop_if-Holds _ (is_blank req) _ _ (
            stop_if-Holds _ f.begin_tx _ _ (
              stop_if-Holds _ (claims req.is_current && f.clear) _ _ (
                stop_if-Holds _ f.write _ _ (
                  stop_if-Holds _
                    (not
                      (affects db equal (is_version db version) (patch_fields req published_at) _))
                    _ _
                    (stop_if-Holds _ f.commit _ _ (
                      settle-Keeps _ _ updated (
                        stop_if-Holds _ f.reload _ _ (
                          need-Holds _ (find_where (is_version db version) _) _ _
                            (λ row e. to_Keeps _ updated))))))))))))

  delete_row-Keeps :
      (version : String) (s : State)
      → HasOne db s.rows
      → Keeps (delete_row env byte_length db f version s)
  unfolding delete_row
  delete_row-Keeps version s h = settle-Keeps s _ h (
      stop_if-Holds _ f.write _ _ (
        stop_if-Holds _ (not (some_row (is_version db version) s.rows)) _ _
          (to_Keeps _ (deleted-HasOne db (is_version db version) s.rows h))))

  delete_file-Keeps :
      (version key : String) (s : State) (answer : Removal)
      → HasOne db s.rows
      → Keeps (delete_file env byte_length db f version key s answer)
  unfolding delete_file
  delete_file-Keeps version key s removed h =
      delete_row-Keeps version (record s { files = remove key s.files }) h
  delete_file-Keeps version key s not_found h = delete_row-Keeps version s h
  delete_file-Keeps version key s unavailable h = to_Keeps _ h

  delete-Keeps :
      (storage : Option String) (version : String) (s : State)
      → HasOne db s.rows
      → Keeps (delete_updater_release env byte_length db f storage version s)
  unfolding delete_updater_release
  delete-Keeps storage version s h = settle-Keeps s _ h (
      need-Holds _ storage _ _ (λ prefix e. stop_if-Holds _ f.select _ _ (
        need-Holds _ (find_where (is_version db version) s.rows) _ _ (λ row e.
          delete_file-Keeps version (s3_key prefix row.download_filename) s f.remove_file h))))

  handle-Keeps :
      (storage : Option String) (req : Request) (s : State)
      → HasOne db s.rows
      → Keeps (handle env byte_length db f storage req s)
  handle-Keeps storage (create body) = create-Keeps storage body
  handle-Keeps storage (patch version body) = patch-Keeps version body
  handle-Keeps storage (delete version) = delete-Keeps storage version

-- Every request that writes updater releases, whatever it answers and whichever statement or bucket
-- call fails, leaves a table with distinct versions of which at most one is current, from such a
-- table.
pub handle-IsSingle :
    (env : Env) (byte_length : String → ℕ) (db : Database) (f : Faults) (storage : Option String)
    (req : Request) (s : State)
    → IsSingle db s.rows
    → IsSingle db (handle env byte_length db f storage req s).1.rows
unfolding Keeps
handle-IsSingle env byte_length db f storage req s h =
    let (d, one) = handle-Keeps env byte_length db f storage req s (IsSingle-HasOne db s.rows h) in
    (d, Slots.count-HasHolder db version_of current _ d one)
