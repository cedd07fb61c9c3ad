-- ===== src/Updates/Releases/Invariant.antt =====
-- Every request that writes update_releases keeps each flag on one release at most.
use emly_go_api.Base.{
  Bool, false, not, ◌&&◌, ◌||◌, Option, List, String, refl, inl, inr, remove, string_eq, is_some,
  ◌==◌, subst, sym,
}
use emly_go_api.Base.Text.{trim_space}
use emly_go_api.Base.Result.{Result, settle, Holds, stop_if-Holds, need-Holds, settle-after}
use emly_go_api.Base.Sql.{Database, find_where, some_row, insert_new, insert_new-some, affects}
use emly_go_api.Updates.{Release, Env, Removal, removed, not_found, unavailable, Faults, s3_key}
use emly_go_api.Updates.Rows.{equal, is_version}
use emly_go_api.Updates.Requests.{
  Form, new_release, or_else, or_else-claims, ChannelsRequest, PutRequest, PatchRequest,
  set_channels, put_fields, patch_fields, is_blank, patched_time, valid_severity, default_severity,
}
use emly_go_api.Updates.Releases.{
  Response, State, create_tx, create_form, create_release, delete_release, update_tx,
  patch_release_channels, put_release, patch_release, Request, create, delete, patch_channels, put,
  patch, handle, delete_row, delete_file, channels, refuse, Refusal,
}
use emly_go_api.Updates.Releases.Exclusive.{
  IsExclusive, HasHolders, HasHolders-IsExclusive, IsExclusive-HasHolders, KeepsClaims,
  cleared-AreReady, created-AreReady, updated-HasHolders, inserted-HasHolders,
  delete_where-HasHolders,
}
use emly_go_api.Updates.Releases.Reported.{IsReported, Reports, find_where-inserted}

module _ (env : Env) (db : Database) (f : Faults) where
  -- The table satisfies the invariant, and holds the release that the answer reports.
  unfoldable pub Keeps : Response × State → Type 0
  Keeps answer = HasHolders db answer.1.rows × Reports answer.0 answer.1.rows

  to_Keeps :
      (answer : Response × State)
      → HasHolders db answer.1.rows
      → Reports answer.0 answer.1.rows
      → Keeps answer
  unfolding Keeps
  to_Keeps answer h r = (h, r)

  settle-Keeps :
      (s : State) (r : Result Refusal (Response × State))
      → HasHolders db s.rows
      → Holds Keeps r
      → Keeps (settle refuse s r)
  unfolding Keeps
  settle-Keeps s r h = settle-after Keeps refuse s r (λ e. (h, tt))

  create_tx-Keeps :
      (new : Release) (s : State) → HasHolders db s.rows → Holds Keeps (create_tx env db f new s)
  unfolding create_tx
  create_tx-Keeps new s h = stop_if-Holds _ f.begin_tx _ _ (
      stop_if-Holds _ (new.is_critical && f.clear) _ _ (
        stop_if-Holds _ (new.is_stable && f.clear) _ _ (
          stop_if-Holds _ (new.is_beta && f.clear) _ _ (
            stop_if-Holds _ f.write _ _ (
              need-Holds _ (insert_new (is_version db new.version) new _) _ _ (λ rows e.
                stop_if-Holds _ f.commit _ _ (
                  let (fresh, added) = insert_new-some _ new _ rows e in
                  to_Keeps _
                    (subst (HasHolders db) (sym added) (
                      inserted-HasHolders db new _ fresh (
                        created-AreReady db new.is_stable new.is_beta new.is_critical new.version
                          s.rows h)))
                    (
                      new,
                      is_version db new.version,
                      rw added (find_where-inserted db new _ fresh),
                      refl,
                      refl,
                      refl,
                    ))))))))

  create-Keeps :
      (storage : Option String) (body : Option Form) (s : State)
      → HasHolders db s.rows
      → Keeps (create_release env db f storage body s)
  unfolding create_release create_form
  create-Keeps storage body s h = settle-Keeps s _ h (
      need-Holds _ storage _ _ (λ prefix e. need-Holds _ body _ _ (λ form e.
        stop_if-Holds _ (trim_space form.version == "") _ _ (
          stop_if-Holds _ (not (valid_severity (default_severity (trim_space form.severity_type))))
            _ _
            (need-Holds _ form.file _ _ (λ file e. need-Holds _ file.content _ _ (λ bytes e.
              stop_if-Holds _ f.upload _ _ (
                settle-Keeps _ _ h
                  (create_tx-Keeps (new_release env form file.filename bytes) _ h)))))))))

  update_tx-Keeps :
      (x y z : Bool) (version : String) (change : Release → Release) (failure : String)
      (answer : Release → Response) (s : State)
      → KeepsClaims db x y z change
      → ((row : Release) (rows : List Release)
          → IsReported row.version row.is_stable row.is_beta rows
          → Reports (answer row) rows)
      → HasHolders db s.rows
      → Holds Keeps (update_tx env db f x y z version change failure answer s)
  unfolding update_tx
  update_tx-Keeps x y z version change failure answer s keeps says h =
      let updated =
        updated-HasHolders db x y z version change _ keeps
          (cleared-AreReady db x y z version s.rows h) in
      stop_if-Holds _ f.begin_tx _ _ (
        stop_if-Holds _ (x && f.clear) _ _ (
          stop_if-Holds _ (y && f.clear) _ _ (
            stop_if-Holds _ (z && f.clear) _ _ (
              stop_if-Holds _ f.write _ _ (
                stop_if-Holds _ (not (affects db equal (is_version db version) change _)) _ _ (
                  stop_if-Holds _ f.commit _ _ (
                    settle-Keeps _ _ updated (
                      stop_if-Holds _ f.reload _ _ (
                        need-Holds _ (find_where (is_version db version) _) _ _ (λ row e.
                          to_Keeps _ updated
                            (says row _ (row, is_version db version, e, refl, refl, refl))))))))))))

  channels-Keeps :
      (version : String) (body : Option ChannelsRequest) (s : State)
      → HasHolders db s.rows
      → Keeps (patch_release_channels env db f version body s)
  unfolding patch_release_channels
  channels-Keeps version body s h = settle-Keeps s _ h (
      need-Holds _ body _ _ (λ req e.
        stop_if-Holds _ (not (is_some req.is_stable || is_some req.is_beta)) _ _ (
          update_tx-Keeps _ _ false version (set_channels req) "failed to update channels"
            (λ row. channels row.version row.is_stable row.is_beta) s
            (λ r. (
              refl,
              or_else-claims req.is_stable r.is_stable,
              or_else-claims req.is_beta r.is_beta,
              inr,
            ))
            (λ row rows reported. reported) h)))

  put-Keeps :
      (version : String) (body : Option PutRequest) (s : State)
      → HasHolders db s.rows
      → Keeps (put_release env db f version body s)
  unfolding put_release
  put-Keeps version body s h = settle-Keeps s _ h (
      need-Holds _ body _ _ (λ req e.
        stop_if-Holds _ (not (valid_severity (default_severity req.severity_type))) _ _ (
          update_tx-Keeps _ _ _ version (put_fields env req) _ _ s (λ r. (refl, inl, inl, inl))
            (λ row rows reported. reported) h)))

  patch-Keeps :
      (version : String) (body : Option PatchRequest) (s : State)
      → HasHolders db s.rows
      → Keeps (patch_release env db f version body s)
  unfolding patch_release
  patch-Keeps version body s h = settle-Keeps s _ h (
      need-Holds _ body _ _ (λ req e.
        stop_if-Holds _ (not (valid_severity (or_else req.severity_type "none"))) _ _ (
          need-Holds _ (patched_time env req.released_at) _ _ (λ released_at e.
            stop_if-Holds _ (is_blank req) _ _ (
              update_tx-Keeps _ _ _ version (patch_fields req released_at) _ _ s
                (λ r. (
                  refl,
                  or_else-claims req.is_stable r.is_stable,
                  or_else-claims req.is_beta r.is_beta,
                  or_else-claims req.is_critical r.is_critical,
                ))
                (λ row rows reported. reported) h)))))

  delete_row-Keeps :
      (version : String) (s : State) → HasHolders db s.rows → Keeps (delete_row env db f version s)
  unfolding delete_row
  delete_row-Keeps version s h = settle-Keeps s _ h (
      stop_if-Holds _ f.write _ _ (
        stop_if-Holds _ (not (some_row (is_version db version) s.rows)) _ _
          (to_Keeps _ (delete_where-HasHolders db (is_version db version) s.rows h) tt)))

  delete_file-Keeps :
      (version key : String) (s : State) (answer : Removal)
      → HasHolders db s.rows
      → Keeps (delete_file env db f version key s answer)
  unfolding delete_file
  delete_file-Keeps version key s removed h =
      delete_row-Keeps version (record s { files = remove key s.files }) h
  delete_file-Keeps version key s not_found h = delete_row-Keeps version s h
  delete_file-Keeps version key s unavailable h = to_Keeps _ h tt

  delete-Keeps :
      (storage : Option String) (version : String) (s : State)
      → HasHolders db s.rows
      → Keeps (delete_release env db f storage version s)
  unfolding delete_release
  delete-Keeps storage version s h = settle-Keeps s _ h (
      need-Holds _ storage _ _ (λ prefix e. stop_if-Holds _ f.select _ _ (
        need-Holds _ (find_where (is_version db version) s.rows) _ _ (λ row e.
          delete_file-Keeps version (s3_key prefix row.download_filename) s f.remove_file h))))

  pub handle-Keeps :
      (storage : Option String) (req : Request) (s : State)
      → HasHolders db s.rows
      → Keeps (handle env db f storage req s)
  handle-Keeps storage (create body) = create-Keeps storage body
  handle-Keeps storage (delete version) = delete-Keeps storage version
  handle-Keeps storage (patch_channels version body) = channels-Keeps version body
  handle-Keeps storage (put version body) = put-Keeps version body
  handle-Keeps storage (patch version body) = patch-Keeps version body

-- Every request that writes releases, whatever it answers and whichever statement or bucket call
-- fails, leaves a table with distinct versions in which at most one release is stable, at most one
-- is beta and at most one is critical, from such a table.
pub handle-IsExclusive :
    (env : Env) (db : Database) (f : Faults) (storage : Option String) (req : Request) (s : State)
    → IsExclusive db s.rows
    → IsExclusive db (handle env db f storage req s).1.rows
unfolding Keeps
handle-IsExclusive env db f storage req s h =
    HasHolders-IsExclusive db _
      (handle-Keeps env db f storage req s (IsExclusive-HasHolders db s.rows h)).0
