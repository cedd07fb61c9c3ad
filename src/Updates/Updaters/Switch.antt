-- ===== src/Updates/Updaters/Switch.antt =====
-- The kill switch: a PATCH that makes the current updater release not current.
use emly_go_api.Base.{
  ℕ, true, false, not, ◌&&◌, Option, none, some, List, String, string_eq, ◌≡◌, refl, arith, All-imp,
}
use emly_go_api.Base.Result.{Result, settle, Holds, stop_if-Holds, need-Holds, settle-after}
use emly_go_api.Base.Sql.{Database, find_where, update_where, affects, claim}
use emly_go_api.Updates.{Env, Faults}
use emly_go_api.Updates.Slots
use emly_go_api.Updates.Slots.Found
use emly_go_api.Updates.Requests.{claims, patched_time}
use emly_go_api.Updates.Releases.{Refusal}
use emly_go_api.Updates.UpdaterRows.{
  UpdaterRelease, equal, is_version, clear_current_updater_flag, PatchRequest, patch_fields,
  is_blank, get_updater_manifest,
}
use emly_go_api.Updates.Updaters.{
  Response, release, refuse, State, patch_tx, patch_request, patch_updater_release,
}
use emly_go_api.Updates.Updaters.Current.{version_of, current, IsSingle}

-- The row that is current is the only one that can be.
holder-IsHeldBy :
    (db : Database) (version : String) (rows : List UpdaterRelease) (rel : UpdaterRelease)
    → IsSingle db rows
    → find_where current rows ≡ some rel
    → db.same version rel.version ≡ true
    → Slots.IsHeldBy db version_of current version rows
holder-IsHeldBy db version rows rel (d, c) found same =
    let (u, held) = Slots.HasHolder-count db version_of current rows c in
    let on : db.same u rel.version ≡ true =
      Found.find_where-All _ current rows rel held found
        (Found.find_where-true current rows rel found) in
    let met : db.same version u ≡ true =
      db.same_trans version rel.version u same (db.same_sym u rel.version on) in
    All-imp rows (λ r h e. db.same_trans version u r.version met (h e)) held

-- No row is current once that one is not.
find_where-update :
    (db : Database) (version : String) (req : PatchRequest) (published_at : Option ℕ)
    (rows : List UpdaterRelease)
    → req.is_current ≡ some false
    → Slots.IsHeldBy db version_of current version rows
    → find_where current (
        update_where
          (is_version db version)
          (patch_fields req published_at)
          (claim (claims req.is_current) (clear_current_updater_flag db version) rows))
      ≡ none
find_where-update db version req published_at rows off held =
    let unclaimed : claims req.is_current ≡ false = rw off refl in
    rw unclaimed (
      Found.find_where-none current
        (update_where (is_version db version) (patch_fields req published_at) rows)
        (Slots.All-update_where _ _ (is_version db version) (patch_fields req published_at) rows
          (λ r h e. rw off refl) (λ r h e. ground arith) held))

module _ (env : Env) (byte_length : String → ℕ) (db : Database) (f : Faults) where
  -- A reached answer that reports a release leaves no current row.
  IsKilled : Response × State → Type 0
  IsKilled answer =
      (r : UpdaterRelease) → answer.0 ≡ release r → find_where current answer.1.rows ≡ none

  to_IsKilled :
      (answer : Response × State) → find_where current answer.1.rows ≡ none → IsKilled answer
  unfolding IsKilled
  to_IsKilled answer h = λ r e. h

  settle-IsKilled :
      (s : State) (r : Result Refusal (Response × State))
      → Holds IsKilled r
      → IsKilled (settle refuse s r)
  unfolding IsKilled
  settle-IsKilled s r = settle-after IsKilled refuse s r (λ e row reply. cc reply)

  patch-IsKilled :
      (version : String) (req : PatchRequest) (s : State)
      → req.is_current ≡ some false
      → Slots.IsHeldBy db version_of current version s.rows
      → IsKilled (patch_updater_release env byte_length db f version (some req) s)
  unfolding patch_updater_release patch_request patch_tx
  patch-IsKilled version req s off held =
      settle-IsKilled s (patch_request env byte_length db f version req s) (
        need-Holds _ (patched_time env req.published_at) _ _ (λ published_at e.
          let killed = find_where-update db version req published_at s.rows off held in
          stop_if-Holds _ (is_blank req) _ _ (
            stop_if-Holds _ f.begin_tx _ _ (
              stop_if-Holds _ (claims req.is_current && f.clear) _ _ (
                stop_if-Holds _ f.write _ _ (
                  stop_if-Holds _
                    (not
                      (affects db equal (is_version db version) (patch_fields req published_at) _))
                    _ _
                    (stop_if-Holds _ f.commit _ _ (
                      settle-IsKilled _ _ (
                        stop_if-Holds _ f.reload _ _ (
                          need-Holds _ (find_where (is_version db version) _) _ _
                            (λ row e. to_IsKilled _ killed)))))))))))

manifest-none :
    (format_time : ℕ → String) (base : String) (rows : List UpdaterRelease)
    → find_where current rows ≡ none
    → (get_updater_manifest format_time base rows).version ≡ ""
unfolding get_updater_manifest
manifest-none format_time base rows e = rw (e, get_updater_manifest) refl

-- The kill switch: where at most one updater release is current, after a PATCH with is_current false
-- on its version that answers with a release, the updater manifest has the empty version.
pub patch-kills :
    (env : Env) (byte_length : String → ℕ) (db : Database) (f : Faults) (version : String)
    (req : PatchRequest) (s : State) (rel reply : UpdaterRelease) (format_time : ℕ → String)
    (base : String)
    → IsSingle db s.rows
    → find_where current s.rows ≡ some rel
    → db.same version rel.version ≡ true
    → req.is_current ≡ some false
    → (patch_updater_release env byte_length db f version (some req) s).0 ≡ release reply
    → (get_updater_manifest format_time base
        (patch_updater_release env byte_length db f version (some req) s).1.rows).version
      ≡ ""
unfolding IsKilled
patch-kills env byte_length db f version req s rel reply format_time base single found same off e =
    manifest-none format_time base _ (
      patch-IsKilled env byte_length db f version req s off
        (holder-IsHeldBy db version s.rows rel single found same) reply e)
