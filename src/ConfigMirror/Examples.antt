-- ===== src/ConfigMirror/Examples.antt =====
-- A mirror that has revision 1 and is offered revision 4.
use emly_go_api.Base.{false, none, some, ◌≡◌, ◌⊎◌, refl, arith}
use emly_go_api.Base.Int.{pos}
use emly_go_api.ConfigApi.{Table, current_published, find_row, insert, supersede_published}
use emly_go_api.Base.Tags.{normalize_etag}
use emly_go_api.RemoteConfig.Validate.{is_nil}
use emly_go_api.RemoteConfig.Examples.{valid}
use emly_go_api.ConfigApi.Wire.{parse_bytes}
use emly_go_api.ConfigApi.Examples.{wire, table}
use emly_go_api.ConfigApi.Published.{revision_of}
use emly_go_api.ConfigApi.Unique.{IsConsistent}
use emly_go_api.ConfigMirror.{
  State, Upstream, answer, replica, store_replicated_revision, sync_once,
}
use emly_go_api.ConfigMirror.Replicates.{store_replicated_revision-current}
use emly_go_api.ConfigMirror.Accepts.{Replicated, sync_once-Accepted}

abbrev stored : Table
stored = insert (replica 4 (pos 1) "{}" "tag" 30 40) (supersede_published table)

store : store_replicated_revision false (pos 4) (pos 1) "{}" "tag" 30 40 table ≡ some stored
unfolding store_replicated_revision find_row supersede_published
store = refl

store_replicated_revision-current_example :
    (revision_of (current_published stored) ≡ some 4) × IsConsistent stored
store_replicated_revision-current_example =
    store_replicated_revision-current 4 "{}" "tag" 30 40 false (pos 1) table stored
      ((refl, tt), omega arith) store

abbrev state : State
state = record { revision = pos 1; fetched_at = none; last_error = "" }

abbrev reply : Upstream
reply = answer 200 (some "{}") ""

sync_once-Accepted_example :
    ((sync_once wire false false 40 reply (state, table)).1 ≡ table)
    ⊎ Replicated wire reply 40 table
        (sync_once wire false false 40 reply (state, table)).1
        (sync_once wire false false 40 reply (state, table)).0.revision
sync_once-Accepted_example = sync_once-Accepted wire false false 40 reply state table

-- This round stores the body.
replicated :
    (sync_once wire false false 40 reply (state, table)).1
    ≡ insert (replica 4 (pos 1) "{}" "main" 50 40) (supersede_published table)
unfolding sync_once parse_bytes store_replicated_revision find_row supersede_published
    normalize_etag
replicated = rw (valid, is_nil) refl
