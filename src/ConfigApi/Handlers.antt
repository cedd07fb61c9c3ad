-- ===== src/ConfigApi/Handlers.antt =====
-- internal/configapi/config.route.go: the handlers that write revisions. A handler returns its
-- response and the table that it leaves; a transaction that is not committed leaves the old one. Of
-- a message the variable parts are left out: the text of a database error, the upstream's address.
use emly_go_api.Base.{
  ℕ, Bool, false, not, Option, none, some, String, ◌==◌, string_eq, if◌then◌else◌, ltb,
}
use emly_go_api.Base.Int.{ℤ, pos, ltb_ℤ}
use emly_go_api.RemoteConfig.Document.{Document}
use emly_go_api.ConfigApi.{
  draft, published, superseded, Row, Table, is_draft, next_revision, find_row, current_published,
  insert, supersede_published, publish_draft, has_draft, delete_draft,
}
use emly_go_api.ConfigApi.Wire.{
  Wire, Faults, Response, error, invalid, reply, deleted, max_document_bytes, canonical, problems,
  document, parse_bytes, notes_or_nil,
}

-- publishRevisionTx. `none` is an error of the database or errRevisionNotDraft.
unfoldable pub publish_revision_tx : Faults → ℤ → ℕ → Table → Option Table
publish_revision_tx f revision now t =
    if f.publish
    then none
    else if has_draft revision (supersede_published t)
    then some (publish_draft revision now (supersede_published t))
    else none

abbrev pub commit : Faults → Response → Table → Table → Response × Table
commit f response old new =
    if f.commit then (error 500 "failed to commit", old) else (response, new)

-- `AND status != 'draft'`
abbrev pub not_draft : Option Row → Option Row
not_draft none = none
not_draft (some row) = if is_draft row.status then none else some row

-- `currentPublished.Valid && revision <= currentPublished.Int64`
abbrev pub is_outdated : ℤ → Option Row → Bool
is_outdated revision none = false
is_outdated revision (some row) = not (ltb_ℤ (pos row.revision) revision)

module _ (wire : Wire) where
  -- The row that CreateConfigRevision and RollbackConfig insert.
  abbrev pub draft_row : ℕ → Option String → Option ℤ → Option String → Document → ℕ → Row
  draft_row now created_by based_on notes doc revision =
      let stamped = record doc { revision = pos revision; generated_at = wire.format_time now } in
      record {
        revision = revision;
        schema_version = doc.schema_version;
        status = draft;
        document = (canonical wire stamped).0;
        etag = (canonical wire stamped).1;
        notes = notes_or_nil notes;
        created_by = created_by;
        based_on = based_on;
        generated_at = now;
        published_at = none;
      }

  -- The body of CreateConfigRevision's request.
  pub record CreateRequest : Type 0 where
    pub document : String
    pub notes : Option String
    pub publish : Bool

  -- CreateConfigRevision, from the begin of its transaction.
  unfoldable pub create_tx :
      Faults → ℕ → Option String → CreateRequest → Document → Table → Response × Table
  create_tx f now created_by req doc t =
      let row = draft_row now created_by none req.notes doc (next_revision t) in
      let answer = record row { notes = req.notes } in
      if f.begin_tx
      then (error 500 "failed to begin transaction", t)
      else if f.allocate
      then (error 500 "failed to allocate revision", t)
      else if f.insert_row
      then (error 500 "failed to create revision", t)
      else if req.publish
      then (elim (publish_revision_tx f (pos (next_revision t)) now (insert row t)) [
        | none ↦ (error 500 "failed to publish", t)
        | some new ↦
            commit f (reply 201 (record answer { status = published; published_at = some now })) t
              new
      ])
      else commit f (reply 201 answer) t (insert row t)

  -- CreateConfigRevision. `none` is a body that is not JSON.
  unfoldable pub create_config_revision :
      String → Faults → ℕ → Option String → Option CreateRequest → Table → Response × Table
  unfolding create_tx
  create_config_revision upstream f now created_by none t =
      if not (upstream == "")
      then (error 405 "this instance mirrors", t)
      else (error 400 "invalid JSON", t)
  create_config_revision upstream f now created_by (some req) t =
      if not (upstream == "")
      then (error 405 "this instance mirrors", t)
      else if req.document == ""
      then (error 400 "document is required", t)
      else if ltb max_document_bytes (wire.byte_length req.document)
      then (error 413 "document exceeds the 1 MiB size cap", t)
      else elim (parse_bytes wire req.document) [
        | problems found ↦ (invalid 422 found, t)
        | document doc ↦ create_tx f now created_by req doc t
      ]

  -- The body of RollbackConfig's request.
  pub record RollbackRequest : Type 0 where
    pub to : ℤ
    pub notes : Option String

  -- SELECT of the row as it is after a commit, and the error if there is none.
  abbrev pub reload : Faults → ℕ → String → ℤ → Table → Response
  reload f code failure revision t =
      if f.reload
      then error 500 failure
      else elim (find_row revision t) [ none ↦ error 500 failure | some row ↦ reply code row ]

  -- RollbackConfig, from the parsed source on.
  unfoldable pub rollback_tx :
      Faults → ℕ → Option String → RollbackRequest → Document → Table → Response × Table
  rollback_tx f now created_by req doc t =
      let row = draft_row now created_by (some req.to) req.notes doc (next_revision t) in
      let revision = pos (next_revision t) in
      if f.allocate
      then (error 500 "failed to allocate revision", t)
      else if f.insert_row
      then (error 500 "failed to create rollback revision", t)
      else elim (publish_revision_tx f revision now (insert row t)) [
        | none ↦ (error 500 "failed to publish rollback", t)
        | some new ↦
            commit f (reload f 201 "failed to fetch rolled-back revision" revision new) t new
      ]

  -- RollbackConfig.
  unfoldable pub rollback_config :
      String → Faults → ℕ → Option String → Option RollbackRequest → Table → Response × Table
  unfolding rollback_tx
  rollback_config upstream f now created_by none t =
      if not (upstream == "")
      then (error 405 "this instance mirrors", t)
      else (error 400 "invalid JSON", t)
  rollback_config upstream f now created_by (some req) t =
      if not (upstream == "")
      then (error 405 "this instance mirrors", t)
      else if not (ltb_ℤ (pos 0) req.to)
      then (error 400 "to is required", t)
      else if f.begin_tx
      then (error 500 "failed to begin transaction", t)
      else if f.select
      then (error 500 "failed to fetch source revision", t)
      else elim (not_draft (find_row req.to t)) [
        | none ↦ (error 404 "source revision not found (or is still a draft)", t)
        | some row ↦ elim (parse_bytes wire row.document) [
          | problems found ↦ (invalid 422 found, t)
          | document doc ↦ rollback_tx f now created_by req doc t
        ]
      ]

  -- PublishConfigRevision, from the current published revision on.
  unfoldable pub publish_tx : Faults → ℕ → ℤ → Option Row → Table → Response × Table
  publish_tx f now revision current t =
      if f.check_current
      then (error 500 "failed to check current published revision", t)
      else if is_outdated revision current
      then (error 409 "a newer revision has been published since; create a new draft", t)
      else elim (publish_revision_tx f revision now t) [
        | none ↦ (error 409 (if f.publish then "" else "revision is not a draft"), t)
        | some new ↦ commit f (reload f 200 "failed to fetch published revision" revision new) t new
      ]

  -- PublishConfigRevision. `none` is a number that ParseInt refuses.
  unfoldable pub publish_config_revision : String → Faults → ℕ → Option ℤ → Table → Response × Table
  unfolding publish_tx
  publish_config_revision upstream f now none t =
      if not (upstream == "")
      then (error 405 "this instance mirrors", t)
      else (error 400 "invalid revision", t)
  publish_config_revision upstream f now (some revision) t =
      if not (upstream == "")
      then (error 405 "this instance mirrors", t)
      else if f.begin_tx
      then (error 500 "failed to begin transaction", t)
      else if f.select
      then (error 500 "failed to fetch revision", t)
      else elim (find_row revision t) [
        | none ↦ (error 404 "revision not found", t)
        | some row ↦ elim row.status [
          | published ↦ (error 409 "already published", t)
          | superseded ↦ (error 409 "superseded; use rollback to republish its content", t)
          | draft ↦ publish_tx f now revision (current_published t) t
        ]
      ]

  -- DeleteConfigRevision.
  unfoldable pub delete_config_revision : String → Faults → Option ℤ → Table → Response × Table
  delete_config_revision upstream f none t =
      if not (upstream == "")
      then (error 405 "this instance mirrors", t)
      else (error 400 "invalid revision", t)
  delete_config_revision upstream f (some revision) t =
      if not (upstream == "")
      then (error 405 "this instance mirrors", t)
      else if f.delete
      then (error 500 "failed to delete revision", t)
      else if has_draft revision t
      then (deleted, delete_draft revision t)
      else if f.select
      then (error 404 "revision not found", t)
      else elim (find_row revision t) [
        | none ↦ (error 404 "revision not found", t)
        | some row ↦ (error 409 "only draft revisions can be deleted", t)
      ]

  -- routes.go: the requests that write revisions.
  pub data Request : Type 0 where
    create : Option CreateRequest → Request
    rollback : Option RollbackRequest → Request
    publish : Option ℤ → Request
    delete : Option ℤ → Request

  abbrev pub handle : String → Faults → ℕ → Option String → Request → Table → Response × Table
  handle upstream f now user (create req) t = create_config_revision upstream f now user req t
  handle upstream f now user (rollback req) t = rollback_config upstream f now user req t
  handle upstream f now user (publish revision) t =
      publish_config_revision upstream f now revision t
  handle upstream f now user (delete revision) t = delete_config_revision upstream f revision t
