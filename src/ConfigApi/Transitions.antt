-- ===== src/ConfigApi/Transitions.antt =====
-- What one request can make of the table.
use emly_go_api.Base.{
  ℕ, true, false, not, Option, none, some, [], ◌∷◌, String, ◌==◌, string_eq, ◌≡◌, ◌<◌, refl, arith,
  Bool-cases, Option-cases, inl, inr, if-intro, ltb,
}
use emly_go_api.Base.Int.{ℤ, pos, negsuc, ltb_ℤ}
use emly_go_api.RemoteConfig.Document.{Document}
use emly_go_api.ConfigApi.{
  Status, draft, published, superseded, Row, Table, next_revision, find_row, current_published,
  insert, supersede_published, publish_draft, has_draft, delete_draft,
}
use emly_go_api.ConfigApi.Wire.{
  Wire, Faults, Response, invalid, Parsed, problems, document, parse_bytes, max_document_bytes,
}
use emly_go_api.ConfigApi.Handlers.{
  draft_row, publish_revision_tx, commit, CreateRequest, RollbackRequest, create_tx,
  create_config_revision, rollback_tx, rollback_config, publish_tx, publish_config_revision,
  delete_config_revision, not_draft, is_outdated, Request, create, rollback, publish, delete,
  handle,
}

-- The number is above that of the published revision.
abbrev pub IsNewer : ℕ → Option Row → Type 0
IsNewer n none = Unit
IsNewer n (some row) = row.revision < n

abbrev pub make_current : ℕ → ℕ → Table → Table
make_current n now t = publish_draft (pos n) now (supersede_published t)

-- One request: nothing, a new draft, a draft that becomes the published revision, both at once, or
-- a draft that goes.
pub data Step (t : Table) : Table → Type 0 where
  unchanged : Step t t
  drafted :
      (row : Row) → row.status ≡ draft → row.revision ≡ next_revision t → Step t (insert row t)
  made_current :
      (n now : ℕ)
      → has_draft (pos n) (supersede_published t) ≡ true
      → IsNewer n (current_published t)
      → Step t (make_current n now t)
  drafted_current :
      (row : Row) (now : ℕ)
      → row.status ≡ draft
      → row.revision ≡ next_revision t
      → has_draft (pos (next_revision t)) (supersede_published (insert row t)) ≡ true
      → Step t (make_current (next_revision t) now (insert row t))
  dropped : (n : ℤ) → Step t (delete_draft n t)

-- What the transaction of a publication leaves.
publish_revision_tx-draft :
    (f : Faults) (n : ℤ) (now : ℕ) (t new : Table)
    → publish_revision_tx f n now t ≡ some new
    → (has_draft n (supersede_published t) ≡ true)
      × (new ≡ publish_draft n now (supersede_published t))
unfolding publish_revision_tx
publish_revision_tx-draft f n now t new e = ground arith

has_draft_negsuc : (n : ℕ) (t : Table) → has_draft (negsuc n) t ≡ false
unfolding has_draft
has_draft_negsuc n [] = refl
has_draft_negsuc n (row ∷ rows) = has_draft_negsuc n rows

not_outdated :
    (n : ℕ) (current : Option Row) → is_outdated (pos n) current ≡ false → IsNewer n current
not_outdated n none e = tt
not_outdated n (some row) e = ground arith

module _ (wire : Wire) (f : Faults) (now : ℕ) (t : Table) where
  abbrev Stays : Response × Table → Type 0
  Stays r = Step t r.1

  commit-Step : (response : Response) (new : Table) → Step t new → Stays (commit f response t new)
  commit-Step response new s = if-intro Stays f.commit _ _ unchanged s

  module _ (created_by : Option String) (doc : Document) where
    create_tx-Step : (req : CreateRequest wire) → Stays (create_tx wire f now created_by req doc t)
    unfolding create_tx
    create_tx-Step req =
        let row = draft_row wire now created_by none req.notes doc (next_revision t) in
        if-intro Stays f.begin_tx _ _ unchanged (
          if-intro Stays f.allocate _ _ unchanged (
            if-intro Stays f.insert_row _ _ unchanged (
              if-intro Stays req.publish _ _
                (elim (Option-cases
                  (publish_revision_tx f (pos (next_revision t)) now (insert row t))) [
                    | inl failed ↦ rw failed unchanged
                    | inr (new, e) ↦ rw e (
                        let (there, same) = publish_revision_tx-draft f _ now _ new e in
                        commit-Step _ new (rw same (drafted_current row now refl refl there)))
                  ])
                (commit-Step _ _ (drafted row refl refl)))))

    rollback_tx-Step :
        (req : RollbackRequest wire) → Stays (rollback_tx wire f now created_by req doc t)
    unfolding rollback_tx
    rollback_tx-Step req =
        let row = draft_row wire now created_by (some req.to) req.notes doc (next_revision t) in
        if-intro Stays f.allocate _ _ unchanged (
          if-intro Stays f.insert_row _ _ unchanged
            (elim (Option-cases
              (publish_revision_tx f (pos (next_revision t)) now (insert row t))) [
                | inl failed ↦ rw failed unchanged
                | inr (new, e) ↦ rw e (
                    let (there, same) = publish_revision_tx-draft f _ now _ new e in
                    commit-Step _ new (rw same (drafted_current row now refl refl there)))
              ]))

  publish_tx-Step : (revision : ℤ) → Stays (publish_tx wire f now revision (current_published t) t)
  unfolding publish_tx
  publish_tx-Step revision =
      if-intro Stays f.check_current _ _ unchanged
        (elim (Bool-cases (is_outdated revision (current_published t))) [
          | inl old ↦ rw old unchanged
          | inr fresh ↦ rw fresh (elim (Option-cases (publish_revision_tx f revision now t)) [
            | inl failed ↦ rw failed unchanged
            | inr (new, e) ↦ rw e (
                commit-Step _ new
                  (go revision fresh new (publish_revision_tx-draft f revision now t new e)))
          ])
        ])
    where
      go :
          (revision : ℤ)
          → is_outdated revision (current_published t) ≡ false
          → (new : Table)
          → (has_draft revision (supersede_published t) ≡ true)
            × (new ≡ publish_draft revision now (supersede_published t))
          → Step t new
      go (pos n) fresh new (there, same) =
          rw same (made_current n now there (not_outdated n (current_published t) fresh))
      go (negsuc n) fresh new (there, same) = cc (there, has_draft_negsuc n (supersede_published t))

  module _ (upstream : String) (created_by : Option String) where
    parsed_Step :
        (p : Parsed) (k : Document → Response × Table)
        → ((doc : Document) → Stays (k doc))
        → Stays (elim p [ problems found ↦ (invalid 422 found, t) | document doc ↦ k doc ])
    parsed_Step (problems found) k s = unchanged
    parsed_Step (document doc) k s = s doc

    row_Step :
        (o : Option Row) (missing : Response × Table) (k : Row → Response × Table)
        → Stays missing
        → ((row : Row) → Stays (k row))
        → Stays (elim o [ none ↦ missing | some row ↦ k row ])
    row_Step none missing k m s = m
    row_Step (some row) missing k m s = s row

    status_Step :
        (status : Status) (x y z : Response × Table)
        → Stays x
        → Stays y
        → Stays z
        → Stays (elim status [ published ↦ x | superseded ↦ y | draft ↦ z ])
    status_Step draft x y z sx sy sz = sz
    status_Step published x y z sx sy sz = sx
    status_Step superseded x y z sx sy sz = sy

    create-Step :
        (req : Option (CreateRequest wire))
        → Stays (create_config_revision wire upstream f now created_by req t)
    unfolding create_config_revision
    create-Step none = if-intro Stays (not (upstream == "")) _ _ unchanged unchanged
    create-Step (some req) = if-intro Stays (not (upstream == "")) _ _ unchanged (
        if-intro Stays (req.document == "") _ _ unchanged (
          if-intro Stays (ltb max_document_bytes (wire.byte_length req.document)) _ _ unchanged (
            parsed_Step (parse_bytes wire req.document)
              (λ doc. create_tx wire f now created_by req doc t)
              (λ doc. create_tx-Step created_by doc req))))

    rollback-Step :
        (req : Option (RollbackRequest wire))
        → Stays (rollback_config wire upstream f now created_by req t)
    unfolding rollback_config
    rollback-Step none = if-intro Stays (not (upstream == "")) _ _ unchanged unchanged
    rollback-Step (some req) = if-intro Stays (not (upstream == "")) _ _ unchanged (
        if-intro Stays (not (ltb_ℤ (pos 0) req.to)) _ _ unchanged (
          if-intro Stays f.begin_tx _ _ unchanged (
            if-intro Stays f.select _ _ unchanged (
              row_Step (not_draft (find_row req.to t)) _ _ unchanged (λ row.
                parsed_Step (parse_bytes wire row.document)
                  (λ doc. rollback_tx wire f now created_by req doc t)
                  (λ doc. rollback_tx-Step created_by doc req))))))

    publish-Step :
        (revision : Option ℤ) → Stays (publish_config_revision wire upstream f now revision t)
    unfolding publish_config_revision
    publish-Step none = if-intro Stays (not (upstream == "")) _ _ unchanged unchanged
    publish-Step (some revision) = if-intro Stays (not (upstream == "")) _ _ unchanged (
        if-intro Stays f.begin_tx _ _ unchanged (
          if-intro Stays f.select _ _ unchanged (
            row_Step (find_row revision t) _ _ unchanged (λ row.
              status_Step row.status _ _ _ unchanged unchanged (publish_tx-Step revision)))))

    delete-Step : (revision : Option ℤ) → Stays (delete_config_revision wire upstream f revision t)
    unfolding delete_config_revision
    delete-Step none = if-intro Stays (not (upstream == "")) _ _ unchanged unchanged
    delete-Step (some revision) = if-intro Stays (not (upstream == "")) _ _ unchanged (
        if-intro Stays f.delete _ _ unchanged (
          if-intro Stays (has_draft revision t) _ _ (dropped revision) (
            if-intro Stays f.select _ _ unchanged
              (row_Step (find_row revision t) _ _ unchanged (λ row. unchanged)))))

    pub handle-Step : (req : Request wire) → Stays (handle wire upstream f now created_by req t)
    handle-Step (create req) = create-Step req
    handle-Step (rollback req) = rollback-Step req
    handle-Step (publish revision) = publish-Step revision
    handle-Step (delete revision) = delete-Step revision
