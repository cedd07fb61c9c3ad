-- ===== src/ConfigApi/Numbers.antt =====
-- The numbers that drafts get.
use emly_go_api.Base.{
  ℕ, true, false, Option, none, some, [], ◌∷◌, String, ◌==◌, string_eq, ◌≡◌, refl, sym, arith, ltb,
}
use emly_go_api.Base.Int.{pos}
use emly_go_api.RemoteConfig.Document.{Document}
use emly_go_api.ConfigApi.{
  draft, Row, Table, next_revision, current_published, insert, supersede_published, has_draft,
  delete_draft,
}
use emly_go_api.ConfigApi.Wire.{
  Wire, Faults, reply, deleted, document, parse_bytes, max_document_bytes,
}
use emly_go_api.ConfigApi.Handlers.{
  publish_revision_tx, CreateRequest, draft_row, create_config_revision, delete_config_revision,
}
use emly_go_api.ConfigApi.Transitions.{make_current}
use emly_go_api.ConfigApi.Published.{revision_of, revision-make_current}
use emly_go_api.ConfigApi.Unique.{has_row, has_row-next}

abbrev pub no_faults : Faults
no_faults = record {
  begin_tx = false;
  select = false;
  check_current = false;
  allocate = false;
  insert_row = false;
  publish = false;
  delete = false;
  commit = false;
  reload = false;
}

delete-absent : (n : ℕ) (t : Table) → has_row n t ≡ false → delete_draft (pos n) t ≡ t
unfolding delete_draft
delete-absent n [] e = refl
delete-absent n (row ∷ rows) e = ground (arith, delete-absent n rows)

delete-insert :
    (row : Row) (t : Table)
    → row.status ≡ draft
    → has_row row.revision t ≡ false
    → delete_draft (pos row.revision) (insert row t) ≡ t
unfolding delete_draft
delete-insert row [] s e = ground arith
delete-insert row (x ∷ rows) s e = ground (arith, delete-insert row rows s)

has_draft-insert :
    (row : Row) (t : Table)
    → row.status ≡ draft
    → has_draft (pos row.revision) (insert row t) ≡ true
unfolding has_draft
has_draft-insert row [] s = ground arith
has_draft-insert row (x ∷ rows) s = ground (arith, has_draft-insert row rows s)

has_draft-insert_superseded :
    (row : Row) (t : Table)
    → row.status ≡ draft
    → has_draft (pos row.revision) (supersede_published (insert row t)) ≡ true
unfolding has_draft supersede_published
has_draft-insert_superseded row [] s = ground arith
has_draft-insert_superseded row (x ∷ rows) s =
    ground (arith, has_draft-insert_superseded row rows s)

publish_revision_tx-insert :
    (row : Row) (now : ℕ) (t : Table)
    → row.status ≡ draft
    → publish_revision_tx no_faults (pos row.revision) now (insert row t)
      ≡ some (make_current row.revision now (insert row t))
unfolding publish_revision_tx
publish_revision_tx-insert row now t s = rw (has_draft-insert_superseded row t s) refl

current-make_current-insert :
    (row : Row) (now : ℕ) (t : Table)
    → row.status ≡ draft
    → revision_of (current_published (make_current row.revision now (insert row t)))
      ≡ some row.revision
current-make_current-insert row now t s =
    rw (revision-make_current row.revision now (insert row t), has_draft-insert_superseded row t s)
      refl

-- Deleting the draft that was created last succeeds and frees its number: the draft that is created
-- next gets the same number again.
pub delete-next_revision :
    (wire : Wire) (f : Faults) (row : Row) (t : Table)
    → row.status ≡ draft
    → row.revision ≡ next_revision t
    → f.delete ≡ false
    → (delete_config_revision wire "" f (some (pos row.revision)) (insert row t) ≡ (deleted, t))
      × (next_revision (delete_config_revision wire "" f (some (pos row.revision)) (insert row t)).1
          ≡ row.revision)
unfolding delete_config_revision
delete-next_revision wire f row t s e ok =
    let absent = has_row-next row.revision t (omega (arith, e)) in
    let there = has_draft-insert row t s in
    let gone = delete-insert row t s absent in
    (rw (ok, there, gone) refl, rw (ok, there, gone) (sym e))

-- A request to create and publish a document that has no problem and fits the size cap succeeds on
-- an instance that is no mirror, when no statement fails: the answer is 201 with the next number,
-- and the published revision is that number.
pub create-publishes :
    (wire : Wire) (now : ℕ) (user : Option String) (req : CreateRequest wire) (doc : Document)
    (t : Table)
    → req.publish ≡ true
    → (req.document == "") ≡ false
    → ltb max_document_bytes (wire.byte_length req.document) ≡ false
    → parse_bytes wire req.document ≡ document doc
    → (revision_of
          (current_published (create_config_revision wire "" no_faults now user (some req) t).1)
        ≡ some (next_revision t))
      × ((row : Row) × ((create_config_revision wire "" no_faults now user (some req) t).0
            ≡ reply 201 row)
          × (row.revision ≡ next_revision t))
unfolding create_config_revision
create-publishes wire now user req doc t p given small parsed =
    let row = draft_row wire now user none req.notes doc (next_revision t) in
    rw (given, small, parsed, p, publish_revision_tx-insert row now t refl)
      (current-make_current-insert row now t refl, (_, refl, refl))
