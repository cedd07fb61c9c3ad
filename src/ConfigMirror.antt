-- ===== src/ConfigMirror.antt =====
-- internal/configmirror/configmirror.go: one round of the replication.
pub mod Replicates
pub mod Examples
pub mod Accepts
use Prim.Native.Char.{code}
use Prim.Native.String
use emly_go_api.Base.{
  ℕ, Bool, true, false, ◌&&◌, ◌||◌, not, Option, none, some, List, [], ◌∷◌, ◌++◌, String, ◌==◌,
  string_eq, if◌then◌else◌, nat_beq,
}
use emly_go_api.Base.Int.{ℤ, pos, negsuc}
use emly_go_api.Base.Text.{is_empty, trim_space, trim_prefix}
use emly_go_api.RemoteConfig.Document.{Document, Problem}
use emly_go_api.Base.Tags.{normalize_etag}
use emly_go_api.ConfigApi.{
  Status, published, Row, Table, is_published, has_revision, find_row, current_published, insert,
  supersede_published,
}
use emly_go_api.ConfigApi.Wire.{Wire, Parsed, problems, document, parse_bytes, canonical}

-- State
pub record State : Type 0 where
  pub revision : ℤ
  pub fetched_at : Option ℕ
  pub last_error : String

abbrev pub record_success : ℤ → ℕ → State → State
record_success revision now st = record {
  revision = revision;
  fetched_at = some now;
  last_error = "";
}

abbrev pub record_no_change : ℕ → State → State
record_no_change now st = record st { fetched_at = some now; last_error = "" }

abbrev pub record_error : String → State → State
record_error message st = record st { last_error = message }

-- What the upstream answers: the request cannot be made, no reply, or a status with a body (which
-- may not be readable) and the header ETag.
pub data Upstream : Type 0 where
  no_reply : String → Upstream
  answer : ℕ → Option String → String → Upstream

-- `COUNT(*) > 0 … WHERE revision = ? AND status = 'published'`
unfoldable pub is_current : ℤ → Table → Bool
is_current n [] = false
is_current n (row ∷ rows) = has_revision n row && is_published row.status || is_current n rows

-- The ON DUPLICATE KEY UPDATE of the row that has the number.
unfoldable pub overwrite : ℤ → String → String → ℕ → ℕ → Table → Table
overwrite n body etag generated_at now [] = []
overwrite n body etag generated_at now (row ∷ rows) =
    (if has_revision n row
      then record row {
        status = published;
        document = body;
        etag = etag;
        generated_at = generated_at;
        published_at = some now;
      }
      else row)
    ∷ overwrite n body etag generated_at now rows

abbrev pub replica : ℕ → ℤ → String → String → ℕ → ℕ → Row
replica revision schema_version body etag generated_at now = record {
  revision = revision;
  schema_version = schema_version;
  status = published;
  document = body;
  etag = etag;
  notes = none;
  created_by = none;
  based_on = none;
  generated_at = generated_at;
  published_at = some now;
}

-- The INSERT. The column is unsigned, so a negative number is an error.
unfoldable pub upsert : ℤ → ℤ → String → String → ℕ → ℕ → Table → Option Table
unfolding overwrite
upsert (negsuc n) schema_version body etag generated_at now t = none
upsert (pos n) schema_version body etag generated_at now t = elim (find_row (pos n) t) [
  | none ↦ some (insert (replica n schema_version body etag generated_at now) t)
  | some row ↦ some (overwrite (pos n) body etag generated_at now t)
]

-- storeReplicatedRevision; `none` is an error, and `failed` one of a statement of the database.
unfoldable pub store_replicated_revision :
    Bool → ℤ → ℤ → String → String → ℕ → ℕ → Table → Option Table
unfolding upsert is_current
store_replicated_revision failed revision schema_version body etag generated_at now t =
    if failed
    then none
    else if is_current revision t
    then some t
    else upsert revision schema_version body etag generated_at now (supersede_published t)

module _ (wire : Wire) where
  -- syncOnce from the parsed document on, with the header's tag.
  unfoldable pub store_document :
      Bool → ℕ → String → String → Document → State × Table → State × Table
  unfolding store_replicated_revision
  store_document failed now body upstream_etag doc (st, t) =
      let computed = (canonical wire doc).1 in
      if not (upstream_etag == "") && not (upstream_etag == computed)
      then (record_error "hash mismatch" st, t)
      else elim (wire.lib.parse_time doc.generated_at) [
        | none ↦ (record_error "invalid generatedAt in upstream document" st, t)
        | some generated_at ↦
            elim (store_replicated_revision failed doc.revision doc.schema_version body
              (if upstream_etag == "" then computed else upstream_etag) generated_at now t) [
                | none ↦ (record_error "failed to store replicated revision" st, t)
                | some new ↦ (record_success doc.revision now st, new)
              ]
      ]

  -- syncOnce on the upstream's answer; `unreadable` is a failure of currentPublishedETag. Which answer
  -- the upstream gives may depend on the tag that is sent.
  unfoldable pub sync_once : Bool → Bool → ℕ → Upstream → State × Table → State × Table
  unfolding store_document
  sync_once unreadable failed now (no_reply message) (st, t) =
      (record_error (if unreadable then "failed to read local state" else message) st, t)
  sync_once unreadable failed now (answer code body etag) (st, t) =
      if unreadable
      then (record_error "failed to read local state" st, t)
      else if nat_beq code 304 || nat_beq code 204
      then (record_no_change now st, t)
      else if not (nat_beq code 200)
      then (record_error "upstream returned another status" st, t)
      else elim body [
        | none ↦ (record_error "body" st, t)
        | some bytes ↦ elim (parse_bytes wire bytes) [
          | problems found ↦ (record_error "upstream document failed validation" st, t)
          | document doc ↦ store_document failed now bytes (normalize_etag etag) doc (st, t)
        ]
      ]
