-- ===== src/ConfigApi/Reading.antt =====
-- The handlers of config.route.go that read the table remote_config_revisions.
use emly_go_api.Base.{
  ℕ, Bool, false, not, ◌&&◌, ◌||◌, Option, none, some, List, [], ◌∷◌, String, ◌==◌, string_eq,
  if◌then◌else◌,
}
use emly_go_api.Base.Int.{ℤ}
use emly_go_api.Base.Result.{ok, fail}
use emly_go_api.Base.Sql.{Database, update_where}
use emly_go_api.Base.Tags.{normalize_etag, split_on, quoted}
use emly_go_api.RemoteConfig.Document.{Problem}
use emly_go_api.ConfigApi.{Row, Table, find_row, current_published}
use emly_go_api.ConfigApi.Wire.{Wire, problems, document, parse_bytes}
use emly_go_api.UpdaterClient.{Lib, Request, identified}
use emly_go_api.UpdaterClient.Identities.{identity_from_request}
use emly_go_api.UpdaterClient.Registry.{Clients, Faults, has_id, upsert}

-- The parts of the header: a tag in any decoration, or `*`.
unfoldable pub some_part_hits : String → List String → Bool
some_part_hits etag [] = false
some_part_hits etag (part ∷ parts) =
    let rest = some_part_hits etag parts in
    normalize_etag part == "*" || normalize_etag part == etag || rest

-- ifNoneMatchHits
unfoldable pub if_none_match_hits : String → String → Bool
if_none_match_hits header etag =
    not (header == "") && not (etag == "") && some_part_hits etag (split_on b',' header)

-- The fetch of a client that says who it is: its row, and the revision on it.
unfoldable pub track_config_fetch :
    Lib → Database → Faults → Bool → ℕ → Request → ℕ → Clients → Clients
track_config_fetch lib db f failed now r revision clients =
    let id = identity_from_request lib r in
    let (found, new) = upsert db f now id clients in
    if not (identified id) then clients else elim found [
      | fail e ↦ new
      | ok client_id ↦ if failed then new else record new {
        rows =
            update_where (has_id client_id)
              (λ c. record c { config_revision = some revision; config_fetched_at = some now })
              new.rows;
      }
    ]

-- What GET /v2/config answers: 204, 500, 304 or 200 with the ETag and X-Config-Revision headers.
pub data Reading : Type 0 where
  no_content : Reading
  unavailable : Reading
  not_modified : String → ℕ → Reading
  content : String → ℕ → String → Reading

-- GetConfig, by the header If-None-Match, where `failed` is a failure of the query.
unfoldable pub get_config : Bool → String → Table → Reading
get_config failed if_none_match t = if failed then unavailable else elim (current_published t) [
  | none ↦ no_content
  | some row ↦
      if if_none_match_hits if_none_match row.etag
      then not_modified (quoted row.etag) row.revision
      else content (quoted row.etag) row.revision row.document
]

-- GetConfig's tracking: only an answer with a revision counts.
unfoldable pub fetched_revision : Reading → Option ℕ
fetched_revision no_content = none
fetched_revision unavailable = none
fetched_revision (not_modified tag revision) = some revision
fetched_revision (content tag revision body) = some revision

-- What GET /v2/config/revisions/{revision} answers, where `none` is a number that does not parse.
pub data Lookup : Type 0 where
  refused : ℕ → String → Lookup
  found : Row → Lookup

unfoldable pub get_config_revision : Bool → Option ℤ → Table → Lookup
get_config_revision failed none t = refused 400 "invalid revision"
get_config_revision failed (some revision) t =
    if failed then refused 500 "failed to fetch revision" else elim (find_row revision t) [
      | none ↦ refused 404 "revision not found"
      | some row ↦ found row
    ]

-- ValidateConfig, by the member `document` of the body, where `none` is a body that does not parse.
-- The warnings are left out.
pub data Verdict : Type 0 where
  rejected : ℕ → String → Verdict
  invalid : List Problem → Verdict
  valid : Verdict

unfoldable pub validate_config : Wire → Option String → Verdict
validate_config wire none = rejected 400 "invalid JSON"
validate_config wire (some body) =
    if body == ""
    then rejected 400 "document is required"
    else elim (parse_bytes wire body) [ problems ps ↦ invalid ps | document doc ↦ valid ]
