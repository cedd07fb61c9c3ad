-- ===== src/ConfigApi/Preview.antt =====
-- PreviewConfig: the effective document of a host, for a stored revision or a submitted document.
use emly_go_api.Base.{
  ℕ, Bool, false, not, ◌&&◌, Option, none, some, List, String, ◌==◌, string_eq, if◌then◌else◌,
  is_some,
}
use emly_go_api.Base.Int.{ℤ}
use emly_go_api.Base.Result.{Result, ok, fail, ◌>>=◌, ◌>>◌, stop_if, need}
use emly_go_api.RemoteConfig.Document.{Document, Problem}
use emly_go_api.RemoteConfig.Match.{Host, resolve_site}
use emly_go_api.RemoteConfig.Effective.{effective}
use emly_go_api.ConfigApi.{Table, find_row}
use emly_go_api.ConfigApi.Wire.{Wire, Parsed, problems, document, parse_bytes}

pub record PreviewRequest : Type 0 where
  pub revision : Option ℤ
  pub document : Option String
  pub host : Host
  pub now : Option String

-- An error, or the problems of the submitted document.
pub data Refusal : Type 0 where
  error : ℕ → String → Refusal
  invalid : List Problem → Refusal

pub record Preview : Type 0 where
  pub revision : ℤ
  pub effective_document : Document
  pub applied_override_ids : List String
  pub matched_site : Option String
  pub resolver_chain : List String

abbrev pub has_document : PreviewRequest → Bool
has_document req = elim req.document [ none ↦ false | some body ↦ not (body == "") ]

-- A document without problems, or how the request is refused.
abbrev pub parsed_or : Parsed → (List Problem → Refusal) → Result Refusal Document
parsed_or (problems ps) refuse = fail (refuse ps)
parsed_or (document doc) refuse = ok doc

-- The document to preview, where `failed` is a failure of the query.
unfoldable pub preview_document : Wire → Bool → PreviewRequest → Table → Result Refusal Document
preview_document wire failed req t = elim req.revision [
  | none ↦ elim req.document [
    | none ↦ fail (error 400 "exactly one of revision or document is required")
    | some body ↦ parsed_or (parse_bytes wire body) invalid
  ]
  | some revision ↦ do
    stop_if failed (error 500 "failed to fetch revision")
    row ← need (find_row revision t) (error 404 "revision not found")
    parsed_or (parse_bytes wire row.document)
        (λ ps. error 500 "stored revision failed to re-validate")
]

-- host.now: none where it is absent or empty.
abbrev pub host_now : Wire → Option String → Result Refusal (Option ℕ)
host_now wire none = ok none
host_now wire (some text) = if text == "" then ok none else elim (wire.lib.parse_time text) [
  | none ↦ fail (error 400 "host.now must be RFC3339")
  | some now ↦ ok (some now)
]

-- PreviewConfig with the body parsed, where `clock` is the time that Effective reads.
unfoldable pub preview_config : Wire → Bool → ℕ → PreviewRequest → Table → Result Refusal Preview
unfolding preview_document
preview_config wire failed clock req t = do
  stop_if (not (is_some req.revision) && not (has_document req))
      (error 400 "exactly one of revision or document is required")
  stop_if (is_some req.revision && has_document req)
      (error 400 "exactly one of revision or document is required")
  doc ← preview_document wire failed req t
  now ← host_now wire req.now
  let host : Host = record req.host { now = now }
  let merged = effective wire.lib wire.codec host doc clock
  let site = resolve_site wire.lib merged.0 host
  ok (record {
    revision = doc.revision;
    effective_document = merged.0;
    applied_override_ids = merged.1;
    matched_site = site.0;
    resolver_chain = site.1;
  })
