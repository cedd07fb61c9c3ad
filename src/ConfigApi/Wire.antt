-- ===== src/ConfigApi/Wire.antt =====
-- What the handlers of internal/configapi read and answer: the parsed and the canonical form of a
-- document (internal/remoteconfig), and the failures of the database.
use emly_go_api.Base.{
  ℕ, ◌*◌, Bool, Option, none, some, List, [], ◌∷◌, String, ◌==◌, string_eq, if◌then◌else◌, ltb,
}
use emly_go_api.Base.Text.{trim_space}
use emly_go_api.RemoteConfig.Document.{Document, Problem, problemf}
use emly_go_api.RemoteConfig.MergePatch.Apply.{Codec}
use emly_go_api.RemoteConfig.Validate.{parse, is_nil}
use emly_go_api.RemoteConfig.Validate.Sections.{Lib}
use emly_go_api.ConfigApi.{Row}

-- What the handlers call besides: the two of the document's checks, `len` of a byte string,
-- `json.Unmarshal` and `json.Marshal` of a document, the hexadecimal SHA-256, and the RFC3339 text
-- of a moment.
pub record Wire : Type 0 where
  pub lib : Lib
  pub codec : Codec
  pub byte_length : String → ℕ
  pub decode : String → Option Document
  pub marshal : Document → Option String
  pub sha256_hex : String → String
  pub format_time : ℕ → String

-- The statements of the database that fail.
pub record Faults : Type 0 where
  pub begin_tx : Bool
  pub select : Bool
  pub check_current : Bool
  pub allocate : Bool
  pub insert_row : Bool
  pub publish : Bool
  pub delete : Bool
  pub commit : Bool
  pub reload : Bool

-- A response: an error or a list of problems under its code, a row under its code, or
-- `{"deleted": true}`.
pub data Response : Type 0 where
  error : ℕ → String → Response
  invalid : ℕ → List Problem → Response
  reply : ℕ → Row → Response
  deleted : Response

abbrev pub max_document_bytes : ℕ
max_document_bytes = 1024 * 1024

-- canonical.go
abbrev pub canonical : Wire → Document → String × String
canonical wire doc = elim (wire.marshal doc) [ none ↦ ("", "") | some b ↦ (b, wire.sha256_hex b) ]

pub data Parsed : Type 0 where
  problems : List Problem → Parsed
  document : Document → Parsed

-- Parse, from the bytes on, as its callers read it: the document only if there is no problem.
unfoldable pub parse_bytes : Wire → String → Parsed
unfolding parse
parse_bytes wire data_bytes =
    if ltb max_document_bytes (wire.byte_length data_bytes)
    then problems (problemf "" "document exceeds the size cap" ∷ [])
    else elim (wire.decode data_bytes) [
      | none ↦ problems (problemf "" "invalid JSON" ∷ [])
      | some doc ↦
          let found = parse wire.lib wire.codec doc in
          if is_nil found then document doc else problems found
    ]

abbrev pub notes_or_nil : Option String → Option String
notes_or_nil none = none
notes_or_nil (some s) = if trim_space s == "" then none else some (trim_space s)
