-- ===== src/ConfigApi/Revalidation.antt =====
-- A client that sends back the tag it was given is told that nothing has changed.
use emly_go_api.Base.{
  ℕ, Bool, true, false, ◌||◌, some, String, ◌==◌, string_eq, ==-refl, ==-ne, subst, Bool-cases, inl,
  inr, ◌≡◌, refl,
}
use emly_go_api.Base.Text.{contains_byte}
use emly_go_api.Base.Tags.{quoted, normalize_etag-quoted, split_on-quoted}
use emly_go_api.ConfigApi.{Row, Table, current_published}
use emly_go_api.ConfigApi.Reading.{
  some_part_hits, if_none_match_hits, not_modified, content, get_config,
}

-- A tag that stands in a header as it is, like the hexadecimal digits of a hash.
abbrev pub IsPlain : String → Type 0
IsPlain etag =
    ((etag == "") ≡ false) × (contains_byte b'"' etag ≡ false) × (contains_byte b',' etag ≡ false)

if_none_match_hits-quoted :
    (etag : String) → IsPlain etag → if_none_match_hits (quoted etag) etag ≡ true
unfolding if_none_match_hits some_part_hits
if_none_match_hits-quoted etag (given, no_quote, no_comma) =
    rw
      (
        split_on-quoted etag no_comma,
        ==-ne (quoted etag) "" (λ e. cc e),
        given,
        normalize_etag-quoted etag no_quote given,
        ==-refl etag,
      )
      (either (etag == "*"))
  where
    either : (b : Bool) → (b || true || false) ≡ true
    either true = refl
    either false = refl

-- Where the published revision has a plain tag, the ETag header that GetConfig answers with, sent
-- back as If-None-Match, is answered by 304 with the same tag and revision.
pub get_config-revalidates :
    (header tag body : String) (revision : ℕ) (t : Table) (row : Row)
    → current_published t ≡ some row
    → IsPlain row.etag
    → get_config false header t ≡ content tag revision body
    → get_config false tag t ≡ not_modified tag revision
unfolding get_config
get_config-revalidates header tag body revision t row published plain answered =
    elim (Bool-cases (if_none_match_hits header row.etag)) [
      | inl hit ↦ absurd_content (rw (published, get_config, hit) at answered)
      | inr miss ↦
          let same : content (quoted row.etag) row.revision row.document
              ≡ content tag revision body =
            rw (published, get_config, miss) at answered in
          let tag_same : quoted row.etag ≡ tag = cc same in
          let number : row.revision ≡ revision = cc same in
          let hits : if_none_match_hits tag row.etag ≡ true =
            subst (λ u. if_none_match_hits u row.etag ≡ true) tag_same
              (if_none_match_hits-quoted row.etag plain) in
          rw (published, get_config, hits) (cc (tag_same, number))
    ]
  where
    absurd_content : {P : Type 0} {a c d : String} {n m : ℕ} → not_modified a n ≡ content c m d → P
    absurd_content e = cc
