-- ===== src/ConfigMirror/Accepts.antt =====
-- Which documents a mirror stores.
use emly_go_api.Base.{
  ℕ, Bool, true, false, ◌&&◌, ◌||◌, not, Option, none, some, List, [], ◌∷◌, String, if◌then◌else◌,
  ◌≡◌, ◌⊎◌, refl, sym, arith, Bool-cases, Option-cases, inl, inr, nat_beq, ◌==◌, string_eq,
}
use text.Mathlib.TextEquality.{eq_iff}
use emly_go_api.Base.Int.{ℤ}
use emly_go_api.RemoteConfig.Document.{Document, Problem}
use emly_go_api.RemoteConfig.Validate.{parse, is_nil}
use emly_go_api.ConfigApi.{Table}
use emly_go_api.ConfigApi.Wire.{Wire, Parsed, problems, document, parse_bytes, canonical}
use emly_go_api.ConfigMirror.{
  State, Upstream, no_reply, answer, store_replicated_revision, normalize_etag, store_document,
  sync_once, record_error,
}

-- A reply of 200 whose body is read as the document, which Parse finds no problem in, with no tag or
-- the tag of that document, and with the moment that the document names.
pub record Accepted (wire : Wire) (up : Upstream) (doc : Document) (bytes : String) (at : ℕ)
    : Type 0 where
  pub etag : String
  pub replied : up ≡ answer 200 (some bytes) etag
  pub decoded : wire.decode bytes ≡ some doc
  pub no_problem : parse wire.lib wire.codec doc ≡ []
  pub tag : (normalize_etag etag ≡ "") ⊎ (normalize_etag etag ≡ (canonical wire doc).1)
  pub generated : wire.lib.parse_time doc.generated_at ≡ some at

-- A mirror takes a table to this one: it stores the bytes of a document that was accepted, under the
-- document's revision, schema version and canonical tag.
pub record Replicated (wire : Wire) (up : Upstream) (now : ℕ) (old new : Table) (revision : ℤ)
    : Type 0 where
  pub doc : Document
  pub bytes : String
  pub at : ℕ
  pub accepted : Accepted wire up doc bytes at
  pub reported : revision ≡ doc.revision
  pub stored :
      store_replicated_revision false doc.revision doc.schema_version bytes
        (canonical wire doc).1
        at
        now
        old
      ≡ some new

is_nil→nil : (ps : List Problem) → is_nil ps ≡ true → ps ≡ []
is_nil→nil [] e = refl
is_nil→nil (p ∷ ps) e = cc

parse_bytes-document :
    (wire : Wire) (bytes : String) (doc : Document)
    → parse_bytes wire bytes ≡ document doc
    → (wire.decode bytes ≡ some doc) × (parse wire.lib wire.codec doc ≡ [])
unfolding parse_bytes
parse_bytes-document wire bytes doc e = elim (Option-cases (wire.decode bytes)) [
  | inl failed ↦ ground arith
  | inr (d, decoded) ↦ elim (Bool-cases (is_nil (parse wire.lib wire.codec d))) [
    | inl clean ↦
        let same : d ≡ doc = ground arith in
        (rw (sym same) decoded, rw (sym same) (is_nil→nil (parse wire.lib wire.codec d) clean))
    | inr dirty ↦ ground arith
  ]
]

tag_of : (a b : String) → not (a == "") && not (a == b) ≡ false → (a ≡ "") ⊎ (a ≡ b)
tag_of a b e = elim (Bool-cases (a == "")) [
  | inl none_given ↦ inl (ground (arith, eq_iff a ""))
  | inr given ↦ inr (ground (arith, eq_iff a b))
]

-- The tag that is stored is the computed one, whichever the code takes.
stored_tag : (a b : String) → not (a == "") && not (a == b) ≡ false → (if a == "" then b else a) ≡ b
stored_tag a b e = ground (arith, eq_iff a b)

store_replicated_revision-failed :
    (failed : Bool) (revision schema_version : ℤ) (body etag : String) (at now : ℕ) (t new : Table)
    → store_replicated_revision failed revision schema_version body etag at now t ≡ some new
    → store_replicated_revision false revision schema_version body etag at now t ≡ some new
unfolding store_replicated_revision
store_replicated_revision-failed failed revision schema_version body etag at now t new e =
    ground arith

module _ (wire : Wire) (st : State) (t : Table) (up : Upstream) (now : ℕ) where
  -- The table is as it was, or the upstream's document was accepted and stored.
  abbrev Sound : State × Table → Type 0
  Sound r = (r.1 ≡ t) ⊎ Replicated wire up now t r.1 r.0.revision

  store_document-Sound :
      (failed : Bool) (bytes etag : String) (doc : Document)
      → up ≡ answer 200 (some bytes) etag
      → parse_bytes wire bytes ≡ document doc
      → Sound (store_document wire failed now bytes (normalize_etag etag) doc (st, t))
  unfolding store_document
  store_document-Sound failed bytes etag doc replied parsed =
      let sent = normalize_etag etag in
      let computed = (canonical wire doc).1 in
      let (decoded, no_problem) = parse_bytes-document wire bytes doc parsed in
      elim (Bool-cases (not (sent == "") && not (sent == computed))) [
        | inl mismatch ↦ rw mismatch (inl refl)
        | inr matches ↦ rw matches (elim (Option-cases (wire.lib.parse_time doc.generated_at)) [
          | inl failed_time ↦ rw failed_time (inl refl)
          | inr (at, e) ↦ rw e (
              rw (stored_tag sent computed matches) (
                stored failed bytes doc at (record {
                  etag = etag;
                  replied = replied;
                  decoded = decoded;
                  no_problem = no_problem;
                  tag = tag_of sent computed matches;
                  generated = e;
                })))
        ])
      ]
    where
      stored :
          (failed : Bool) (bytes : String) (doc : Document) (at : ℕ)
          → Accepted wire up doc bytes at
          → Sound
              (elim (store_replicated_revision failed doc.revision doc.schema_version bytes
                (canonical wire doc).1
                at
                now
                t) [
                  | none ↦ (record_error "failed to store replicated revision" st, t)
                  | some new ↦ (
                    record { revision = doc.revision; fetched_at = some now; last_error = "" },
                    new,
                  )
                ])
      stored failed bytes doc at a =
          elim (Option-cases (
            store_replicated_revision failed doc.revision doc.schema_version bytes
              (canonical wire doc).1 at now t)) [
                | inl missing ↦ rw missing (inl refl)
                | inr (new, e) ↦ rw e (
                    inr (record {
                      doc = doc;
                      bytes = bytes;
                      at = at;
                      accepted = a;
                      reported = refl;
                      stored =
                          store_replicated_revision-failed failed doc.revision doc.schema_version
                            bytes (canonical wire doc).1 at now t new e;
                    }))
              ]

Parsed-cases :
    (p : Parsed)
    → ((found : List Problem) × (p ≡ problems found)) ⊎ ((doc : Document) × (p ≡ document doc))
Parsed-cases (problems found) = inl (found, refl)
Parsed-cases (document doc) = inr (doc, refl)

answer_200-Sound :
    (wire : Wire) (failed : Bool) (now code : ℕ) (body : Option String) (etag : String) (st : State)
    (t : Table)
    → nat_beq code 200 ≡ true
    → Sound wire st t (answer code body etag) now (elim body [
      | none ↦ (record_error "body" st, t)
      | some bytes ↦ elim (parse_bytes wire bytes) [
        | problems found ↦ (record_error "upstream document failed validation" st, t)
        | document doc ↦ store_document wire failed now bytes (normalize_etag etag) doc (st, t)
      ]
    ])
answer_200-Sound wire failed now code none etag st t e = inl refl
answer_200-Sound wire failed now code (some bytes) etag st t e =
    let is_200 : code ≡ 200 = ground arith in
    elim (Parsed-cases (parse_bytes wire bytes)) [
      | inl (found, p) ↦ rw p (inl refl)
      | inr (doc, p) ↦ rw p (
          store_document-Sound wire st t (answer code (some bytes) etag) now failed bytes etag doc
            (rw is_200 refl) p)
    ]

-- A round leaves the table of a mirror as it was, or the upstream answered 200 with a body that is
-- read as a document that Parse finds no problem in, with no tag or the tag of that document; then
-- the new table is what storing that body under the document's revision and its canonical tag gives,
-- and the mirror reports that revision.
pub sync_once-Accepted :
    (wire : Wire) (unreadable failed : Bool) (now : ℕ) (up : Upstream) (st : State) (t : Table)
    → ((sync_once wire unreadable failed now up (st, t)).1 ≡ t)
      ⊎ Replicated wire up now t
          (sync_once wire unreadable failed now up (st, t)).1
          (sync_once wire unreadable failed now up (st, t)).0.revision
unfolding sync_once
sync_once-Accepted wire unreadable failed now (no_reply message) st t = inl refl
sync_once-Accepted wire true failed now (answer code body etag) st t = inl refl
sync_once-Accepted wire false failed now (answer code body etag) st t =
    elim (Bool-cases (nat_beq code 304 || nat_beq code 204)) [
      | inl same ↦ rw same (inl refl)
      | inr changed ↦ rw changed (elim (Bool-cases (nat_beq code 200)) [
        | inr other ↦ rw other (inl refl)
        | inl ok ↦ rw ok (answer_200-Sound wire failed now code body etag st t ok)
      ])
    ]
