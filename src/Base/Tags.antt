-- ===== src/Base/Tags.antt =====
-- Entity tags as headers carry them, with quotes and the mark of a weak validator.
use Prim.Native.Char.{code}
use Prim.Native.String.{String, ◌++◌}
use Prim.Native.String.append
use emly_go_api.Base.{
  ℕ, Bool, true, false, ◌&&◌, List, [], ◌∷◌, nat_beq, if◌then◌else◌, ◌≡◌, refl, sym, ◌∙◌, arith, ap,
  ◌==◌, string_eq,
}
use emly_go_api.Base.Text.{
  trim_space, trim_left, trim_right, trim_prefix, strip, is_empty, is_space, contains_byte,
}

-- strings.Trim(s, `"`), from the left and from the right.
unfoldable pub trim_quotes_left : String → String
trim_quotes_left String.[] = ""
trim_quotes_left (String.◌∷◌ c s) =
    let rest = trim_quotes_left s in if nat_beq (code c) b'"' then rest else String.◌∷◌ c s

unfoldable pub trim_quotes_right : String → String
trim_quotes_right String.[] = ""
trim_quotes_right (String.◌∷◌ c s) =
    let rest = trim_quotes_right s in
    if nat_beq (code c) b'"' && is_empty rest then "" else String.◌∷◌ c rest

-- A tag without its decoration: normalizeETag, and the body of the loop of ifNoneMatchHits.
unfoldable pub normalize_etag : String → String
unfolding trim_prefix trim_space trim_quotes_left trim_quotes_right
normalize_etag header = trim_quotes_right (trim_quotes_left (trim_prefix (trim_space header) "W/"))

-- strings.Split(s, sep) by one byte
unfoldable pub split_on : ℕ → String → List String
split_on b String.[] = "" ∷ []
split_on b (String.◌∷◌ c s) = elim (split_on b s) [
  | [] ↦ []
  | part ∷ parts ↦ if nat_beq (code c) b then "" ∷ part ∷ parts else String.◌∷◌ c part ∷ parts
]

-- `"` + etag + `"`
abbrev pub quoted : String → String
quoted etag = String.◌∷◌ "\"" (etag ++ "\"")

split_on-absent : (b : ℕ) (s : String) → contains_byte b s ≡ false → split_on b s ≡ s ∷ []
unfolding split_on contains_byte
split_on-absent b String.[] h = refl
split_on-absent b (String.◌∷◌ c s) h =
    let other : nat_beq (code c) b ≡ false = ground arith in
    rw (split_on-absent b s (ground arith), other) refl

contains_byte-closed :
    (b : ℕ) (s : String)
    → contains_byte b s ≡ false
    → nat_beq b'"' b ≡ false
    → contains_byte b (s ++ "\"") ≡ false
unfolding contains_byte
contains_byte-closed b String.[] h e = rw e refl
contains_byte-closed b (String.◌∷◌ c s) h e =
    rw (append.cons c s "\"") (ground (arith, contains_byte-closed b s))

is_empty-closed : (s : String) → is_empty (s ++ "\"") ≡ false
is_empty-closed String.[] = refl
is_empty-closed (String.◌∷◌ c s) = rw (append.cons c s "\"") refl

-- The closing quote is no space, and the only one that is trimmed.
trim_right-closed : (s : String) → trim_right (s ++ "\"") ≡ s ++ "\""
unfolding trim_right
trim_right-closed String.[] = rw (append.nil "\"") refl
trim_right-closed (String.◌∷◌ c s) =
    rw (append.cons c s "\"")
      (closed (is_space (code c)) (trim_right (s ++ "\"")) (trim_right-closed s))
  where
    closed :
        (space : Bool) (rest : String)
        → rest ≡ s ++ "\""
        → (if space && is_empty rest then "" else String.◌∷◌ c rest) ≡ String.◌∷◌ c (s ++ "\"")
    closed space rest e = rw (e, is_empty-closed s) (and_false space)
      where
        and_false :
            (space : Bool)
            → (if space && false then "" else String.◌∷◌ c (s ++ "\"")) ≡ String.◌∷◌ c (s ++ "\"")
        and_false true = refl
        and_false false = refl

trim_quotes_right-closed :
    (s : String) → contains_byte b'"' s ≡ false → trim_quotes_right (s ++ "\"") ≡ s
unfolding trim_quotes_right contains_byte
trim_quotes_right-closed String.[] h = refl
trim_quotes_right-closed (String.◌∷◌ c s) h =
    let other : nat_beq (code c) b'"' ≡ false = ground arith in
    rw (append.cons c s "\"", trim_quotes_right-closed s (ground arith), other) refl

trim_space-quoted : (etag : String) → trim_space (quoted etag) ≡ quoted etag
unfolding trim_space trim_left
trim_space-quoted etag =
    let opened : trim_right (quoted etag) ≡ quoted etag =
      ap trim_right (sym (append.cons "\"" etag "\""))
      ∙ (trim_right-closed (String.◌∷◌ "\"" etag) ∙ append.cons "\"" etag "\"") in
    opened

trim_prefix-quoted : (etag : String) → trim_prefix (quoted etag) "W/" ≡ quoted etag
unfolding trim_prefix strip
trim_prefix-quoted etag = refl

trim_quotes_left-quoted :
    (etag : String)
    → contains_byte b'"' etag ≡ false
    → (etag == "") ≡ false
    → trim_quotes_left (quoted etag) ≡ etag ++ "\""
unfolding trim_quotes_left contains_byte
trim_quotes_left-quoted String.[] h e = cc e
trim_quotes_left-quoted (String.◌∷◌ c s) h e =
    let other : nat_beq (code c) b'"' ≡ false = ground arith in
    ap trim_quotes_left (append.cons c s "\"") ∙ (rw other refl ∙ sym (append.cons c s "\""))

-- A tag that is sent back as it was given is read as itself.
pub normalize_etag-quoted :
    (etag : String)
    → contains_byte b'"' etag ≡ false
    → (etag == "") ≡ false
    → normalize_etag (quoted etag) ≡ etag
unfolding normalize_etag
normalize_etag-quoted etag h e =
    ap (λ t. trim_quotes_right (trim_quotes_left (trim_prefix t "W/"))) (trim_space-quoted etag)
    ∙ (ap (λ t. trim_quotes_right (trim_quotes_left t)) (trim_prefix-quoted etag)
        ∙ (ap trim_quotes_right (trim_quotes_left-quoted etag h e)
            ∙ trim_quotes_right-closed etag h))

pub split_on-quoted :
    (etag : String)
    → contains_byte b',' etag ≡ false
    → split_on b',' (quoted etag) ≡ quoted etag ∷ []
unfolding contains_byte
split_on-quoted etag h = split_on-absent b',' (quoted etag) (contains_byte-closed b',' etag h refl)
