-- ===== src/Base/Text.antt =====
-- What the server uses of Go's `strings` package and of `net.SplitHostPort`, over the code points
-- of a text. Every separator is ASCII, so a search by byte and one by code point agree.
use Prim.Native.Char.{code}
use Prim.Native.String.{String, [], ◌∷◌}
use emly_go_api.Base.{
  ℕ, Bool, true, false, Option, none, some, ◌&&◌, ◌||◌, leb, if◌then◌else◌, nat_beq, ◌≡◌, refl,
  arith, Bool-cases, inl, inr, not,
}

-- strings.IndexByte(s, b) >= 0
unfoldable pub contains_byte : ℕ → String → Bool
contains_byte b [] = false
contains_byte b (c ∷ s) = nat_beq (code c) b || contains_byte b s

-- s[:i] at the first b, and the whole of s where there is none
unfoldable pub before_byte : ℕ → String → String
before_byte b [] = ""
before_byte b (c ∷ s) = let rest = before_byte b s in if nat_beq (code c) b then "" else c ∷ rest

-- s[i+1:] at the first b
unfoldable pub after_byte : ℕ → String → Option String
after_byte b [] = none
after_byte b (c ∷ s) = let rest = after_byte b s in if nat_beq (code c) b then some s else rest

-- s[:i] and s[i+1:] at the last b
unfoldable pub split_last : ℕ → String → Option (String × String)
split_last b [] = none
split_last b (c ∷ s) = elim (split_last b s) [
  | some (host, port) ↦ some (c ∷ host, port)
  | none ↦ if nat_beq (code c) b then some ("", s) else none
]

-- unicode.IsSpace
abbrev pub is_space : ℕ → Bool
is_space c =
    leb 9 c && leb c 13
    || nat_beq c 32
    || nat_beq c 0x85
    || nat_beq c 0xa0
    || nat_beq c 0x1680
    || leb 0x2000 c && leb c 0x200a
    || nat_beq c 0x2028
    || nat_beq c 0x2029
    || nat_beq c 0x202f
    || nat_beq c 0x205f
    || nat_beq c 0x3000

abbrev pub is_empty : String → Bool
is_empty [] = true
is_empty (c ∷ s) = false

unfoldable pub trim_left : String → String
trim_left [] = ""
trim_left (c ∷ s) = let rest = trim_left s in if is_space (code c) then rest else c ∷ s

unfoldable pub trim_right : String → String
trim_right [] = ""
trim_right (c ∷ s) =
    let rest = trim_right s in if is_space (code c) && is_empty rest then "" else c ∷ rest

-- strings.TrimSpace
unfoldable pub trim_space : String → String
unfolding trim_left trim_right
trim_space s = trim_right (trim_left s)

-- The part after the first code point of a text that begins with `[`.
abbrev unbracket : String → Option String
unbracket [] = none
unbracket (c ∷ s) = if nat_beq (code c) b'[' then some s else none

-- The host of `[host]:port`, where `rest` follows the `[`. A `]` or a `[` elsewhere is an error.
bracketed_host : String → Option String
unfolding before_byte after_byte contains_byte split_last
bracketed_host rest = elim (after_byte b']' rest) [
  | none ↦ none
  | some [] ↦ none
  | some (c ∷ port) ↦
      if nat_beq (code c) b':'
        && not (contains_byte b':' port || contains_byte b'[' rest || contains_byte b']' port)
      then some (before_byte b']' rest)
      else none
]

-- The host of `host:port`.
plain_host : String → Option String
unfolding contains_byte split_last
plain_host s = elim (split_last b':' s) [
  | none ↦ none
  | some (host, port) ↦
      if contains_byte b':' host || contains_byte b'[' s || contains_byte b']' s
      then none
      else some host
]

-- net.SplitHostPort with the port left out: `none` is its error.
unfoldable pub split_host_port : String → Option String
unfolding bracketed_host plain_host
split_host_port s = elim (unbracket s) [ some rest ↦ bracketed_host rest | none ↦ plain_host s ]

-- A text without the separator is its own first part.
pub before_byte_absent : (b : ℕ) (s : String) → contains_byte b s ≡ false → before_byte b s ≡ s
unfolding before_byte contains_byte
before_byte_absent b [] h = refl
before_byte_absent b (c ∷ s) h = ground (arith, before_byte_absent b s)

-- The first part does not hold the separator.
pub contains_byte-before_byte : (b : ℕ) (s : String) → contains_byte b (before_byte b s) ≡ false
unfolding before_byte contains_byte
contains_byte-before_byte b [] = refl
contains_byte-before_byte b (c ∷ s) = elim (Bool-cases (nat_beq (code c) b)) [
  | inl here ↦ rw here
  | inr other ↦ rw (other, other) (contains_byte-before_byte b s)
]

-- Every part of a split lies in the text.
pub contains_byte-trim_left :
    (b : ℕ) (s : String) → contains_byte b s ≡ false → contains_byte b (trim_left s) ≡ false
unfolding trim_left contains_byte
contains_byte-trim_left b [] h = refl
contains_byte-trim_left b (c ∷ s) h = ground (arith, contains_byte-trim_left b s)

pub contains_byte-trim_right :
    (b : ℕ) (s : String) → contains_byte b s ≡ false → contains_byte b (trim_right s) ≡ false
unfolding trim_right contains_byte
contains_byte-trim_right b [] h = refl
contains_byte-trim_right b (c ∷ s) h = ground (arith, contains_byte-trim_right b s)

pub contains_byte-trim_space :
    (b : ℕ) (s : String) → contains_byte b s ≡ false → contains_byte b (trim_space s) ≡ false
unfolding trim_space
contains_byte-trim_space b s h =
    contains_byte-trim_right b (trim_left s) (contains_byte-trim_left b s h)

-- Without a colon there is no port to split off.
split_last_absent : (b : ℕ) (s : String) → contains_byte b s ≡ false → split_last b s ≡ none
unfolding split_last contains_byte
split_last_absent b [] h = refl
split_last_absent b (c ∷ s) h =
    let ih : split_last b s ≡ none = split_last_absent b s (ground arith) in rw ih (ground arith)

contains_byte-after_byte :
    (b d : ℕ) (s t : String)
    → after_byte b s ≡ some t
    → contains_byte d s ≡ false
    → contains_byte d t ≡ false
unfolding after_byte contains_byte
contains_byte-after_byte b d [] t e h = cc
contains_byte-after_byte b d (c ∷ s) t e h = elim (Bool-cases (nat_beq (code c) b)) [
  | inl here ↦ let same : some s ≡ some t = rw here at e in ground arith
  | inr other ↦ contains_byte-after_byte b d s t (rw other at e) (ground arith)
]

bracketed_host-no_colon :
    (rest : String) → contains_byte b':' rest ≡ false → bracketed_host rest ≡ none
unfolding bracketed_host
bracketed_host-no_colon rest h = go (after_byte b']' rest) refl
  where
    go : (o : Option String) → after_byte b']' rest ≡ o → bracketed_host rest ≡ none
    go none e = rw (e, bracketed_host)
    go (some []) e = rw (e, bracketed_host)
    go (some (c ∷ port)) e =
        let clean : contains_byte b':' (c ∷ port) ≡ false =
          contains_byte-after_byte b']' b':' rest (c ∷ port) e h in
        let other : nat_beq (code c) b':' ≡ false = unfold contains_byte in ground arith in
        rw (e, bracketed_host, other)

-- A text without a colon is no `host:port`.
pub split_host_port-no_colon :
    (s : String) → contains_byte b':' s ≡ false → split_host_port s ≡ none
unfolding split_host_port
split_host_port-no_colon [] h = refl
split_host_port-no_colon (c ∷ s) h = elim (Bool-cases (nat_beq (code c) b'[')) [
  | inl here ↦
      rw (here, split_host_port) (bracketed_host-no_colon s (unfold contains_byte in ground arith))
  | inr other ↦ rw (other, split_host_port, plain_host, split_last_absent b':' (c ∷ s) h)
]

v4_with_port : split_host_port "10.0.0.7:443" ≡ some "10.0.0.7"
unfolding split_host_port
v4_with_port = refl

v6_with_port : split_host_port "[fe80::1]:443" ≡ some "fe80::1"
unfolding split_host_port
v6_with_port = refl

no_port : split_host_port "10.0.0.7" ≡ none
unfolding split_host_port
no_port = refl

bare_v6 : split_host_port "fe80::1" ≡ none
unfolding split_host_port
bare_v6 = refl

trimmed : trim_space " a b\t" ≡ "a b"
unfolding trim_space
trimmed = refl

-- The text after a prefix.
unfoldable pub strip : String → String → Option String
strip [] s = some s
strip (p ∷ ps) [] = none
strip (p ∷ ps) (c ∷ s) = let rest = strip ps s in if nat_beq (code p) (code c) then rest else none

-- strings.TrimPrefix
unfoldable pub trim_prefix : String → String → String
unfolding strip
trim_prefix s prefix = elim (strip prefix s) [ some rest ↦ rest | none ↦ s ]
