-- ===== src/Updates/Requests.antt =====
-- updates.route.go: the requests that write update_releases, and the rows that they ask for.
use emly_go_api.Base.{
  ◌≡◌, ◌⊎◌, inl, inr, true, ℕ, Bool, not, false, ◌||◌, Option, none, some, String, ◌==◌, string_eq,
  if◌then◌else◌, is_some,
}
use emly_go_api.Base.Text.{trim_space}
use emly_go_api.DbValue.{null_string}
use emly_go_api.Updates.{Release, Env, Upload}

abbrev pub valid_severity : String → Bool
valid_severity s = s == "none" || s == "security" || s == "bugfix" || s == "feature"

-- The fields of the multipart form, in which a missing one is empty.
pub record Form : Type 0 where
  pub version : String
  pub is_stable : String
  pub is_beta : String
  pub short_note : String
  pub severity_type : String
  pub description_en : String
  pub description_it : String
  pub is_critical : String
  pub critical_version : String
  pub min_required_version : String
  pub released_at : String
  pub file : Option Upload

abbrev pub form_flag : String → Bool
form_flag s = s == "true" || s == "1"

-- The default is the clock, also for a text that does not parse.
abbrev pub released_or_now : Env → String → ℕ
released_or_now env s =
    if s == "" then env.now else elim (env.parse_time s) [ some t ↦ t | none ↦ env.now ]

abbrev pub default_severity : String → String
default_severity s = if s == "" then "none" else s

abbrev pub new_release : Env → Form → String → String → Release
new_release env form filename bytes = record {
  version = trim_space form.version;
  is_stable = form_flag form.is_stable;
  is_beta = form_flag form.is_beta;
  download_filename = filename;
  sha256_checksum = env.sha256_hex bytes;
  short_note = form.short_note;
  severity_type = default_severity (trim_space form.severity_type);
  description_en = null_string (trim_space form.description_en);
  description_it = null_string (trim_space form.description_it);
  is_critical = form_flag form.is_critical;
  critical_version = null_string (trim_space form.critical_version);
  min_required_version = null_string (trim_space form.min_required_version);
  released_at = released_or_now env (trim_space form.released_at);
}

abbrev pub or_else {ℓ} : {A : Type ℓ} → Option A → A → A
or_else none a = a
or_else (some b) a = b

-- A nullable column that the request sets to a text.
abbrev pub or_else_some {ℓ} : {A : Type ℓ} → Option A → Option A → Option A
or_else_some none a = a
or_else_some (some b) a = some b

abbrev pub claims : Option Bool → Bool
claims o = or_else o false

pub record ChannelsRequest : Type 0 where
  pub is_stable : Option Bool
  pub is_beta : Option Bool

pub record PutRequest : Type 0 where
  pub is_stable : Bool
  pub is_beta : Bool
  pub short_note : String
  pub severity_type : String
  pub description_en : Option String
  pub description_it : Option String
  pub is_critical : Bool
  pub critical_version : Option String
  pub min_required_version : Option String
  pub released_at : String

pub record PatchRequest : Type 0 where
  pub is_stable : Option Bool
  pub is_beta : Option Bool
  pub short_note : Option String
  pub severity_type : Option String
  pub description_en : Option String
  pub description_it : Option String
  pub is_critical : Option Bool
  pub critical_version : Option String
  pub min_required_version : Option String
  pub released_at : Option String

abbrev pub set_channels : ChannelsRequest → Release → Release
set_channels req r = record r {
  is_stable = or_else req.is_stable r.is_stable;
  is_beta = or_else req.is_beta r.is_beta;
}

abbrev pub put_fields : Env → PutRequest → Release → Release
put_fields env req r = record r {
  is_stable = req.is_stable;
  is_beta = req.is_beta;
  short_note = req.short_note;
  severity_type = default_severity req.severity_type;
  description_en = req.description_en;
  description_it = req.description_it;
  is_critical = req.is_critical;
  critical_version = req.critical_version;
  min_required_version = req.min_required_version;
  released_at = released_or_now env req.released_at;
}

-- The set clauses of PatchRelease, where `released_at` is the parsed moment.
abbrev pub patch_fields : PatchRequest → Option ℕ → Release → Release
patch_fields req released_at r = record r {
  is_stable = or_else req.is_stable r.is_stable;
  is_beta = or_else req.is_beta r.is_beta;
  short_note = or_else req.short_note r.short_note;
  severity_type = or_else req.severity_type r.severity_type;
  description_en = or_else_some req.description_en r.description_en;
  description_it = or_else_some req.description_it r.description_it;
  is_critical = or_else req.is_critical r.is_critical;
  critical_version = or_else_some req.critical_version r.critical_version;
  min_required_version = or_else_some req.min_required_version r.min_required_version;
  released_at = or_else released_at r.released_at;
}

-- No set clause.
abbrev pub is_blank : PatchRequest → Bool
is_blank req = not (
    is_some req.is_stable
    || is_some req.is_beta
    || is_some req.short_note
    || is_some req.severity_type
    || is_some req.description_en
    || is_some req.description_it
    || is_some req.is_critical
    || is_some req.critical_version
    || is_some req.min_required_version
    || is_some req.released_at)

-- The moment that PatchRelease reads: none is given, or the one given does not parse.
abbrev pub patched_time : Env → Option String → Option (Option ℕ)
patched_time env none = some none
patched_time env (some text) = elim (env.parse_time text) [ none ↦ none | some t ↦ some (some t) ]

-- An optional flag sets what the request claims, and otherwise leaves what the row has.
pub or_else-claims :
    (o : Option Bool) (old : Bool) → or_else o old ≡ true → (claims o ≡ true) ⊎ (old ≡ true)
or_else-claims none old e = inr e
or_else-claims (some b) old e = inl e
