-- ===== src/Updates/Manifest.antt =====
-- updates.route.go and internal/models/release.go: the update manifest and the listing.
pub mod Offers
pub mod Promotion
pub mod Checksums
use Prim.Native.String.{◌++◌}
use emly_go_api.Base.{
  Bool, false, true, not, ◌&&◌, ◌||◌, Option, none, some, List, [], ◌∷◌, String, ◌==◌, string_eq,
  if◌then◌else◌,
}
use emly_go_api.Base.Dict.{Dict, put}
use emly_go_api.Base.Sql.{keep_where}
use emly_go_api.Updates.{Release}
use emly_go_api.Updates.Requests.{or_else}

pub record DetailedNote : Type 0 where
  pub severity_type : String
  pub description : Dict String String

pub record UpdateManifest : Type 0 where
  pub stable_version : String
  pub beta_version : String
  pub stable_download : String
  pub beta_download : String
  pub is_critical : Bool
  pub critical_version : String
  pub min_required_version : String
  pub sha256_checksums : Dict String String
  pub release_notes : Dict String String
  pub detailed_release_notes : Option (Dict String DetailedNote)

-- The headers and the connection that requestBaseURL reads.
pub record Origin : Type 0 where
  pub is_tls : Bool
  pub forwarded_proto : String
  pub forwarded_host : String
  pub host : String

abbrev pub request_base_url : Origin → String
request_base_url r =
    (if r.forwarded_proto == "" then (if r.is_tls then "https" else "http") else r.forwarded_proto)
    ++ ("://" ++ (if r.forwarded_host == "" then r.host else r.forwarded_host))

abbrev pub download_url : String → String → String
download_url base version = base ++ ("/v2/updates/releases/" ++ (version ++ "/download"))

abbrev put_some : String → Option String → Dict String String → Dict String String
put_some k none m = m
put_some k (some v) m = put k v m

abbrev pub detailed_note : Release → DetailedNote
detailed_note rel = record {
  severity_type = rel.severity_type;
  description = put_some "it" rel.description_it (put_some "en" rel.description_en []);
}

-- The manifest of the loop, whose map of detailed notes is never nil.
pub record Draft : Type 0 where
  pub manifest : UpdateManifest
  pub open manifest use *
  pub notes : Dict String DetailedNote

-- The body of the loop. Each test writes fields of its own.
abbrev pub add_release : String → Draft → Release → Draft
add_release base m rel = record {
  manifest = record m.manifest {
    sha256_checksums =
        if rel.sha256_checksum == ""
        then m.sha256_checksums
        else put rel.version rel.sha256_checksum m.sha256_checksums;
    release_notes =
        if rel.short_note == ""
        then m.release_notes
        else put rel.version rel.short_note m.release_notes;
    is_critical = if rel.is_critical then true else m.is_critical;
    critical_version =
        if rel.is_critical then or_else rel.critical_version rel.version else m.critical_version;
    stable_version = if rel.is_stable then rel.version else m.stable_version;
    stable_download = if rel.is_stable then download_url base rel.version else m.stable_download;
    min_required_version =
        if rel.is_stable
        then or_else rel.min_required_version m.min_required_version
        else m.min_required_version;
    beta_version = if rel.is_beta then rel.version else m.beta_version;
    beta_download = if rel.is_beta then download_url base rel.version else m.beta_download;
  };
  notes =
      if rel.severity_type == "none" then m.notes else put rel.version (detailed_note rel) m.notes;
}

unfoldable pub add_releases : String → Draft → List Release → Draft
add_releases base m [] = m
add_releases base m (rel ∷ releases) = add_releases base (add_release base m rel) releases

abbrev pub blank : Draft
blank = record {
  manifest = record {
    stable_version = "";
    beta_version = "";
    stable_download = "";
    beta_download = "";
    is_critical = false;
    critical_version = "";
    min_required_version = "";
    sha256_checksums = [];
    release_notes = [];
    detailed_release_notes = none;
  };
  notes = [];
}

-- An empty map of detailed notes becomes nil.
abbrev notes_or_nil : Dict String DetailedNote → Option (Dict String DetailedNote)
notes_or_nil [] = none
notes_or_nil (note ∷ notes) = some (note ∷ notes)

unfoldable pub build_manifest : List Release → String → UpdateManifest
unfolding add_releases
build_manifest releases base =
    let m = add_releases base blank releases in
    record m.manifest { detailed_release_notes = notes_or_nil m.notes }

-- ListReleases: the rows of a channel, or no answer for a channel that is not known.
unfoldable pub list_releases : String → List Release → Option (List Release)
list_releases channel rows =
    if channel == ""
    then some rows
    else if channel == "stable"
    then some (keep_where (λ r. r.is_stable) rows)
    else if channel == "beta"
    then some (keep_where (λ r. r.is_beta) rows)
    else if channel == "archived"
    then some (keep_where (λ r. not r.is_stable && not r.is_beta) rows)
    else none
