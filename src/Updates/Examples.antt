-- ===== src/Updates/Examples.antt =====
-- Releases, updater releases and requests on which the theorems of the parts are applied.
use mathlib.Core.List.{Permᴰ}
use emly_go_api.Base.{
  ℕ, Bool, true, false, none, some, List, [], ◌∷◌, String, ◌==◌, string_eq, ==-refl, ◌≡◌, ◌≢◌, refl,
  sym, ◌∙◌, arith, empty, update, All,
}
use emly_go_api.Base.Text.{trim_space}
use emly_go_api.Base.Dict.{get}
use emly_go_api.Base.Sql.{Database}
use emly_go_api.Updates.{Release, Env, Faults, removed, Store, s3_key}
use emly_go_api.Updates.Rows
use emly_go_api.DbValue.{null_string}
use emly_go_api.Updates.Filename.{updater_installer_filename, IsBare}
use emly_go_api.Updates.Filename
use emly_go_api.Updates.Filename.Separators.{updater_installer_filename-IsBare}
use emly_go_api.Updates.Releases
use emly_go_api.Updates.Releases.Exclusive.{IsExclusive}
use emly_go_api.Updates.Releases.Invariant.{handle-IsExclusive}
use emly_go_api.Updates.Manifest.{build_manifest}
use emly_go_api.Updates.Manifest.Offers.{offer_of, offer, build_manifest-offer}
use emly_go_api.Updates.Manifest.Promotion.{handle-promotes}
use emly_go_api.Updates.Manifest.Checksums.{build_manifest-checksums}
use emly_go_api.Updates.UpdaterRows
use emly_go_api.Updates.UpdaterRows.{UpdaterRelease, get_updater_manifest}
use emly_go_api.Updates.Updaters
use emly_go_api.Updates.Updaters.Current.{IsSingle, handle-IsSingle}
use emly_go_api.Updates.Updaters.Switch.{patch-kills}
use emly_go_api.Updates.Updaters.Served.{IsServed, create_updater_release-IsServed}

pub exact_sym : (v w : String) → (v == w) ≡ true → (w == v) ≡ true
exact_sym v w e = (string_eq.same_iff w v).1 (sym ((string_eq.same_iff v w).0 e))

pub exact_trans : (u v w : String) → (u == v) ≡ true → (v == w) ≡ true → (u == w) ≡ true
exact_trans u v w e f =
    (string_eq.same_iff u w).1 ((string_eq.same_iff u v).0 e ∙ (string_eq.same_iff v w).0 f)

differ : (v w : String) → (v == w) ≡ false → v ≢ w
differ v w e same = cc ((string_eq.same_iff v w).1 same, e)

-- A collation that tells all texts apart.
abbrev pub exact : Database
exact = record {
  same = λ v w. v == w;
  same_refl = ==-refl;
  same_sym = exact_sym;
  same_trans = exact_trans;
  client_found_rows = false;
}

-- A checksum that is the text itself, so that it can be read.
abbrev env : Env
env = record { parse_time = λ s. some 5; now = 9; sha256_hex = λ s. s }

abbrev quiet : Faults
quiet = record {
  upload = false;
  remove_file = removed;
  select = false;
  begin_tx = false;
  clear = false;
  write = false;
  commit = false;
  reload = false;
}

abbrev release_of : String → Bool → Bool → Release
release_of version is_stable is_beta = record {
  version = version;
  is_stable = is_stable;
  is_beta = is_beta;
  download_filename = "emly.exe";
  sha256_checksum = "ab";
  short_note = "";
  severity_type = "none";
  description_en = none;
  description_it = none;
  is_critical = false;
  critical_version = none;
  min_required_version = none;
  released_at = 3;
}

abbrev rows : List Release
rows = release_of "1.0" true false ∷ release_of "1.1" false true ∷ []

abbrev store : Store Release
store = record { rows = rows; files = empty }

abbrev rows-exclusive : IsExclusive exact rows
rows-exclusive = ((refl, (refl, tt)), omega arith, omega arith, omega arith)

-- 1.1 becomes the stable release too.
abbrev promote : Releases.Request
promote = Releases.patch_channels "1.1" (some (record { is_stable = some true; is_beta = none }))

abbrev promoted : List Release
promoted = release_of "1.0" false false ∷ release_of "1.1" true true ∷ []

handle-IsExclusive_example :
    IsExclusive exact (Releases.handle env exact quiet (some "apps") promote store).1.rows
handle-IsExclusive_example =
    handle-IsExclusive env exact quiet (some "apps") promote store rows-exclusive

handle-promotes_example : (build_manifest promoted "http://h").stable_version ≡ "1.1"
unfolding Releases.patch_release_channels Releases.update_tx Rows.clear_stable_flag
handle-promotes_example =
    handle-promotes env exact quiet (some "apps") promote store "http://h" "1.1" true promoted
      rows-exclusive refl (Permᴰ.cons refl (Permᴰ.cons refl Permᴰ.nil))

build_manifest-offer_example :
    offer_of (build_manifest rows "http://h")
    ≡ offer "http://h"
        (some (release_of "1.0" true false))
        (some (release_of "1.1" false true))
        none
build_manifest-offer_example =
    build_manifest-offer "http://h" rows (omega arith) (omega arith) (omega arith)

build_manifest-checksums_example :
    All
      (λ r.
        get r.version (build_manifest rows "http://h").sha256_checksums
        ≡ null_string r.sha256_checksum)
      rows
build_manifest-checksums_example = build_manifest-checksums exact "http://h" rows (refl, (refl, tt))

updater_installer_filename-IsBare_example :
    IsBare (updater_installer_filename "C:\\tmp\\a.exe" "1.5.0")
unfolding Filename.matches_numbers
updater_installer_filename-IsBare_example =
    updater_installer_filename-IsBare "C:\\tmp\\a.exe" "1.5.0" refl

abbrev updater_of : String → Bool → String → String → UpdaterRelease
updater_of version is_current filename checksum = record {
  version = version;
  is_current = is_current;
  download_filename = filename;
  sha256_checksum = checksum;
  file_size = 2;
  notes_it = none;
  notes_en = none;
  published_at = 3;
}

abbrev updaters : Store UpdaterRelease
updaters = record {
  rows = updater_of "1.5.0" true "a.exe" "ab" ∷ [];
  files = update "up/a.exe" "ab" empty;
}

abbrev updaters-single : IsSingle exact updaters.rows
updaters-single = ((refl, tt), omega arith)

abbrev size : String → ℕ
size s = 2

abbrev stop : UpdaterRows.PatchRequest
stop = record { is_current = some false; notes_it = none; notes_en = none; published_at = none }

handle-IsSingle_example :
    IsSingle exact
      (Updaters.handle env size exact quiet
        (some "up")
        (Updaters.patch "1.5.0" (some stop))
        updaters).1.rows
handle-IsSingle_example =
    handle-IsSingle env size exact quiet (some "up") (Updaters.patch "1.5.0" (some stop)) updaters
      updaters-single

patch-kills_example :
    (get_updater_manifest
      (λ t. "")
      "http://h"
      (Updaters.patch_updater_release env size exact quiet "1.5.0"
        (some stop)
        updaters).1.rows).version
    ≡ ""
unfolding Updaters.patch_updater_release Updaters.patch_request Updaters.patch_tx
patch-kills_example =
    patch-kills env size exact quiet "1.5.0" stop updaters (updater_of "1.5.0" true "a.exe" "ab")
      (updater_of "1.5.0" false "a.exe" "ab") (λ t. "") "http://h" updaters-single refl refl refl
      refl

abbrev form_of : String → String → UpdaterRows.Form
form_of version filename = record {
  version = version;
  is_current = "true";
  notes_it = "";
  notes_en = "";
  published_at = "";
  file = some (record { filename = filename; content = some "cd" });
}

create_updater_release-IsServed_example :
    IsServed env "up"
      (Updaters.create_updater_release env size exact quiet
        (some "up")
        (some (form_of "1.6.0" "b.exe"))
        updaters).1
unfolding Filename.updater_installer_filename Filename.path_base Filename.last_element
    Filename.trim_slashes Filename.slashed trim_space
create_updater_release-IsServed_example =
    create_updater_release-IsServed env size exact quiet "up" (form_of "1.6.0" "b.exe")
      (record { filename = "b.exe"; content = some "cd" }) updaters refl
      (differ (s3_key "up" "b.exe") (s3_key "up" "a.exe") refl, tt) (("ab", refl, refl), tt)

-- A form for a version that exists is refused, but its file has replaced the stored one.
abbrev posted_twice : Updaters.Response × Store UpdaterRelease
posted_twice =
    Updaters.create_updater_release env size exact quiet (some "up")
      (some (form_of "1.5.0" "a.exe")) updaters

posted_twice_refused : posted_twice.0 ≡ Updaters.error 500 "failed to create updater release"
unfolding Updaters.create_updater_release trim_space Filename.matches_numbers
posted_twice_refused = refl

posted_twice_replaced : posted_twice.1.files "up/a.exe" ≡ some "cd"
unfolding Updaters.create_updater_release trim_space Filename.matches_numbers
    updater_installer_filename
posted_twice_replaced = refl
