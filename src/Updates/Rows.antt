-- ===== src/Updates/Rows.antt =====
-- updates.route.go: the statements of update_releases that clear a flag.
use emly_go_api.Base.{
  Bool, true, false, not, ◌&&◌, Option, none, some, List, String, ◌==◌, string_eq, nat_beq,
}
use emly_go_api.Base.Sql.{Database, update_where}
use emly_go_api.Updates.{Release}

abbrev pub same_option : Option String → Option String → Bool
same_option none none = true
same_option (some s) (some t) = s == t
same_option none (some t) = false
same_option (some s) none = false

abbrev pub same_bool : Bool → Bool → Bool
same_bool true b = b
same_bool false b = not b

-- Whether MySQL sees no change between two contents of a row.
abbrev pub equal : Release → Release → Bool
equal r s =
    r.version == s.version
    && same_bool r.is_stable s.is_stable
    && same_bool r.is_beta s.is_beta
    && r.download_filename == s.download_filename
    && r.sha256_checksum == s.sha256_checksum
    && r.short_note == s.short_note
    && r.severity_type == s.severity_type
    && same_option r.description_en s.description_en
    && same_option r.description_it s.description_it
    && same_bool r.is_critical s.is_critical
    && same_option r.critical_version s.critical_version
    && same_option r.min_required_version s.min_required_version
    && nat_beq r.released_at s.released_at

-- `version = ?`
abbrev pub is_version : Database → String → Release → Bool
is_version db v r = db.same v r.version

module _ (db : Database) where
  unfoldable pub clear_stable_flag : String → List Release → List Release
  clear_stable_flag v =
      update_where (λ r. r.is_stable && not (is_version db v r))
        (λ r. record r { is_stable = false })

  unfoldable pub clear_beta_flag : String → List Release → List Release
  clear_beta_flag v =
      update_where (λ r. r.is_beta && not (is_version db v r)) (λ r. record r { is_beta = false })

  unfoldable pub clear_critical_flag : String → List Release → List Release
  clear_critical_flag v =
      update_where (λ r. r.is_critical && not (is_version db v r))
        (λ r. record r { is_critical = false; critical_version = none })

  -- The same statement in CreateRelease, which has no `version != ?`.
  unfoldable pub clear_all_critical : List Release → List Release
  clear_all_critical =
      update_where (λ r. r.is_critical)
        (λ r. record r { is_critical = false; critical_version = none })
