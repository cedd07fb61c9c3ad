-- ===== src/RemoteConfig/Validate.antt =====
-- internal/remoteconfig/parse.go: the validators, each the list of what it finds, and `Parse` from
-- the decoded document on. Each loop over a map runs in the order of its list.
pub mod Sections
pub mod References
pub mod Overrides
pub mod Soundness
use emly_go_api.Base.{
  Bool, true, false, List, [], ◌∷◌, ◌++◌, Option, none, some, String, if◌then◌else◌,
}
use emly_go_api.RemoteConfig.Document.{Document, Problem}
use emly_go_api.RemoteConfig.MergePatch.Apply.{Codec}
use Sections.{Lib, validate_control, validate_updater, validate_logging}
use References.{validate_top, validate_servers, validate_ipc_protocol, validate_dc_lookup_map}
use Overrides.{validate_overrides_shape, dry_run_overrides}

-- The problems that Parse collects before the dry run. validateHostIntegrity finds none.
unfoldable pub shape_problems : Lib → Document → List Problem
shape_problems lib doc =
    validate_top lib doc
    ++ (validate_servers lib doc
        ++ (validate_ipc_protocol lib doc.ipc_protocol
            ++ (validate_dc_lookup_map lib doc
                ++ (validate_control lib doc.control
                    ++ (validate_updater doc.updater
                        ++ (validate_logging doc.logging ++ validate_overrides_shape lib doc))))))

abbrev pub is_nil : List Problem → Bool
is_nil [] = true
is_nil (p ∷ ps) = false

-- Parse of a document that json.Unmarshal has decoded.
unfoldable pub parse : Lib → Codec → Document → List Problem
unfolding shape_problems
parse lib codec doc =
    shape_problems lib doc
    ++ (if is_nil (shape_problems lib doc) then dry_run_overrides lib codec doc else [])
