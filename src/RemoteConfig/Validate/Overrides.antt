-- ===== src/RemoteConfig/Validate/Overrides.antt =====
-- internal/remoteconfig/parse.go: the overrides, their shape and the dry run of their patches.
use emly_go_api.Base.{
  Bool, true, false, ◌&&◌, ◌||◌, not, Option, none, some, List, [], ◌∷◌, ◌++◌, String, ◌==◌,
  string_eq, if◌then◌else◌, ℕ, suc, ltb, ◌+◌, nat_beq,
}
use emly_go_api.Base.Int.{pos}
use emly_go_api.Base.Text.{before_byte, after_byte, trim_prefix}
use emly_go_api.RemoteConfig.Json.{end, field}
use emly_go_api.RemoteConfig.Document.{
  Problem, problemf, Selector, Override, PatchDoc, Document, allowed_patch_keys,
}
use emly_go_api.RemoteConfig.MergePatch.Apply.{Codec, apply_patch_to_document}
use emly_go_api.RemoteConfig.Validate.Sections.{
  Lib, when, validate_gate_until, validate_control, validate_updater, validate_logging,
}
use emly_go_api.RemoteConfig.Validate.References.{◌+s◌, has_server, validate_subnets}

-- `if len(list) > 0 { nonEmptyLists++ }`
abbrev pub one_if_given : List String → ℕ
one_if_given [] = 0
one_if_given (x ∷ xs) = 1

abbrev pub non_empty_lists : Selector → ℕ
non_empty_lists sel =
    one_if_given sel.hwids
    + one_if_given sel.hostnames
    + one_if_given sel.dcs
    + one_if_given sel.domains
    + one_if_given sel.subnets

-- The part of validateSelector from `if sel.All != nil` on.
abbrev pub validate_all : String → Option Bool → ℕ → Bool → List Problem
validate_all path (some all) lists allow_all =
    if not allow_all
    then problemf (path +s "/all") "\"all\" is not allowed here" ∷ []
    else when (not all) (path +s "/all") "must be true if present"
      ++ when (ltb 0 lists) path "\"all\" must be the only key"
validate_all path none lists allow_all =
    when (nat_beq lists 0) path "must be either {\"all\": true} or have at least one non-empty list"

abbrev pub mem : String → List String → Bool
mem s [] = false
mem s (x ∷ xs) = s == x || mem s xs

-- The loop over the keys of a patch.
unfoldable pub validate_patch_keys : String → PatchDoc → List Problem
validate_patch_keys path end = []
validate_patch_keys path (field key v rest) =
    when (not (allowed_patch_keys key)) (path +s "/patch/" +s key)
      "patch may only touch control, updater, logging, defaultServer"
    ++ validate_patch_keys path rest

-- sectionOf: `strings.SplitN(path, "/", 3)` has a second part where there is a slash.
unfoldable pub section_of : String → String
unfolding before_byte after_byte
section_of path = elim (after_byte b'/' path) [
  | none ↦ ""
  | some rest ↦ "/" +s before_byte b'/' rest
]

unfoldable pub reprefix : String → List Problem → List Problem
unfolding section_of trim_prefix
reprefix prefix [] = []
reprefix prefix (p ∷ ps) =
    problemf (prefix +s trim_prefix p.path (section_of p.path)) p.message ∷ reprefix prefix ps

module _ (lib : Lib) where
  unfoldable pub validate_selector : String → Selector → Bool → List Problem
  validate_selector path sel allow_all =
      validate_subnets lib (path +s "/subnets") sel.subnets
      ++ validate_all path sel.all (non_empty_lists sel) allow_all

  abbrev pub validate_except : String → Option Selector → List Problem
  validate_except path none = []
  validate_except path (some sel) = validate_selector path sel false

  -- The checks of `ov.ID`; `seen` holds the ids before it.
  abbrev pub validate_id : String → List String → String → List Problem
  validate_id path seen id =
      if id == ""
      then problemf (path +s "/id") "is required" ∷ []
      else when (mem id seen) (path +s "/id") "duplicate override id"

  abbrev pub add_seen : List String → String → List String
  add_seen seen id = if id == "" then seen else (if mem id seen then seen else id ∷ seen)

  -- The loop of validateOverridesShape, from the index i.
  unfoldable pub validate_shapes : ℕ → List String → List Override → List Problem
  unfolding validate_selector validate_patch_keys
  validate_shapes i seen [] = []
  validate_shapes i seen (ov ∷ rest) =
      let path = "/overrides/" +s lib.itoa (pos i) in
      validate_id path seen ov.id
      ++ (validate_selector (path +s "/match") ov.match true
          ++ (validate_except (path +s "/except") ov.except
              ++ (validate_gate_until lib (path +s "/until") ov.until
                  ++ (validate_patch_keys path ov.patch
                      ++ validate_shapes (suc i) (add_seen seen ov.id) rest))))

  unfoldable pub validate_overrides_shape : Document → List Problem
  unfolding validate_shapes
  validate_overrides_shape doc = validate_shapes 0 [] doc.overrides

  -- What the dry run says of one patched document.
  unfoldable pub validate_patched : Document → String → Document → List Problem
  unfolding reprefix
  validate_patched doc path patched =
      when
        (not (patched.default_server == "") && not (has_server doc.servers patched.default_server))
        (path +s "/defaultServer") "references unknown server"
      ++ (reprefix (path +s "/control") (validate_control lib patched.control)
          ++ (reprefix (path +s "/updater") (validate_updater patched.updater)
              ++ reprefix (path +s "/logging") (validate_logging patched.logging)))

  -- The loop of dryRunOverrides, from the index i. Every patch is applied to the document itself.
  unfoldable pub dry_runs : Codec → Document → ℕ → List Override → List Problem
  unfolding validate_patched
  dry_runs codec doc i [] = []
  dry_runs codec doc i (ov ∷ rest) =
      let path = "/overrides/" +s (lib.itoa (pos i) +s "/patch") in
      (elim (apply_patch_to_document codec doc ov.patch) [
        | none ↦ problemf path "failed to apply" ∷ []
        | some patched ↦ validate_patched doc path patched
      ])
      ++ dry_runs codec doc (suc i) rest

  unfoldable pub dry_run_overrides : Codec → Document → List Problem
  unfolding dry_runs
  dry_run_overrides codec doc = dry_runs codec doc 0 doc.overrides
