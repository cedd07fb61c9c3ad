-- ===== src/RemoteConfig/Effective.antt =====
-- internal/remoteconfig/match.go: `Effective`.
pub mod Applied
use emly_go_api.Base.{
  ℕ, Bool, true, false, ◌&&◌, not, Option, none, some, List, [], ◌∷◌, ◌++◌, String, if◌then◌else◌,
}
use emly_go_api.RemoteConfig.Document.{Document, Override, Selector}
use emly_go_api.RemoteConfig.Validate.Sections.{Lib}
use emly_go_api.RemoteConfig.MergePatch.Apply.{Codec, apply_patch_to_document}
use emly_go_api.RemoteConfig.Match.{Host, match, until_expired}

module _ (lib : Lib) (codec : Codec) (h : Host) where
  abbrev pub excepted : Option Selector → Bool
  excepted none = false
  excepted (some sel) = match lib sel h

  -- The first three conditions of the loop of Effective.
  unfoldable pub applies : ℕ → Override → Bool
  applies now ov =
      not (until_expired lib ov.until now) && (match lib ov.match h && not (excepted ov.except))

  -- One round of the loop, on `effective` and `applied`.
  unfoldable pub apply_override : ℕ → Document × List String → Override → Document × List String
  unfolding applies
  apply_override now (effective, applied) ov =
      if applies now ov
      then (elim (apply_patch_to_document codec effective ov.patch) [
        | none ↦ (effective, applied)
        | some patched ↦ (patched, applied ++ ov.id ∷ [])
      ])
      else (effective, applied)

  unfoldable pub apply_overrides :
      ℕ → Document × List String → List Override → Document × List String
  unfolding apply_override
  apply_overrides now st [] = st
  apply_overrides now st (ov ∷ rest) = apply_overrides now (apply_override now st ov) rest

  -- `clock` is time.Now().
  abbrev pub moment : Option ℕ → ℕ → ℕ
  moment none clock = clock
  moment (some now) clock = now

  unfoldable pub effective : Document → ℕ → Document × List String
  unfolding apply_overrides
  effective doc clock = apply_overrides (moment h.now clock) (doc, []) doc.overrides
