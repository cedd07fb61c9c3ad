-- ===== src/RemoteConfig/MergePatch/Apply.antt =====
-- internal/remoteconfig/mergepatch.go: `applyPatchToDocument`.
-- `encoding/json` turns a section of the document into a tree and back; the package does not
-- contain it, so it is a parameter.
pub mod Untouched
use emly_go_api.Base.{
  Bool, true, false, Option, none, some, List, [], ◌∷◌, String, ◌==◌, string_eq, if◌then◌else◌, ◌≡◌,
}
use emly_go_api.Base.Int.{ℤ}
use emly_go_api.RemoteConfig.Json.{Value, Fields, end, field, find, at, put}
use emly_go_api.RemoteConfig.MergePatch.{merge_patch}
use emly_go_api.RemoteConfig.Document.{
  Document, Refresh, IpcProtocol, Site, HostIntegrity, Control, UpdaterTuning, Logging, ToggleOnly,
  Override, PatchDoc, allowed_patch_keys,
}

-- json.Marshal of one section, read into a tree of interface{}, and json.Unmarshal of such a tree.
-- A section that is absent decodes like the null of JSON.
pub record Section (T : Type 0) : Type 0 where
  pub encode : T → Value
  pub decode : Value → Option T

pub record Codec : Type 0 where
  pub schema_version : Section ℤ
  pub revision : Section ℤ
  pub generated_at : Section String
  pub refresh : Section (Option Refresh)
  pub servers : Section (List (String × String))
  pub default_server : Section String
  pub ipc_protocol : Section (Option IpcProtocol)
  pub dc_lookup_map : Section (List (String × Site))
  pub host_integrity : Section (Option HostIntegrity)
  pub control : Section (Option Control)
  pub updater : Section (Option UpdaterTuning)
  pub logging : Section (Option Logging)
  pub overrides : Section (List Override)
  pub client_ws : Section (Option ToggleOnly)

infixl 5 ◌>>=◌
abbrev pub ◌>>=◌ {ℓ κ} : {A : Type ℓ} {B : Type κ} → Option A → (A → Option B) → Option B
none >>= k = none
some a >>= k = k a

-- Only clientWs is left out when it is nil.
abbrev pub client_ws_field : Codec → Option ToggleOnly → Fields
client_ws_field codec none = end
client_ws_field codec (some t) = field "clientWs" (codec.client_ws.encode (some t)) end

-- The tree of json.Marshal(doc). It is a map, so that the place of clientWs does not matter.
unfoldable pub tree_of : Codec → Document → Fields
tree_of codec doc = field "schemaVersion" (codec.schema_version.encode doc.schema_version) (
    field "revision" (codec.revision.encode doc.revision) (
      field "generatedAt" (codec.generated_at.encode doc.generated_at) (
        field "refresh" (codec.refresh.encode doc.refresh) (
          field "servers" (codec.servers.encode doc.servers) (
            field "defaultServer" (codec.default_server.encode doc.default_server) (
              field "ipcProtocol" (codec.ipc_protocol.encode doc.ipc_protocol) (
                field "dcLookupMap" (codec.dc_lookup_map.encode doc.dc_lookup_map) (
                  field "hostIntegrity" (codec.host_integrity.encode doc.host_integrity) (
                    field "control" (codec.control.encode doc.control) (
                      field "updater" (codec.updater.encode doc.updater) (
                        field "logging" (codec.logging.encode doc.logging) (
                          field "overrides" (codec.overrides.encode doc.overrides)
                            (client_ws_field codec doc.client_ws)))))))))))))

-- json.Unmarshal of the merged tree: every section is read back from it.
unfoldable pub document_of : Codec → Fields → Option Document
document_of codec tree = do
  schema_version ← codec.schema_version.decode (at "schemaVersion" tree)
  revision ← codec.revision.decode (at "revision" tree)
  generated_at ← codec.generated_at.decode (at "generatedAt" tree)
  refresh ← codec.refresh.decode (at "refresh" tree)
  servers ← codec.servers.decode (at "servers" tree)
  default_server ← codec.default_server.decode (at "defaultServer" tree)
  ipc_protocol ← codec.ipc_protocol.decode (at "ipcProtocol" tree)
  dc_lookup_map ← codec.dc_lookup_map.decode (at "dcLookupMap" tree)
  host_integrity ← codec.host_integrity.decode (at "hostIntegrity" tree)
  control ← codec.control.decode (at "control" tree)
  updater ← codec.updater.decode (at "updater" tree)
  logging ← codec.logging.decode (at "logging" tree)
  overrides ← codec.overrides.decode (at "overrides" tree)
  client_ws ← codec.client_ws.decode (at "clientWs" tree)
  some (record {
    schema_version = schema_version;
    revision = revision;
    generated_at = generated_at;
    refresh = refresh;
    servers = servers;
    default_server = default_server;
    ipc_protocol = ipc_protocol;
    dc_lookup_map = dc_lookup_map;
    host_integrity = host_integrity;
    control = control;
    updater = updater;
    logging = logging;
    overrides = overrides;
    client_ws = client_ws;
  })

-- The loop over the patch. A key that is not allowed is passed over.
unfoldable pub patch_tree : Fields → PatchDoc → Fields
unfolding merge_patch
patch_tree tree end = tree
patch_tree tree (field key value patch) =
    patch_tree
      (if allowed_patch_keys key then put key (merge_patch (at key tree) value) tree else tree)
      patch

-- `none` is an error.
unfoldable pub apply_patch_to_document : Codec → Document → PatchDoc → Option Document
unfolding tree_of document_of patch_tree
apply_patch_to_document codec doc end = some doc
apply_patch_to_document codec doc (field key value patch) =
    document_of codec (patch_tree (tree_of codec doc) (field key value patch))
