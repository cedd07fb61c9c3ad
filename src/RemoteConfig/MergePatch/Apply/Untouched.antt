-- ===== src/RemoteConfig/MergePatch/Apply/Untouched.antt =====
-- What a patch leaves alone.
use emly_go_api.Base.{
  true, false, Option, none, some, String, ◌==◌, string_eq, ◌≡◌, refl, sym, ◌∙◌, ap, arith,
  Bool-cases, inl, inr,
}
use text.Mathlib.TextEquality.{eq_iff}
use emly_go_api.RemoteConfig.Json.{Fields, end, field, at, put, Value}
use emly_go_api.RemoteConfig.Document.{Document, PatchDoc, allowed_patch_keys}
use emly_go_api.RemoteConfig.MergePatch.{merge_patch, find-put}
use emly_go_api.RemoteConfig.MergePatch.Apply.{
  Codec, ◌>>=◌, apply_patch_to_document, document_of, tree_of, patch_tree,
}

at-put : (k j : String) (v : Value) (fs : Fields) → (k == j) ≡ false → at j (put k v fs) ≡ at j fs
at-put k j v fs differ = ground (arith, find-put k j v fs)

-- The patch writes no key that is not allowed.
at-patch_tree :
    (j : String) (tree : Fields) (patch : PatchDoc)
    → allowed_patch_keys j ≡ false
    → at j (patch_tree tree patch) ≡ at j tree
unfolding patch_tree
at-patch_tree j tree end h = refl
at-patch_tree j tree (field key value patch) h = elim (Bool-cases (allowed_patch_keys key)) [
  | inl allowed ↦
      let differ : (key == j) ≡ false = elim (Bool-cases (key == j)) [
        | inl same ↦
            let moved : allowed_patch_keys j ≡ true = rw (← (eq_iff key j).0 same) allowed in cc
        | inr other ↦ other
      ] in
      rw allowed (
        at-patch_tree j (put key (merge_patch (at key tree) value) tree) patch h
        ∙ at-put key j (merge_patch (at key tree) value) tree differ)
  | inr refused ↦ rw refused (at-patch_tree j tree patch h)
]

bound {ℓ κ} :
    {A : Type ℓ} {B : Type κ} (o : Option A) (k : A → Option B) (b : B)
    → (o >>= k) ≡ some b
    → (a : A) × (o ≡ some a) × (k a ≡ some b)
bound none k b e = cc
bound (some a) k b e = (a, refl, e)

-- json.Unmarshal of json.Marshal gives the servers, the site map and the overrides of the document
-- back.
pub record ReadsBack (codec : Codec) (doc : Document) : Type 0 where
  pub servers : codec.servers.decode (codec.servers.encode doc.servers) ≡ some doc.servers
  pub sites :
      codec.dc_lookup_map.decode (codec.dc_lookup_map.encode doc.dc_lookup_map)
      ≡ some doc.dc_lookup_map
  pub overrides : codec.overrides.decode (codec.overrides.encode doc.overrides) ≡ some doc.overrides

some-injective {ℓ} : {A : Type ℓ} {x y : A} → some x ≡ some y → x ≡ y
some-injective e = cc

document_of-sections :
    (codec : Codec) (tree : Fields) (out : Document)
    → document_of codec tree ≡ some out
    → (codec.servers.decode (at "servers" tree) ≡ some out.servers)
      × (codec.dc_lookup_map.decode (at "dcLookupMap" tree) ≡ some out.dc_lookup_map)
      × (codec.overrides.decode (at "overrides" tree) ≡ some out.overrides)
unfolding document_of
document_of-sections codec tree out e₀ =
    let (schema_version, a, e₁) =
      bound (codec.schema_version.decode (at "schemaVersion" tree)) _ out e₀ in
    let (revision, b, e₂) = bound (codec.revision.decode (at "revision" tree)) _ out e₁ in
    let (generated_at, c, e₃) =
      bound (codec.generated_at.decode (at "generatedAt" tree)) _ out e₂ in
    let (refresh, d, e₄) = bound (codec.refresh.decode (at "refresh" tree)) _ out e₃ in
    let (servers, read_servers, e₅) = bound (codec.servers.decode (at "servers" tree)) _ out e₄ in
    let (default_server, f, e₆) =
      bound (codec.default_server.decode (at "defaultServer" tree)) _ out e₅ in
    let (ipc_protocol, g, e₇) =
      bound (codec.ipc_protocol.decode (at "ipcProtocol" tree)) _ out e₆ in
    let (dc_lookup_map, read_sites, e₈) =
      bound (codec.dc_lookup_map.decode (at "dcLookupMap" tree)) _ out e₇ in
    let (host_integrity, i, e₉) =
      bound (codec.host_integrity.decode (at "hostIntegrity" tree)) _ out e₈ in
    let (control, j, e₁₀) = bound (codec.control.decode (at "control" tree)) _ out e₉ in
    let (updater, k, e₁₁) = bound (codec.updater.decode (at "updater" tree)) _ out e₁₀ in
    let (logging, l, e₁₂) = bound (codec.logging.decode (at "logging" tree)) _ out e₁₁ in
    let (overrides, read_overrides, e₁₃) =
      bound (codec.overrides.decode (at "overrides" tree)) _ out e₁₂ in
    let (client_ws, n, e₁₄) = bound (codec.client_ws.decode (at "clientWs" tree)) _ out e₁₃ in
    (
      rw (← some-injective e₁₄) read_servers,
      rw (← some-injective e₁₄) read_sites,
      rw (← some-injective e₁₄) read_overrides,
    )

same_section {ℓ} :
    {A : Type ℓ} (decode : Value → Option A) (found sent : Value) (x y : A)
    → decode found ≡ some x
    → found ≡ sent
    → decode sent ≡ some y
    → x ≡ y
same_section decode found sent x y e moved back = some-injective (sym e ∙ ap decode moved ∙ back)

-- Whatever the patch says, the servers, the site map and the overrides of the patched document are
-- those of the document, if json.Marshal and json.Unmarshal give them back.
pub apply_patch-kept :
    (codec : Codec) (doc out : Document) (patch : PatchDoc)
    → ReadsBack codec doc
    → apply_patch_to_document codec doc patch ≡ some out
    → (out.servers ≡ doc.servers)
      × (out.dc_lookup_map ≡ doc.dc_lookup_map)
      × (out.overrides ≡ doc.overrides)
unfolding apply_patch_to_document tree_of
apply_patch-kept codec doc out end back e = ground arith
apply_patch-kept codec doc out (field key value patch) back e =
    let tree = tree_of codec doc in
    let merged = patch_tree tree (field key value patch) in
    let (servers, sites, overrides) = document_of-sections codec merged out e in
    (
      same_section codec.servers.decode (at "servers" merged) (codec.servers.encode doc.servers)
          out.servers doc.servers servers
          (at-patch_tree "servers" tree (field key value patch) refl) back.servers,
      same_section codec.dc_lookup_map.decode (at "dcLookupMap" merged)
          (codec.dc_lookup_map.encode doc.dc_lookup_map) out.dc_lookup_map doc.dc_lookup_map sites
          (at-patch_tree "dcLookupMap" tree (field key value patch) refl) back.sites,
      same_section codec.overrides.decode (at "overrides" merged)
          (codec.overrides.encode doc.overrides) out.overrides doc.overrides overrides
          (at-patch_tree "overrides" tree (field key value patch) refl) back.overrides,
    )

pub ReadsBack-kept :
    (codec : Codec) (doc out : Document)
    → (out.servers ≡ doc.servers)
      × (out.dc_lookup_map ≡ doc.dc_lookup_map)
      × (out.overrides ≡ doc.overrides)
    → ReadsBack codec doc
    → ReadsBack codec out
ReadsBack-kept codec doc out (servers, sites, overrides) back = record {
  servers = rw servers back.servers;
  sites = rw sites back.sites;
  overrides = rw overrides back.overrides;
}
