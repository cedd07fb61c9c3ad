-- ===== src/RemoteConfig/Examples.antt =====
-- One document with one site and one override, and the hosts that ask for it.
use emly_go_api.Base.{
  ◌+◌, ◌*◌, ◌^◌, true, Option, if◌then◌else◌, List, none, some, [], ◌∷◌, String, ◌==◌, string_eq,
  ◌≡◌, refl, All, ◌↔◌, ◌⊎◌, Sub,
}
use emly_go_api.Base.Int.{pos}
use emly_go_api.Base.Net.{v4}
use emly_go_api.RemoteConfig.Json.{
  null, boolean, number, string, array, object, Fields, end, field, find, fields_of, is_null,
}
use emly_go_api.RemoteConfig.Document.{Document, Site, Selector, Override}
use emly_go_api.RemoteConfig.MergePatch.{merge_fields, find-merge_fields}
use emly_go_api.RemoteConfig.MergePatch.Apply.{Section, Codec, apply_patch_to_document}
use emly_go_api.RemoteConfig.MergePatch.Apply.Untouched.{ReadsBack}
use emly_go_api.RemoteConfig.Validate.{parse}
use emly_go_api.RemoteConfig.Validate.Sections.{
  Lib, validate_server_url, validate_cidr, validate_control, validate_updater, validate_logging,
}
use emly_go_api.RemoteConfig.Validate.References.{
  validate_top, validate_servers, validate_ipc_protocol, validate_dc_lookup_map,
}
use emly_go_api.RemoteConfig.Validate.Overrides.{validate_overrides_shape, dry_run_overrides}
use emly_go_api.RemoteConfig.Validate.Soundness.{
  IsValid, IsKnown, parse-IsValid, resolve_site-IsKnown,
}
use emly_go_api.RemoteConfig.Match.{Host, match, resolve_site, until_expired}
use emly_go_api.RemoteConfig.Match.Selects.{Selects, match_iff}
use emly_go_api.RemoteConfig.Match.Sites.{Resolved, resolve_site-Resolved}
use emly_go_api.RemoteConfig.Effective.{effective}
use emly_go_api.RemoteConfig.Effective.Applied.{applicable, effective-applicable}

abbrev pub lib : Lib
lib = record {
  parse_time = λ s. some 50;
  parse_url = λ s. some (record { scheme = "https"; host = "main"; raw_query = "" });
  net = record {
    parse_ip = λ s. some (v4 (10 * 2 ^ 24 + 1));
    parse_cidr = λ s. some (record { address = v4 (10 * 2 ^ 24); ones = 8 });
  };
  equal_fold = λ s t. s == t;
  is_integer = λ s. true;
  itoa = λ n. "1";
}

abbrev branch : Site
branch = record {
  internal_subnets = "10.0.0.0/8" ∷ [];
  base_server = "branch";
  backup_server = "main" ∷ [];
  enabled = true;
}

abbrev nobody : Selector
nobody = record { all = none; hwids = []; hostnames = []; dcs = []; subnets = []; domains = [] }

abbrev pc1 : Selector
pc1 = record nobody { hostnames = "pc1" ∷ [] }

abbrev to_branch : Override
to_branch = record {
  id = "to-branch";
  match = pc1;
  except = none;
  until = none;
  patch = field "defaultServer" (string "branch") end;
}

abbrev pub doc : Document
doc = record {
  schema_version = pos 1;
  revision = pos 4;
  generated_at = "";
  refresh = none;
  servers = ("main", "https://main") ∷ ("branch", "https://branch") ∷ [];
  default_server = "main";
  ipc_protocol = none;
  dc_lookup_map = ("dc1", branch) ∷ [];
  host_integrity = none;
  control = none;
  updater = none;
  logging = none;
  client_ws = none;
  overrides = to_branch ∷ [];
}

abbrev host : String → Host
host name = record {
  hwid = "h";
  hostname = name;
  dc = "dc1.corp.local";
  domain = "corp.local";
  ips = "10.0.0.1" ∷ [];
  now = some 100;
}

-- A text, where null is the empty one.
abbrev text : Section String
text = record {
  encode = string;
  decode = λ v. elim v [
    | null ↦ some ""
    | boolean b ↦ none
    | number n ↦ none
    | string s ↦ some s
    | array xs ↦ none
    | object fs ↦ none
  ];
}

abbrev fields_of_servers : List (String × String) → Fields
fields_of_servers [] = end
fields_of_servers ((name, url) ∷ servers) = field name (string url) (fields_of_servers servers)

abbrev servers_of_fields : Fields → List (String × String)
servers_of_fields end = []
servers_of_fields (field name (string url) fs) = (name, url) ∷ servers_of_fields fs
servers_of_fields (field name _ fs) = servers_of_fields fs

abbrev server_map : Section (List (String × String))
server_map = record {
  encode = λ servers. object (fields_of_servers servers);
  decode = λ v. some (servers_of_fields (fields_of v));
}

-- A section that is known by one value, beside that of null.
abbrev known : {T : Type 0} → T → T → Section T
known nothing value = record {
  encode = λ x. string "known";
  decode = λ v. some (if is_null v then nothing else value);
}

-- A section that is nil.
abbrev absent : {T : Type 0} → Section (Option T)
absent = record { encode = λ x. null; decode = λ v. some none }

abbrev pub codec : Codec
codec = record {
  schema_version = known (pos 0) (pos 1);
  revision = known (pos 0) (pos 4);
  generated_at = text;
  refresh = absent;
  servers = server_map;
  default_server = text;
  ipc_protocol = absent;
  dc_lookup_map = known [] (("dc1", branch) ∷ []);
  host_integrity = absent;
  control = absent;
  updater = absent;
  logging = absent;
  client_ws = absent;
  overrides = known [] (to_branch ∷ []);
}

pub valid : parse lib codec doc ≡ []
unfolding parse validate_top validate_servers validate_server_url validate_ipc_protocol
    validate_dc_lookup_map validate_cidr validate_control validate_updater validate_logging
    validate_overrides_shape dry_run_overrides apply_patch_to_document
valid = refl

parse-IsValid_example : IsValid lib doc
parse-IsValid_example = parse-IsValid lib codec doc valid

resolve_site-IsKnown_example : All (IsKnown doc.servers) (resolve_site lib doc (host "pc1")).1
resolve_site-IsKnown_example = resolve_site-IsKnown lib codec doc (host "pc1") valid

resolve_site-Resolved_example :
    Resolved lib
      (host "pc1")
      doc.dc_lookup_map
      doc.default_server
      (resolve_site lib doc (host "pc1"))
resolve_site-Resolved_example = resolve_site-Resolved lib doc (host "pc1")

match_iff_example :
    (match lib pc1 (host "pc1") ≡ true) ↔ ((pc1.all ≡ some true) ⊎ Selects lib pc1 (host "pc1"))
match_iff_example = match_iff lib pc1 (host "pc1")

find-merge_fields_example :
    find "a" (
      merge_fields
        (field "a" (string "old") (field "b" (string "kept") end))
        (field "b" (string "new") (field "a" null end)))
    ≡ none
find-merge_fields_example =
    find-merge_fields "a" (field "a" (string "old") (field "b" (string "kept") end))
      (field "b" (string "new") (field "a" null end)) (refl, (refl, tt))

abbrev patched : Document
patched = record doc { default_server = "branch" }

applied : apply_patch_to_document codec doc to_branch.patch ≡ some patched
unfolding apply_patch_to_document
applied = refl

doc-ReadsBack : ReadsBack codec doc
doc-ReadsBack = record { servers = refl; sites = refl; overrides = refl }

effective-applicable_example :
    Sub
      (effective lib codec (host "pc1") doc 7).1
      (applicable lib codec (host "pc1") 100 doc.overrides)
    × ((effective lib codec (host "pc1") doc 7).0.servers ≡ doc.servers)
    × ((effective lib codec (host "pc1") doc 7).0.dc_lookup_map ≡ doc.dc_lookup_map)
    × ((effective lib codec (host "pc1") doc 7).0.overrides ≡ doc.overrides)
effective-applicable_example = effective-applicable lib codec (host "pc1") doc 7 doc-ReadsBack

-- A patch of a key that is not allowed is passed over, beside one that is.
smuggled :
    apply_patch_to_document codec doc
      (field "servers" (object end) (field "defaultServer" (string "branch") end))
    ≡ some patched
unfolding apply_patch_to_document
smuggled = refl

effective_to_branch : effective lib codec (host "pc1") doc 7 ≡ (patched, "to-branch" ∷ [])
unfolding effective until_expired match apply_patch_to_document
effective_to_branch = refl
