-- ===== src/ConfigApi/Examples.antt =====
-- A table with one published revision and requests on it.
use emly_go_api.Base.{false, true, none, some, [], ◌∷◌, string_eq, ◌≡◌, refl, arith}
use emly_go_api.Base.Int.{pos}
use emly_go_api.RemoteConfig.Examples.{lib, codec, doc, valid}
use emly_go_api.ConfigApi.{
  draft, published, Row, Table, next_revision, current_published, find_row, has_draft,
  supersede_published, publish_draft,
}
use emly_go_api.ConfigApi.Wire.{Wire, deleted, reply, document, parse_bytes}
use emly_go_api.ConfigApi.Handlers.{
  CreateRequest, publish, handle, create_config_revision, publish_config_revision,
  publish_revision_tx, delete_config_revision,
}
use emly_go_api.Base.Tags.{quoted}
use emly_go_api.Base.Text.{contains_byte}
use emly_go_api.ConfigApi.Reading.{get_config, if_none_match_hits, not_modified}
use emly_go_api.ConfigApi.Revalidation.{get_config-revalidates}
use emly_go_api.ConfigApi.Published.{revision_of, IsAtMost, handle-published}
use emly_go_api.ConfigApi.Unique.{IsConsistent, handle-IsConsistent}
use emly_go_api.ConfigApi.Numbers.{no_faults, delete-next_revision, create-publishes}

abbrev pub wire : Wire
wire = record {
  lib = lib;
  codec = codec;
  byte_length = λ s. 100;
  decode = λ s. some doc;
  marshal = λ d. some d.default_server;
  sha256_hex = λ s. s;
  format_time = λ t. "now";
}

abbrev pub first : Row
first = record {
  revision = 1;
  schema_version = pos 1;
  status = published;
  document = "{}";
  etag = "e1";
  notes = none;
  created_by = none;
  based_on = none;
  generated_at = 10;
  published_at = some 10;
}

abbrev second : Row
second = record first { revision = 2; status = draft; published_at = none }

abbrev pub table : Table
table = first ∷ []

abbrev two : Table
two = first ∷ second ∷ []

handle-published_example : IsAtMost (revision_of (current_published two)) (
    revision_of
      (current_published (handle wire "" no_faults 20 none (publish (some (pos 2))) two).1))
handle-published_example = handle-published wire "" no_faults 20 none (publish (some (pos 2))) two

published_two :
    revision_of
      (current_published (handle wire "" no_faults 20 none (publish (some (pos 2))) two).1)
    ≡ some 2
unfolding current_published publish_config_revision find_row publish_revision_tx has_draft
    supersede_published publish_draft
published_two = refl

two-IsConsistent : IsConsistent two
two-IsConsistent = ((refl, (refl, tt)), omega arith)

handle-IsConsistent_example :
    IsConsistent (handle wire "" no_faults 20 none (publish (some (pos 2))) two).1
handle-IsConsistent_example =
    handle-IsConsistent wire "" no_faults 20 none (publish (some (pos 2))) two two-IsConsistent

delete-next_revision_example :
    (delete_config_revision wire "" no_faults (some (pos 2)) two ≡ (deleted, table))
    × (next_revision (delete_config_revision wire "" no_faults (some (pos 2)) two).1 ≡ 2)
unfolding next_revision
delete-next_revision_example = delete-next_revision wire no_faults second table refl refl refl

abbrev request : CreateRequest wire
request = record { document = "{}"; notes = none; publish = true }

parsed : parse_bytes wire "{}" ≡ document doc
unfolding parse_bytes
parsed = rw valid refl

create-publishes_example :
    (revision_of (
        current_published (create_config_revision wire "" no_faults 20 none (some request) table).1)
      ≡ some (next_revision table))
    × ((row : Row) × ((create_config_revision wire "" no_faults 20 none (some request) table).0
          ≡ reply 201 row)
        × (row.revision ≡ next_revision table))
create-publishes_example = create-publishes wire 20 none request doc table refl refl refl parsed

get_config-revalidates_example : get_config false (quoted "e1") table ≡ not_modified (quoted "e1") 1
unfolding current_published get_config if_none_match_hits contains_byte
get_config-revalidates_example =
    get_config-revalidates "" (quoted "e1") "{}" 1 table first refl (refl, refl, refl) refl
