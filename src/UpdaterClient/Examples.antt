-- ===== src/UpdaterClient/Examples.antt =====
-- Sightings and versions on which the theorems are applied.
use emly_go_api.Base.{false, none, some, [], ◌∷◌, String, string_eq, ◌≡◌, ◌≢◌, refl, arith}
use emly_go_api.Base.Result.{fail}
use emly_go_api.Updates.Examples.{exact}
use emly_go_api.UpdaterClient.{Lib, Identity, Request}
use emly_go_api.UpdaterClient.Record.{IsCovered, record_event, record_event-IsCovered}
use emly_go_api.UpdaterClient.Registry.{
  Client, Clients, Faults, duplicate_key, upsert, find_hwid, find_target, clear_pair, write_client,
  insert_client,
}
use emly_go_api.UpdaterClient.Upserts.{upsert-ne-duplicate}
use emly_go_api.UpdaterClient.Events
use emly_go_api.UpdaterClient.Events.{IsRollup, insert_event, insert_event-IsRollup}

abbrev identity : String → String → Identity
identity hwid hostname = record {
  hwid = hwid;
  hostname = hostname;
  ad_domain = "";
  logged_user = "";
  logged_user_state = "";
  logged_user_disconnected_at = 0;
  nobody_logged_on = false;
  serial = "";
  product = "";
  os_version = "";
  emly_version = "";
  ua_version = "";
  contact = "";
  ip = "";
}

abbrev quiet : Faults
quiet = record { lookup_hwid = false; lookup_pair = false; delete = false; write = false }

abbrev nobody : Clients
nobody = record { rows = []; next_id = 1 }

-- A row that has the hwid, and one that squats on the pair of host name and domain.
abbrev by_hwid : Client
by_hwid = record {
  id = 1;
  hwid = some "A";
  hostname = "old";
  ad_domain = "";
  logged_user = none;
  logged_user_state = none;
  logged_user_disconnected_at = none;
  serial = none;
  product = none;
  os_version = none;
  emly_version = none;
  updater_version = none;
  contact = none;
  last_ip = none;
  last_seen_at = 5;
  config_revision = none;
  config_fetched_at = none;
}

abbrev squatter : Client
squatter = record by_hwid { id = 2; hwid = none; hostname = "pc1" }

abbrev crowded : Clients
crowded = record { rows = by_hwid ∷ squatter ∷ []; next_id = 3 }

upsert-ne-duplicate_example :
    (upsert exact quiet 7 (identity "A" "pc1") crowded).0 ≢ fail duplicate_key
upsert-ne-duplicate_example =
    upsert-ne-duplicate exact quiet 7 (identity "A" "pc1") crowded refl ((refl, tt), (tt, tt))

-- The write alone meets the squatter, without the DELETE before it.
squatter_collides :
    (write_client exact (identity "A" "pc1") 7 (some by_hwid) crowded.rows 3).0 ≡ fail duplicate_key
unfolding write_client
squatter_collides = refl

-- Two first sightings of a host at once: the second has found no row and deleted none when the first
-- one inserts its row.
racing_refused :
    (write_client exact
      (identity "A" "pc1")
      8
      none
      (upsert exact quiet 7 (identity "A" "pc1") nobody).1.rows
      2).0
    ≡ fail duplicate_key
unfolding upsert find_hwid find_target clear_pair write_client insert_client
racing_refused = refl

-- Without a host name the second client meets the pair of empty texts of the first.
nameless_refused :
    (upsert exact quiet 7 (identity "B" "") (upsert exact quiet 7 (identity "A" "") nobody).1).0
    ≡ fail duplicate_key
unfolding upsert find_hwid find_target clear_pair write_client insert_client
nameless_refused = refl

abbrev steady : Events.Faults
steady = record {
  begin_tx = false;
  insert_row = false;
  last_id = false;
  count = false;
  commit = false;
}

abbrev silence : Events.Log
silence = record { events = []; hourly = []; next_id = 1 }

insert_event-IsRollup_example :
    IsRollup (λ t. t) (insert_event (λ t. t) steady 7 1 "download" "emly" none none silence).1
insert_event-IsRollup_example =
    insert_event-IsRollup (λ t. t) steady 7 1 "download" "emly" none none silence (λ k. refl)

abbrev lib : Lib
lib = record { parse_time = λ s. none; to_lower = λ s. s; atoi = λ s. none }

abbrev request : Request
request = record { header = λ name. "pc1"; user_agent = ""; remote_addr = "" }

record_event-IsCovered_example :
    IsCovered
      (λ t. t)
      (record_event lib exact
        (λ t. t)
        quiet
        steady
        7
        "download"
        "emly"
        "1.0"
        request
        (nobody, silence)).1
record_event-IsCovered_example =
    record_event-IsCovered lib exact (λ t. t) quiet steady 7 "download" "emly" "1.0" request nobody
      silence (λ k. omega arith)
