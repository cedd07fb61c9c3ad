-- ===== src/UpdaterClient/Registry.antt =====
-- The table updater_clients and the upsert of one sighting.
use emly_go_api.Base.{
  ℕ, suc, Bool, false, not, ◌&&◌, ◌||◌, Option, none, some, List, [], ◌∷◌, ◌++◌, String, ◌==◌,
  string_eq, if◌then◌else◌, nat_beq, is_some,
}
use emly_go_api.Base.Result.{Result, ok, fail}
use emly_go_api.Base.Sql.{Database, find_where, update_where, delete_where, some_row}
use emly_go_api.DbValue.{null_string, null_time}
use emly_go_api.UpdaterClient.{Identity}

-- A row. The database fills first_seen_at.
pub record Client : Type 0 where
  pub id : ℕ
  pub hwid : Option String
  pub hostname : String
  pub ad_domain : String
  pub logged_user : Option String
  pub logged_user_state : Option String
  pub logged_user_disconnected_at : Option ℕ
  pub serial : Option String
  pub product : Option String
  pub os_version : Option String
  pub emly_version : Option String
  pub updater_version : Option String
  pub contact : Option String
  pub last_ip : Option String
  pub last_seen_at : ℕ
  pub config_revision : Option ℕ
  pub config_fetched_at : Option ℕ

-- The table and its AUTO_INCREMENT.
pub record Clients : Type 0 where
  pub rows : List Client
  pub next_id : ℕ

-- The statements that the database fails.
pub record Faults : Type 0 where
  pub lookup_hwid : Bool
  pub lookup_pair : Bool
  pub delete : Bool
  pub write : Bool

pub data Failure : Type 0 where
  database : Failure
  duplicate_key : Failure

-- COALESCE(NULLIF(?, ''), column)
abbrev pub coalesce : String → Option String → Option String
coalesce s old = if s == "" then old else some s

abbrev pub same_hwid : Database → Option String → Option String → Bool
same_hwid db none y = false
same_hwid db (some h) none = false
same_hwid db (some h) (some k) = db.same h k

-- `hostname = ? AND ad_domain = ?`
abbrev pub is_pair : Database → String → String → Client → Bool
is_pair db hostname ad_domain c = db.same hostname c.hostname && db.same ad_domain c.ad_domain

-- Two rows that uniq_hwid or uniq_client does not admit together.
abbrev pub collides : Database → Client → Client → Bool
collides db c d = same_hwid db c.hwid d.hwid || is_pair db c.hostname c.ad_domain d

-- The columns that the UPDATE writes.
abbrev pub refresh : Identity → ℕ → Client → Client
refresh id now c = record c {
  hwid = coalesce id.hwid c.hwid;
  hostname = id.hostname;
  ad_domain = id.ad_domain;
  logged_user = if id.nobody_logged_on then none else coalesce id.logged_user c.logged_user;
  logged_user_disconnected_at =
      if id.nobody_logged_on || not (id.logged_user_state == "")
      then null_time id.logged_user_disconnected_at
      else c.logged_user_disconnected_at;
  logged_user_state =
      if id.nobody_logged_on then none else coalesce id.logged_user_state c.logged_user_state;
  serial = coalesce id.serial c.serial;
  product = coalesce id.product c.product;
  os_version = coalesce id.os_version c.os_version;
  emly_version = coalesce id.emly_version c.emly_version;
  updater_version = null_string id.ua_version;
  contact = null_string id.contact;
  last_ip = null_string id.ip;
  last_seen_at = now;
}

abbrev pub fresh_client : Identity → ℕ → ℕ → Client
fresh_client id i now = record {
  id = i;
  hwid = null_string id.hwid;
  hostname = id.hostname;
  ad_domain = id.ad_domain;
  logged_user = null_string id.logged_user;
  logged_user_state = null_string id.logged_user_state;
  logged_user_disconnected_at = null_time id.logged_user_disconnected_at;
  serial = null_string id.serial;
  product = null_string id.product;
  os_version = null_string id.os_version;
  emly_version = null_string id.emly_version;
  updater_version = null_string id.ua_version;
  contact = null_string id.contact;
  last_ip = null_string id.ip;
  last_seen_at = now;
  config_revision = none;
  config_fetched_at = none;
}

abbrev pub has_id : ℕ → Client → Bool
has_id i c = nat_beq c.id i

module _ (db : Database) where
  -- The first lookup: by hwid if given.
  unfoldable pub find_hwid : String → List Client → Option Client
  find_hwid hwid rows =
      if hwid == "" then none else find_where (λ c. same_hwid db (some hwid) c.hwid) rows

  -- The second: by host name and domain, if given.
  unfoldable pub find_pair : String → String → List Client → Option Client
  find_pair hostname ad_domain rows =
      if hostname == "" then none else find_where (is_pair db hostname ad_domain) rows

  unfoldable pub find_target : Identity → List Client → Option Client
  unfolding find_hwid find_pair
  find_target id rows = elim (find_hwid id.hwid rows) [
    | some c ↦ some c
    | none ↦ find_pair id.hostname id.ad_domain rows
  ]

  abbrev pub is_target : Option Client → Client → Bool
  is_target none c = false
  is_target (some t) c = has_id t.id c

  -- The rows that squat on the pair that is about to be written go, except the target.
  unfoldable pub clear_pair : Identity → Option Client → List Client → List Client
  clear_pair id target rows =
      if id.hostname == ""
      then rows
      else delete_where (λ c. is_pair db id.hostname id.ad_domain c && not (is_target target c))
          rows

  -- UPDATE … WHERE id = ?, refused where the new row collides with another.
  unfoldable pub update_client : Identity → ℕ → Client → List Client → Option (List Client)
  update_client id now t rows =
      if some_row (λ c. not (has_id t.id c) && collides db (refresh id now t) c) rows
      then none
      else some (update_where (has_id t.id) (refresh id now) rows)

  -- INSERT, refused where the new row collides with another.
  unfoldable pub insert_client : Identity → ℕ → ℕ → List Client → Option (List Client)
  insert_client id i now rows =
      if some_row (collides db (fresh_client id i now)) rows
      then none
      else some (rows ++ fresh_client id i now ∷ [])

  -- The write, by the target and the rows that are left: the row's id, and the table.
  unfoldable pub write_client :
      Identity → ℕ → Option Client → List Client → ℕ → Result Failure ℕ × Clients
  unfolding update_client insert_client
  write_client id now (some t) rows next = elim (update_client id now t rows) [
    | none ↦ (fail duplicate_key, record { rows = rows; next_id = next })
    | some new ↦ (ok t.id, record { rows = new; next_id = next })
  ]
  write_client id now none rows next = elim (insert_client id next now rows) [
    | none ↦ (fail duplicate_key, record { rows = rows; next_id = next })
    | some new ↦ (ok next, record { rows = new; next_id = suc next })
  ]

  -- Upsert: no transaction, so that what was deleted stays deleted. The statements run with no other
  -- sighting's between them; in Go each commits by itself, and others can come between.
  unfoldable pub upsert : Faults → ℕ → Identity → Clients → Result Failure ℕ × Clients
  unfolding find_hwid find_target clear_pair write_client
  upsert f now id s =
      let target = find_target id s.rows in
      let rows = clear_pair id target s.rows in
      if not (id.hwid == "") && f.lookup_hwid
      then (fail database, s)
      else if not (is_some (find_hwid id.hwid s.rows)) && not (id.hostname == "") && f.lookup_pair
      then (fail database, s)
      else if not (id.hostname == "") && f.delete
      then (fail database, s)
      else if f.write
      then (fail database, record s { rows = rows })
      else write_client id now target rows s.next_id
