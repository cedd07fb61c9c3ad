-- ===== src/Middleware/BanList.antt =====
-- internal/middleware/ban.go: the permanent ban list, a snapshot of the bans table.
mod Scan
pub mod Matching
pub mod Refresh
mod Examples
use emly_go_api.Base.{
  ℕ, Bool, true, false, ◌&&◌, not, Option, none, some, List, [], ◌∷◌, String, Map, empty, update,
  ◌==◌, string_eq, if◌then◌else◌,
}
use emly_go_api.Middleware.Request.{Request}
use emly_go_api.Middleware.ClientAddress.{client_ip}

-- models.BanType and its three values
abbrev pub BanType : Type 0
BanType = String

abbrev pub ban_type_ip : BanType
ban_type_ip = "ip"

abbrev pub ban_type_hwid : BanType
ban_type_hwid = "hwid"

abbrev pub ban_type_hostname : BanType
ban_type_hostname = "hostname"

-- models.Ban
pub record Ban : Type 0 where
  pub id : ℕ
  pub ban_type : BanType
  pub value : String
  pub reason : Option String
  pub created_by : Option String
  pub created_at : ℕ

pub record BanList : Type 0 where
  pub ips : Map String Ban
  pub hwids : Map String Ban
  pub hostnames : Map String Ban
  pub loaded : Bool
  pub admin_key : String

-- NewBanList up to its first Reload
abbrev pub new : String → BanList
new admin_key = record {
  ips = empty;
  hwids = empty;
  hostnames = empty;
  loaded = false;
  admin_key = admin_key;
}

pub data Outcome : Type 0 where
  served : Outcome
  forbidden : Ban → Outcome

-- `if key != "" { if ban, ok := m[key]; ok { return ban, true } }`
abbrev pub find_in : Map String Ban → String → String → Option Ban
find_in m sent key = if not (sent == "") then m key else none

abbrev pub or_else : Option Ban → Option Ban → Option Ban
or_else (some ban) rest = some ban
or_else none rest = rest

-- `to_lower` is strings.ToLower.
module _ (to_lower : String → String) where
  -- One round of the loop of Reload.
  unfoldable pub add_row : BanList → Ban → BanList
  add_row b row =
      if row.ban_type == ban_type_ip
      then record b { ips = update row.value row b.ips }
      else if row.ban_type == ban_type_hwid
      then record b { hwids = update row.value row b.hwids }
      else if row.ban_type == ban_type_hostname
      then record b { hostnames = update (to_lower row.value) row b.hostnames }
      else b

  unfoldable pub add_rows : BanList → List Ban → BanList
  unfolding add_row
  add_rows b [] = b
  add_rows b (row ∷ rows) = add_rows (add_row b row) rows

  -- Reload, given the result of the query: `none` is its error, which changes nothing.
  unfoldable pub reload : Option (List Ban) → BanList → BanList
  unfolding add_rows
  reload none b = b
  reload (some rows) b = record (add_rows (new b.admin_key) rows) { loaded = true }

  -- The rounds of Run, given the result of each query.
  unfoldable pub run : List (Option (List Ban)) → BanList → BanList
  unfolding reload
  run [] b = b
  run (result ∷ results) b = run results (reload result b)

  unfoldable pub match : BanList → String → String → String → Option Ban
  match b ip hwid hostname =
      or_else (find_in b.ips ip ip)
        (or_else (find_in b.hwids hwid hwid) (find_in b.hostnames hostname (to_lower hostname)))

  unfoldable pub handler : BanList → Request → Outcome
  unfolding match
  handler b r =
      if not (b.admin_key == "") && r.x_admin_key == b.admin_key
      then served
      else (elim (match b (client_ip r) r.x_emly_hwid r.x_emly_hostname) [
        | none ↦ served
        | some ban ↦ forbidden ban
      ])
