-- ===== src/Middleware/BanList/Examples.antt =====
-- A table with one ban of each kind of identifier.
use emly_go_api.Base.{none, some, List, [], ◌∷◌, String, ◌≡◌, refl, ◌⊎◌, All}
use emly_go_api.Base.Text.{split_host_port}
use mathlib.Core.List.{Memᴰ}
use emly_go_api.Middleware.Request.{Request}
use emly_go_api.Middleware.ClientAddress.{client_ip}
use emly_go_api.Middleware.BanList.{Ban, new, reload, handler, served, forbidden}
use emly_go_api.Middleware.BanList.Matching.{Blocks, IsAdmin, handler-reload}

-- A stand-in for strings.ToLower.
abbrev same_case : String → String
same_case s = s

abbrev office : Ban
office = record {
  id = 1;
  ban_type = "ip";
  value = "203.0.113.9";
  reason = none;
  created_by = none;
  created_at = 0;
}

abbrev laptop : Ban
laptop = record office { id = 2; ban_type = "hostname"; value = "pc-7" }

abbrev table : List Ban
table = office ∷ laptop ∷ []

abbrev request : Request
request = record {
  remote_addr = "198.51.100.4:5000";
  x_real_ip = "";
  x_forwarded_for = "";
  x_api_key = "";
  x_admin_key = "";
  x_dashboard_key = "";
  x_emly_hwid = "";
  x_emly_hostname = "pc-7";
}

by_hostname :
    handler same_case (reload same_case (some table) (new "key")) request ≡ forbidden laptop
unfolding handler reload client_ip split_host_port
by_hostname = refl

by_admin :
    handler same_case
      (reload same_case (some table) (new "key"))
      (record request { x_admin_key = "key" })
    ≡ served
unfolding handler reload client_ip split_host_port
by_admin = refl

handler-reload_example :
    ((ban : Ban)
      → handler same_case (reload same_case (some table) (new "key")) request ≡ forbidden ban
      → Memᴰ ban table
        × Blocks same_case (client_ip request) "" "pc-7" ban
        × (¬ IsAdmin (new "key") request))
    × (handler same_case (reload same_case (some table) (new "key")) request ≡ served
        → IsAdmin (new "key") request
          ⊎ All (λ row. ¬ Blocks same_case (client_ip request) "" "pc-7" row) table)
handler-reload_example = handler-reload same_case (new "key") table request
