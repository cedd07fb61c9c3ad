-- ===== src/Middleware/ClientAddress.antt =====
-- internal/middleware: the two readings of the client's address, `RateLimiter.getIP` and `clientIP`.
pub mod Agreement
use emly_go_api.Base.{Option, none, some, String, if◌then◌else◌, ◌==◌, string_eq, not}
use emly_go_api.Base.Text.{contains_byte, before_byte, trim_space, split_host_port}
use emly_go_api.Middleware.Request.{Request}

abbrev get_or_empty : Option String → String
get_or_empty none = ""
get_or_empty (some host) = host

-- RateLimiter.getIP. On an error `SplitHostPort` returns an empty host.
unfoldable pub get_ip : Request → String
get_ip r =
    if not (r.x_real_ip == "")
    then r.x_real_ip
    else if not (r.x_forwarded_for == "")
    then (elim (split_host_port r.x_forwarded_for) [ some h ↦ h | none ↦ r.x_forwarded_for ])
    else get_or_empty (split_host_port r.remote_addr)

-- clientIP in ban.go
unfoldable pub client_ip : Request → String
client_ip r =
    if not (r.x_real_ip == "")
    then r.x_real_ip
    else if not (r.x_forwarded_for == "")
    then trim_space (before_byte b',' r.x_forwarded_for)
    else (elim (split_host_port r.remote_addr) [ some host ↦ host | none ↦ r.remote_addr ])
