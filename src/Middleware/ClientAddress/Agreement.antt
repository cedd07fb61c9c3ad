-- ===== src/Middleware/ClientAddress/Agreement.antt =====
-- Where the two readings of the client's address agree, and where they do not.
use emly_go_api.Base.{String, true, false, some, ◌≡◌, ◌≢◌, ap, sym, ◌∙◌, arith}
use text.Mathlib.TextEquality.{eq_iff}
use emly_go_api.Base.Text.{
  contains_byte, before_byte, trim_space, split_host_port, split_host_port-no_colon,
  contains_byte-before_byte, contains_byte-trim_space,
}
use emly_go_api.Middleware.Request.{Request}
use emly_go_api.Middleware.ClientAddress.{get_ip, client_ip}

-- With no proxy header and a remote address of the form host:port, both are that host.
pub get_ip-client_ip_direct :
    (r : Request) (host : String)
    → r.x_real_ip ≡ ""
    → r.x_forwarded_for ≡ ""
    → split_host_port r.remote_addr ≡ some host
    → (get_ip r ≡ host) × (client_ip r ≡ host)
unfolding get_ip client_ip
get_ip-client_ip_direct r host a b c = (
  ground (arith, eq_iff r.x_real_ip "", eq_iff r.x_forwarded_for ""),
  ground (arith, eq_iff r.x_real_ip "", eq_iff r.x_forwarded_for ""),
)

module _ (r : Request) (real : r.x_real_ip ≡ "") (sent : r.x_forwarded_for ≢ "") where
  get_ip_forwarded : contains_byte b':' r.x_forwarded_for ≡ false → get_ip r ≡ r.x_forwarded_for
  unfolding get_ip
  get_ip_forwarded plain = ground (
    arith,
    eq_iff r.x_real_ip "",
    eq_iff r.x_forwarded_for "",
    split_host_port-no_colon r.x_forwarded_for plain,
  )

  client_ip_forwarded : client_ip r ≡ trim_space (before_byte b',' r.x_forwarded_for)
  unfolding client_ip
  client_ip_forwarded = ground (arith, eq_iff r.x_real_ip "", eq_iff r.x_forwarded_for "")

-- For a request without X-Real-IP whose X-Forwarded-For is a proxy chain (a comma, and no port),
-- the reading of the rate limiter is the whole header and that of the ban list is the text before
-- the first comma, trimmed, so that the two differ.
pub get_ip-ne-client_ip :
    (r : Request)
    → r.x_real_ip ≡ ""
    → contains_byte b',' r.x_forwarded_for ≡ true
    → contains_byte b':' r.x_forwarded_for ≡ false
    → (get_ip r ≡ r.x_forwarded_for)
      × (client_ip r ≡ trim_space (before_byte b',' r.x_forwarded_for))
      × (get_ip r ≢ client_ip r)
unfolding contains_byte
get_ip-ne-client_ip r real chain plain =
    let sent : r.x_forwarded_for ≢ "" = λ e. cc (ap (contains_byte b',') e) in
    let whole = get_ip_forwarded r real sent plain in
    let cut = client_ip_forwarded r real sent in
    let first : contains_byte b',' (client_ip r) ≡ false =
      rw cut (contains_byte-trim_space b',' _ (contains_byte-before_byte b',' r.x_forwarded_for)) in
    (whole, cut, λ same. cc (ap (contains_byte b',') (sym whole ∙ same)))
