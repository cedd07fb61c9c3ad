-- ===== src/Middleware/Request.antt =====
-- The parts of an HTTP request that the middlewares read. A header that is not sent is "".
use emly_go_api.Base.{String}

pub record Request : Type 0 where
  pub remote_addr : String
  pub x_real_ip : String
  pub x_forwarded_for : String
  pub x_api_key : String
  pub x_admin_key : String
  pub x_dashboard_key : String
  pub x_emly_hwid : String
  pub x_emly_hostname : String
