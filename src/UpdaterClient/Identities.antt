-- ===== src/UpdaterClient/Identities.antt =====
-- The two constructors of an identity: from the headers and from the message of the web socket.
use emly_go_api.Base.{String, ◌≡◌, refl}
use emly_go_api.DbValue.{truncate}
use emly_go_api.UpdaterClient.{
  Lib, Request, Identity, parse_user_agent, client_ip, parse_logged_user_session,
}
use emly_go_api.UpdaterClient.Versions.{reports_nobody_logged_on}

pub record WsIdentityPayload : Type 0 where
  pub hwid : String
  pub hostname : String
  pub ad_domain : String
  pub logged_user : String
  pub logged_user_state : String
  pub logged_user_disconnected_at : String
  pub serial : String
  pub product : String
  pub os_version : String
  pub emly_version : String

unfoldable pub identity_from_request : Lib → Request → Identity
unfolding parse_user_agent parse_logged_user_session truncate reports_nobody_logged_on client_ip
identity_from_request lib r =
    let agent = parse_user_agent r.user_agent in
    let session =
      parse_logged_user_session lib (r.header "X-EMLy-LoggedUserState")
        (r.header "X-EMLy-LoggedUserDisconnectedAt") in
    let logged_user = truncate (r.header "X-EMLy-LoggedUser") 255 in
    record {
      hwid = r.header "X-EMLy-HWID";
      hostname = r.header "X-EMLy-Hostname";
      ad_domain = r.header "X-EMLy-ADDomain";
      logged_user = logged_user;
      logged_user_state = session.0;
      logged_user_disconnected_at = session.1;
      nobody_logged_on = reports_nobody_logged_on lib logged_user agent.0;
      serial = truncate (r.header "X-EMLy-Serial") 128;
      product = truncate (r.header "X-EMLy-Product") 128;
      os_version = truncate (r.header "X-EMLy-OSVersion") 128;
      emly_version = truncate (r.header "X-EMLy-AppVersion") 20;
      ua_version = agent.0;
      contact = agent.1;
      ip = client_ip r;
    }

unfoldable pub identity_from_ws_payload : Lib → Request → WsIdentityPayload → Identity
unfolding parse_user_agent parse_logged_user_session truncate reports_nobody_logged_on client_ip
identity_from_ws_payload lib r p =
    let agent = parse_user_agent r.user_agent in
    let session = parse_logged_user_session lib p.logged_user_state p.logged_user_disconnected_at in
    let logged_user = truncate p.logged_user 255 in
    record {
      hwid = p.hwid;
      hostname = p.hostname;
      ad_domain = p.ad_domain;
      logged_user = logged_user;
      logged_user_state = session.0;
      logged_user_disconnected_at = session.1;
      nobody_logged_on = reports_nobody_logged_on lib logged_user agent.0;
      serial = truncate p.serial 128;
      product = truncate p.product 128;
      os_version = truncate p.os_version 128;
      emly_version = truncate p.emly_version 20;
      ua_version = agent.0;
      contact = agent.1;
      ip = client_ip r;
    }

-- The message that carries what the headers of a request carry.
abbrev pub payload_of : Request → WsIdentityPayload
payload_of r = record {
  hwid = r.header "X-EMLy-HWID";
  hostname = r.header "X-EMLy-Hostname";
  ad_domain = r.header "X-EMLy-ADDomain";
  logged_user = r.header "X-EMLy-LoggedUser";
  logged_user_state = r.header "X-EMLy-LoggedUserState";
  logged_user_disconnected_at = r.header "X-EMLy-LoggedUserDisconnectedAt";
  serial = r.header "X-EMLy-Serial";
  product = r.header "X-EMLy-Product";
  os_version = r.header "X-EMLy-OSVersion";
  emly_version = r.header "X-EMLy-AppVersion";
}

-- A machine that reports the same facts in headers and in the message of its web socket, over
-- connections with the same User-Agent and address, has one identity.
pub identity-from_ws :
    (lib : Lib) (upgrade r : Request)
    → upgrade.user_agent ≡ r.user_agent
    → upgrade.remote_addr ≡ r.remote_addr
    → identity_from_ws_payload lib upgrade (payload_of r) ≡ identity_from_request lib r
unfolding identity_from_ws_payload identity_from_request client_ip
identity-from_ws lib upgrade r agent addr = rw (agent, addr) refl
