-- ===== src/Api/Handlers.antt =====
-- ui/app/main.py: the other handlers of one client.
use openvpn_server.Base.{
  ℕ, Bool, true, false, Option, none, some, Text, codes, nonempty, if◌then◌else◌, strip, is_space,
  coalesce, is_some, ◌++◌, [], str_of,
}
use openvpn_server.Db.Schema.{User, Db}
use openvpn_server.Auth.WebSessions.{SessionUser}
use openvpn_server.Mgmt.Command.{
  Management, Reply, success, management_error, index_error, kill, client_kill,
}
use openvpn_server.Pki.Names.{is_valid_name}
use openvpn_server.Pki.Clients.{valid, PkiDir, Listed}
use openvpn_server.Pki.Addresses.{Files, set_static_ip, set_guest}
use openvpn_server.Api.Requests.{Answer, ok, failed, Env}
use openvpn_server.Api.Accounts.{find_client, with_client, find_account, log_event}
use openvpn_server.Api.Lifecycle.{Script, Console, is_state}
use openvpn_server.Api.Links.{add_link}

-- Whether there is an account, and its user name or the client's.
abbrev pub account_name : Text → Option User → Bool × Text
account_name name none = (false, name)
account_name name (some u) = (true, u.username)

unfoldable pub portal_account : ℕ → PkiDir → Text → Db → Answer (Bool × Text) × Db
portal_account now dir name db =
    with_client (find_client now dir name db) db
      (λ row. (ok (account_name name (find_account name db.users)), db))

abbrev pub after_script : ℕ → Option PkiDir → SessionUser → Text → Db → Answer Listed × Db
after_script now none user name db = (failed 400, db)
after_script now (some dir) user name db =
    let db' = log_event now (codes "previous_cert_revoked") user (some name) none db in
    (find_client now dir name db', db')

unfoldable pub revoke_previous : ℕ → PkiDir → Script → SessionUser → Text → Db → Answer Listed × Db
revoke_previous now dir script user name db =
    with_client (find_client now dir name db) db (λ row.
      if is_some row.previous then after_script now script user name db else (failed 400, db))

-- What the management interface answered.
abbrev pub disconnected : ℕ → SessionUser → Text → Db → Reply × Management → Answer Text × Console
disconnected now user name db (success result, m) = (
  ok result,
  record {
    db = log_event now (codes "client_disconnected") user (some name) (some result) db;
    mgmt = m;
  },
)
disconnected now user name db (management_error, m) = (failed 503, record { db = db; mgmt = m })
disconnected now user name db (index_error, m) = (failed 500, record { db = db; mgmt = m })

abbrev pub end_connection_of : Text → Option ℕ → Management → Reply × Management
end_connection_of name none m = kill name m
end_connection_of name (some cid) m = client_kill m

unfoldable pub disconnect : ℕ → SessionUser → Text → Option ℕ → Console → Answer Text × Console
disconnect now user name cid c =
    if is_valid_name name
    then disconnected now user name c.db (end_connection_of name cid c.mgmt)
    else (failed 400, c)

-- The files of the addresses and guests beside the database.
pub record Host : Type 0 where
  pub db : Db
  pub files : Files

abbrev pub or_removed : Text → Text
or_removed ip = if nonempty ip then ip else codes "removed"

abbrev pub with_files :
    ℕ → Text → SessionUser → Text → Text → Host → Option Files → Answer Text × Host
with_files now kind user name detail h none = (failed 400, h)
with_files now kind user name detail h (some files) = (
  ok detail,
  record { db = log_event now kind user (some name) (some detail) h.db; files = files },
)

unfoldable pub static_ip :
    (Text → Option ℕ) → ℕ → PkiDir → SessionUser → Text → Option Text → Host → Answer Text × Host
static_ip read_ip now dir user name ip h =
    let address = strip is_space (coalesce ip []) in
    with_client (find_client now dir name h.db) h (λ row.
      with_files now (codes "static_ip_set") user name (or_removed address) h
        (set_static_ip read_ip name address h.files))

unfoldable pub set_access : ℕ → PkiDir → SessionUser → Text → Bool → Host → Answer Text × Host
set_access now dir user name guest h = with_client (find_client now dir name h.db) h (λ row.
    with_files now (codes "access_changed") user name
      (if guest then codes "guest" else codes "full") h (set_guest name guest h.files))

abbrev pub shared : ℕ → SessionUser → Text → ℕ → Text → Db → Option Db → Answer Text × Db
shared now user name hours token db none = (failed 500, db)
shared now user name hours token db (some db') = (
  ok token,
  log_event now (codes "profile_link_created") user (some name)
      (some (codes "valid " ++ (str_of hours ++ codes " h"))) db',
)

-- The answer is the token of the link.
unfoldable pub share_profile :
    Env → ℕ → PkiDir → SessionUser → Text → ℕ → Text → Db → Answer Text × Db
share_profile env now dir user name hours token db =
    with_client (find_client now dir name db) db (λ row.
      if is_state row.cert.state valid
      then shared now user name hours token db
          (add_link (env.token_hash token) name now hours user.username db)
      else (failed 400, db))
