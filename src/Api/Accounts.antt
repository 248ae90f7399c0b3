-- ===== src/Api/Accounts.antt =====
-- ui/app/main.py: the list of the clients for a handler, and the portal accounts of clients.
use openvpn_server.Base.{
  ℕ, ◌+◌, Bool, false, not, Option, none, some, List, [], ◌∷◌, ◌++◌, Text, codes, text_eq,
  if◌then◌else◌, ◌==◌, map, delete_where,
}
use openvpn_server.Db.Schema.{User, Db}
use openvpn_server.Db.History.{add_event}
use openvpn_server.Auth.Passwords.{hash_password}
use openvpn_server.Auth.WebSessions.{SessionUser}
use openvpn_server.Pki.Names.{is_valid_name}
use openvpn_server.Pki.Clients.{Listed, PkiDir, list_clients, find_listed}
use openvpn_server.Relay.Authorize.{World, Cert, Outcome, returned, unavailable, refused, eligible}
use openvpn_server.Api.Requests.{Answer, ok, failed, Env}
use openvpn_server.Api.Login.{find_username, set_user}

abbrev pub hidden_serials : Db → List Text
hidden_serials db = map (λ h. h.serial) db.hidden_certs

abbrev pub found_client : Option Listed → Answer Listed
found_client none = failed 404
found_client (some c) = ok c

-- The rows of `clients_payload` have the names of `list_clients`, one row each.
unfoldable pub find_client : ℕ → PkiDir → Text → Db → Answer Listed
find_client now dir name db =
    if is_valid_name name
    then found_client (find_listed name (list_clients now dir (hidden_serials db)))
    else failed 400

-- A handler whose first call is `find_client`, and the rest of it.
unfoldable pub with_client {ℓ κ} :
    {A : Type ℓ} {S : Type κ} → Answer Listed → S → (Listed → Answer A × S) → Answer A × S
with_client (failed status) s rest = (failed status, s)
with_client (ok row) s rest = rest row

-- `event(kind, user, client, detail)`
abbrev pub log_event : ℕ → Text → SessionUser → Option Text → Option Text → Db → Db
log_event now kind user name detail db = add_event now kind name (some user.username) detail db

abbrev pub is_client_name : Text → Option Text → Bool
is_client_name name none = false
is_client_name name (some n) = text_eq n name

abbrev pub is_account_of : Text → User → Bool
is_account_of name u = is_client_name name u.client_name

-- SELECT ... FROM users WHERE client_name = ?
unfoldable pub find_account : Text → List User → Option User
find_account name [] = none
find_account name (u ∷ users) = if is_account_of name u then some u else find_account name users

unfoldable pub remove_account : Option User → Db → Db
remove_account none db = db
remove_account (some u) db = record db {
  web_sessions = delete_where (λ s. s.user_id == u.id) db.web_sessions;
  users = delete_where (λ v. v.id == u.id) db.users;
}

unfoldable pub disable_portal : Text → Db → Db
disable_portal name db = remove_account (find_account name db.users) db

abbrev pub account_row : ℕ → ℕ → Text → Text → Text → Text → User
account_row id now name username hash serial = record {
  id = id;
  username = username;
  password_hash = hash;
  created_at = now;
  last_login = none;
  client_name = some name;
  client_serial = some serial;
}

-- The account that there is gets the new name, password and certificate, and loses its sessions.
unfoldable pub put_account : ℕ → Text → Text → Text → Text → Option User → Db → Db
put_account now name username hash serial none db = record db {
  users = db.users ++ account_row db.next_user now name username hash serial ∷ [];
  next_user = db.next_user + 1;
}
put_account now name username hash serial (some row) db =
    set_user row.id
      (λ u. record u { username = username; password_hash = hash; client_serial = some serial })
      (record db { web_sessions = delete_where (λ s. s.user_id == row.id) db.web_sessions })

-- The user name belongs to another account.
abbrev pub is_taken : Text → Option User → Bool
is_taken name none = false
is_taken name (some u) = not (is_account_of name u)

-- The transaction of `set_portal_account`.
unfoldable pub put_portal : ℕ → Text → Text → Text → Text → Db → Answer Text × Db
put_portal now name username hash serial db =
    if is_taken name (find_username username db.users)
    then (failed 400, db)
    else (ok username, put_account now name username hash serial (find_account name db.users) db)

unfoldable pub put_hashed : ℕ → Text → Text → Cert → Db → Option Text → Answer Text × Db
put_hashed now name username cert db none = (failed 500, db)
put_hashed now name username cert db (some hash) = put_portal now name username hash cert.serial db

unfoldable pub set_portal_of :
    Env → Text → ℕ → Text → Text → Text → Outcome (Option Cert) → Db → Answer Text × Db
set_portal_of env salt now name username password unavailable db = (failed 500, db)
set_portal_of env salt now name username password refused db = (failed 400, db)
set_portal_of env salt now name username password (returned none) db = (failed 400, db)
set_portal_of env salt now name username password (returned (some cert)) db =
    put_hashed now name username cert db (hash_password env.crypto password salt)

unfoldable pub logged : ℕ → Text → SessionUser → Text → Answer Text × Db → Answer Text × Db
logged now kind user name (failed status, db) = (failed status, db)
logged now kind user name (ok a, db) = (ok a, log_event now kind user (some name) none db)

unfoldable pub set_portal_account :
    Env → World → PkiDir → Text → ℕ → SessionUser → Text → Text → Text → Db → Answer Text × Db
set_portal_account env w dir salt now user name username password db =
    with_client (find_client now dir name db) db (λ row.
      logged now (codes "portal_access_set") user name
        (set_portal_of env salt now name username password (eligible w name) db))

unfoldable pub remove_portal_account : PkiDir → ℕ → SessionUser → Text → Db → Answer Bool × Db
remove_portal_account dir now user name db = with_client (find_client now dir name db) db (λ row. (
  ok false,
  log_event now (codes "portal_access_disabled") user (some name) none (disable_portal name db),
))
