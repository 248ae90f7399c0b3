-- ===== src/Api/Login.antt =====
-- ui/app/main.py: login, logout and change_password. `now` is the time of day in seconds and `clock`
-- the monotonic clock; the token and the salt that a request draws are arguments.
use openvpn_server.Base.{
  ℕ, Bool, true, false, not, ◌&&◌, Option, none, some, List, [], ◌∷◌, ◌++◌, Text, codes, text_eq,
  if◌then◌else◌, ltb, ◌==◌, take, update_where,
}
use openvpn_server.Db.Schema.{User, Db}
use openvpn_server.Db.History.{add_event}
use openvpn_server.Auth.Limiter.{Limiter, attempt, success}
use openvpn_server.Auth.Passwords.{hash_password, verify_password, needs_rehash}
use openvpn_server.Auth.WebSessions.{
  SessionUser, session_user, find_user, create_session, delete_session, delete_user_sessions,
}
use openvpn_server.Relay.Authorize.{World, Cert, Outcome, returned, unavailable, refused, eligible}
use openvpn_server.Api.Requests.{Answer, ok, failed, Request, Env, portal_only, is_own_cert}

abbrev pub ip_attempts : ℕ
ip_attempts = 20

-- What the process keeps beside the database.
pub record App : Type 0 where
  pub db : Db
  pub limiter : Limiter

-- The random values of a request.
pub record Fresh : Type 0 where
  pub token : Text
  pub salt : Text

pub record Credentials : Type 0 where
  pub username : Text
  pub password : Text

-- The cookie that is set, and the account.
pub record SignedIn : Type 0 where
  pub cookie : Text
  pub user : SessionUser

-- SELECT * FROM users WHERE username = ?
unfoldable pub find_username : Text → List User → Option User
find_username name [] = none
find_username name (u ∷ users) =
    if text_eq u.username name then some u else find_username name users

-- UPDATE users SET ... WHERE id = ?
abbrev pub set_user : ℕ → (User → User) → Db → Db
set_user id set db = record db { users = update_where (λ u. u.id == id) set db.users }

-- The keys of the limiter: the address, and the address with the user name.
abbrev pub login_key : Env → Request → Text → Text
login_key env r username = r.ip ++ b'|' ∷ env.lowercase username

abbrev pub valid_cert : Outcome (Option Cert) → Option Text → Answer Bool
valid_cert unavailable serial = failed 500
valid_cert refused serial = failed 400
valid_cert (returned cert) serial = ok (is_own_cert cert serial)

-- The certificate of a client account; an administrator needs none.
unfoldable pub valid_client : World → User → Answer Bool
valid_client w u = elim u.client_name [
  | none ↦ ok true
  | some name ↦ valid_cert (eligible w name) u.client_serial
]

abbrev pub on_guest_listener : Request → User → Bool
on_guest_listener r u = elim u.client_name [ none ↦ portal_only r | some name ↦ false ]

abbrev pub refuse : Env → Request → Text → ℕ → App → Answer SignedIn × App
refuse env r username now app = (
  failed 401,
  record app {
    db = add_event now (codes "login_failed") none (some (take 64 username)) (some r.ip) app.db;
  },
)

-- The new session, once the password hash is up to date.
unfoldable pub open_session : Env → Request → Fresh → ℕ → User → App → Answer SignedIn × App
open_session env r fresh now u app =
    let (token, db) =
      create_session env.token_hash fresh.token app.db u.id env.session_ttl now (some r.ip)
        r.user_agent in
    (
      ok (record { cookie = token; user = session_user u }),
      record app {
        db =
            add_event now (codes "login") none (some u.username) (some r.ip)
              (set_user u.id (λ v. record v { last_login = some now }) db);
      },
    )

unfoldable pub rehash : Env → Request → Fresh → ℕ → Text → User → App → Answer SignedIn × App
rehash env r fresh now password u app =
    if needs_rehash u.password_hash
    then (elim (hash_password env.crypto password fresh.salt) [
      | none ↦ (failed 500, app)
      | some hash ↦
          open_session env r fresh now u
            (record app { db = set_user u.id (λ v. record v { password_hash = hash }) app.db })
    ])
    else open_session env r fresh now u app

unfoldable pub check_password :
    Env → Request → Fresh → ℕ → Credentials → User → App → Answer Bool → Answer SignedIn × App
check_password env r fresh now body u app (failed status) = (failed status, app)
check_password env r fresh now body u app (ok valid) =
    if verify_password env.crypto body.password u.password_hash
      && (valid && not (on_guest_listener r u))
    then rehash env r fresh now body.password u (record app {
      limiter = success (login_key env r body.username) (success r.ip app.limiter);
    })
    else refuse env r body.username now app

unfoldable pub check_account :
    Env → World → Request → Fresh → ℕ → Credentials → App → Option User → Answer SignedIn × App
check_account env w r fresh now body app none = refuse env r body.username now app
check_account env w r fresh now body app (some u) =
    check_password env r fresh now body u app (valid_client w u)

unfoldable pub login :
    Env → World → Request → Fresh → ℕ → ℕ → Credentials → App → Answer SignedIn × App
login env w r fresh now clock body app =
    let (wait, limiter) =
      attempt app.limiter clock (r.ip, ip_attempts)
        ((login_key env r body.username, app.limiter.threshold) ∷ []) in
    let counted = record app { limiter = limiter } in
    if ltb 0 wait
    then (failed 429, counted)
    else check_account env w r fresh now body counted (find_username body.username app.db.users)

unfoldable pub logout : Env → Request → Db → Db
logout env r db = delete_session env.token_hash db r.cookie

abbrev pub store_password : Env → Request → ℕ → SessionUser → Text → Db → Db
store_password env r now user hash db =
    add_event now (codes "password_changed") none (some user.username) none (
      delete_user_sessions env.token_hash
        (set_user user.id (λ v. record v { password_hash = hash }) db) user.id r.cookie)

unfoldable pub replace_password :
    Env → Request → Text → ℕ → SessionUser → Text → Text → User → Db → Answer Bool × Db
replace_password env r salt now user current new row db =
    if verify_password env.crypto current row.password_hash
    then (elim (hash_password env.crypto new salt) [
      | none ↦ (failed 500, db)
      | some hash ↦ (ok true, store_password env r now user hash db)
    ])
    else (failed 400, db)

unfoldable pub replace_of :
    Env → Request → Text → ℕ → SessionUser → Text → Text → Db → Option User → Answer Bool × Db
replace_of env r salt now user current new db none = (failed 400, db)
replace_of env r salt now user current new db (some row) =
    replace_password env r salt now user current new row db

unfoldable pub change_password :
    Env → Request → Text → ℕ → SessionUser → Text → Text → Db → Answer Bool × Db
change_password env r salt now user current new db =
    replace_of env r salt now user current new db (find_user user.id db.users)
