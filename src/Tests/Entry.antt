-- ===== src/Tests/Entry.antt =====
-- ui/app/main.py: sign-in, requests, the change of a password and download links, and the theorems
-- about them.
use openvpn_server.Base.{
  ℕ, ◌≡◌, ◌≤◌, ◌+◌, refl, true, none, some, [], ◌∷◌, arith, Text, codes, text_eq, Member, length,
  update_where, ◌==◌,
}
use openvpn_server.Db.Schema.{User, WebSession, ShareToken, Db}
use openvpn_server.Auth.Limiter.{Limiter, attempt, entry_of, longest_wait}
use openvpn_server.Auth.Passwords.{hash_password, verify_password}
use openvpn_server.Auth.WebSessions.{
  session_user, get_session_user, find_user, find_web_session, join_user, session_row,
  create_session,
}
use openvpn_server.Pki.Names.{is_valid_name, matches_name, all_name_chars, is_reserved}
use openvpn_server.Relay.Authorize.{eligible, eligible_cert}
use openvpn_server.Api.Requests.{
  ok, Request, Env, check_client, check_role, check_user, signed_in_user,
}
use openvpn_server.Api.Login.{
  ip_attempts, App, Fresh, Credentials, SignedIn, find_username, login_key, valid_client,
  open_session, rehash, check_password, check_account, login, replace_of, replace_password,
  change_password,
}
use openvpn_server.Api.Entry.{
  MayEnter, IsAllowedIn, login_sound, signed_in_user_sound, change_password_ends,
}
use openvpn_server.Api.Delivery.{looks, sends, Step, run, times, unused, traces, run-delivers_once}
use openvpn_server.Tests.Login.{crypto, hash, accepted}
use openvpn_server.Tests.Access.{world}

abbrev pub env : Env
env = record {
  crypto = crypto;
  token_hash = λ t. 35 ∷ t;
  lowercase = λ t. t;
  netloc = λ t. t;
  session_ttl = 100;
}

abbrev request : Request
request = record {
  ip = codes "ip:7";
  cookie = some (codes "abc");
  portal_header = none;
  requested_with = some (codes "fetch");
  origin = none;
  host = codes "vpn";
  user_agent = none;
}

abbrev pub ann : User
ann = record {
  id = 1;
  username = codes "ann";
  password_hash = hash;
  created_at = 0;
  last_login = none;
  client_name = some (codes "ann");
  client_serial = some (codes "01");
}

abbrev pub session : ℕ → Text → WebSession
session id token = record {
  token_hash = 35 ∷ token;
  user_id = id;
  created_at = 0;
  expires_at = 100;
  ip = none;
  user_agent = none;
}

abbrev pub link : ShareToken
link = record {
  token_hash = codes "#link";
  client_name = codes "ann";
  created_at = 0;
  expires_at = 100;
  used_at = none;
  created_by = none;
}

abbrev pub db : Db
db = record {
  users = ann ∷ [];
  next_user = 2;
  web_sessions = session 1 (codes "abc") ∷ session 1 (codes "old") ∷ [];
  settings = [];
  clients = [];
  hidden_certs = [];
  vpn_sessions = [];
  next_session = 1;
  relay_sessions = [];
  traffic_minute = [];
  traffic_hour = [];
  traffic_day = [];
  events = [];
  next_event = 1;
  archived_clients = [];
  rejections = [];
  share_tokens = link ∷ [];
}

abbrev limiter : Limiter
limiter = record { threshold = 5; max_delay = 900; max_keys = 9; forget = 3600; state = [] }

abbrev app : App
app = record { db = db; limiter = limiter }

abbrev body : Credentials
body = record { username = codes "ann"; password = codes "secret" }

abbrev fresh : Fresh
fresh = record { token = codes "new"; salt = codes "salt" }

abbrev signed : SignedIn
signed = record { cookie = codes "new"; user = session_user ann }

signs_in : (login env world request fresh 60 0 body app).0 ≡ ok signed
unfolding login check_account find_username text_eq valid_client eligible eligible_cert
    is_valid_name matches_name all_name_chars is_reserved check_password rehash open_session attempt
    entry_of longest_wait create_session
signs_in = let (right, current) = accepted (codes "secret") in rw (right, current) refl

login_sound_example :
    IsAllowedIn env world request body db.users signed
    × ((attempt limiter 0
          (codes "ip:7", ip_attempts)
          ((login_key env request (codes "ann"), 5) ∷ [])).0
        ≡ 0)
login_sound_example = login_sound env world request fresh 60 0 body app signed signs_in

signed_in_user_sound_example :
    ((get_session_user env.token_hash db (some (codes "abc")) 100 true 60).0
      ≡ some (session_user ann))
    × MayEnter world request (some (codes "ann")) (some (codes "01"))
unfolding signed_in_user check_user check_role check_client get_session_user session_row join_user
    find_web_session find_user text_eq eligible eligible_cert is_valid_name matches_name
    all_name_chars is_reserved
signed_in_user_sound_example = signed_in_user_sound env world request 60 db (session_user ann) refl

steps : Step
steps = looks (λ name. true) request 60 0 (codes "link")

-- Two requests look at the same link and both try to use it.
run-delivers_once_example :
    let s =
      run env
        (steps ∷ steps ∷ sends 0 (codes "a") request 61 ∷ sends 1 (codes "b") request 62 ∷ [])
        (record { app = app; jobs = []; delivered = [] }) in
    (times env (codes "#link") s.delivered ≤ 1)
    × (length s.delivered + traces db.events ≡ traces s.app.db.events)
unfolding unused text_eq
run-delivers_once_example =
    run-delivers_once env (codes "#link")
      (steps ∷ steps ∷ sends 0 (codes "a") request 61 ∷ sends 1 (codes "b") request 62 ∷ []) app
      (omega arith)

changed :
    (change_password env request
      (codes "salt")
      60
      (session_user ann)
      (codes "secret")
      (codes "fresh")
      db).0
    ≡ ok true
unfolding change_password replace_of find_user replace_password hash_password
changed = let (right, current) = accepted (codes "secret") in rw right refl

change_password_ends_example :
    let db' =
      (change_password env request
        (codes "salt")
        60
        (session_user ann)
        (codes "secret")
        (codes "fresh")
        db).1 in
    ((row : User) × (new_hash : Text) × (find_user 1 db.users ≡ some row)
      × (verify_password crypto (codes "secret") row.password_hash ≡ true)
      × (hash_password crypto (codes "fresh") (codes "salt") ≡ some new_hash)
      × (db'.users
          ≡ update_where (λ u. u.id == 1) (λ u. record u { password_hash = new_hash }) db.users))
    × ((s : WebSession)
        → Member s db'.web_sessions
        → s.user_id ≡ 1
        → ((token : Text) × (some (codes "abc") ≡ some token) × (s.token_hash ≡ 35 ∷ token)))
change_password_ends_example =
    change_password_ends env request (codes "salt") 60 (session_user ann) (codes "secret")
      (codes "fresh") db changed
