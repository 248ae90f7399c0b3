-- ===== src/Tests/Login.antt =====
-- ui/app/auth.py: a limiter, a web session and a password, and the theorems about them.
use openvpn_server.Base.{
  ℕ, zero, suc, ◌≡◌, ◌≤◌, ◌<◌, ◌⊎◌, refl, ap, true, false, none, some, [], ◌∷◌, ◌+◌, ◌-◌, ◌*◌,
  arith, Text, codes, length, Member, max, text_eq, contains_code, nonempty,
}
use openvpn_server.Db.Schema.{User, WebSession, Db}
use openvpn_server.Auth.Limiter.{second, Limiter, attempt}
use openvpn_server.Auth.Backoff.{blocked_until, attempt_verdict, attempt-bounded}
use openvpn_server.Auth.Parallel.{granted, granted-le-threshold}
use openvpn_server.Auth.WebSessions.{
  session_user, find_web_session, find_user, join_user, session_row, get_session_user,
}
use openvpn_server.Auth.Cookies.{get_session_user_sound}
use openvpn_server.Auth.Passwords.{
  Crypto, IsBase64, hash_password, stored_text, verify_password, needs_rehash,
  verify_password-hash_password,
}

abbrev address : Text
address = codes "ip:198.51.100.7"

abbrev account : Text
account = codes "user:admin"

-- The address has failed four times, the account five.
abbrev limiter : Limiter
limiter = record {
  threshold = 5;
  max_delay = 900;
  max_keys = 2;
  forget = 3600;
  state =
      (record { key = address; failures = 4; until = 0 })
      ∷ (record { key = account; failures = 5; until = 9 * second })
      ∷ [];
}

attempt_verdict_example :
    let (wait, l') = attempt limiter (8 * second) (address, 5) ((account, 20) ∷ []) in
    ((wait ≡ 0)
      × ((p : Text × ℕ)
          → Member p ((address, 5) ∷ (account, 20) ∷ [])
          → blocked_until p.0 limiter ≤ 8 * second))
    ⊎ ((0 < wait)
        × (l' ≡ limiter)
        × ((p : Text × ℕ) × Member p ((address, 5) ∷ (account, 20) ∷ [])
            × (8 * second < blocked_until p.0 limiter))
        × ((p : Text × ℕ)
            → Member p ((address, 5) ∷ (account, 20) ∷ [])
            → blocked_until p.0 limiter ≤ 8 * second + wait * second))
attempt_verdict_example = attempt_verdict limiter (8 * second) (address, 5) ((account, 20) ∷ [])

attempt-bounded_example : length (attempt limiter (8 * second) (codes "ip:new", 5) []).1.state ≤ 2
attempt-bounded_example = attempt-bounded limiter (8 * second) (codes "ip:new", 5) [] (omega arith)

granted-le-threshold_example : granted 100 limiter (8 * second) address ≤ max 1 5
granted-le-threshold_example =
    granted-le-threshold 100 limiter (8 * second) address (omega arith) (omega arith)

abbrev token_hash : Text → Text
token_hash t = 35 ∷ t

abbrev ann : User
ann = record {
  id = 1;
  username = codes "ann";
  password_hash = [];
  created_at = 0;
  last_login = none;
  client_name = some (codes "ann");
  client_serial = none;
}

abbrev stored : WebSession
stored = record {
  token_hash = token_hash (codes "abc");
  user_id = 1;
  created_at = 0;
  expires_at = 100;
  ip = none;
  user_agent = none;
}

abbrev db : Db
db = record {
  users = ann ∷ [];
  next_user = 2;
  web_sessions = stored ∷ [];
  settings = [];
  clients = [];
  hidden_certs = [];
  vpn_sessions = [];
  next_session = 1;
  relay_sessions = [];
  traffic_minute = [];
  traffic_hour = [];
  traffic_day = [];
  events = [];
  next_event = 1;
  archived_clients = [];
  rejections = [];
  share_tokens = [];
}

get_session_user_sound_example :
    (s : WebSession) × (u : User) × Member s db.web_sessions
    × Member u db.users
    × (s.token_hash ≡ token_hash (codes "abc"))
    × (60 ≤ s.expires_at)
    × (u.id ≡ s.user_id)
    × (session_user ann ≡ session_user u)
    × (nonempty (codes "abc") ≡ true)
unfolding get_session_user session_row join_user find_web_session find_user text_eq
get_session_user_sound_example =
    get_session_user_sound token_hash db (codes "abc") 100 60 true (session_user ann) refl

unfoldable pub repeated : ℕ → Text
repeated zero = []
repeated (suc n) = 65 ∷ repeated n

length-repeated : (n : ℕ) → length (repeated n) ≡ n
unfolding repeated
length-repeated zero = refl
length-repeated (suc n) = omega (arith, length-repeated n)

unfoldable pub shifted : Text → Text
shifted [] = []
shifted (c ∷ s) = (c + 37) ∷ shifted s

unfoldable pub shifted_back : Text → Text
shifted_back [] = []
shifted_back (c ∷ s) = (c - 37) ∷ shifted_back s

shifted_back-shifted : (s : Text) → shifted_back (shifted s) ≡ s
unfolding shifted shifted_back
shifted_back-shifted [] = refl
shifted_back-shifted (c ∷ s) = ground (arith, shifted_back-shifted s)

shifted_lem : (s : Text) → contains_code (shifted s) b'$' ≡ false
unfolding shifted contains_code
shifted_lem [] = refl
shifted_lem (c ∷ s) = ground (arith, shifted_lem s)

-- A digest that does not depend on the password, and an encoding that adds 37 to each code.
abbrev pub crypto : Crypto
crypto = record {
  scrypt = λ p s n r q len. some (repeated len);
  b64encode = shifted;
  b64decode = λ t. some (shifted_back t);
}

laws : IsBase64 crypto
laws = record { decode = λ b. ap some (shifted_back-shifted b); alphabet = shifted_lem }

abbrev pub hash : Text
hash = stored_text crypto (codes "salt") (repeated 32)

verify_password-hash_password_example :
    (verify_password crypto (codes "secret") hash ≡ true) × (needs_rehash hash ≡ false)
unfolding hash_password
verify_password-hash_password_example =
    verify_password-hash_password crypto (codes "secret") (codes "salt") hash laws
      (λ p s d n r q len e. ground (arith, length-repeated len)) refl

-- The digest accepts every password, and the hash needs no new one.
pub accepted :
    (password : Text) → (verify_password crypto password hash ≡ true) × (needs_rehash hash ≡ false)
unfolding hash_password
accepted password =
    verify_password-hash_password crypto password (codes "salt") hash laws
      (λ p s d n r q len e. ground (arith, length-repeated len)) refl
