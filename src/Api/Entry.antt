-- ===== src/Api/Entry.antt =====
-- ui/app/main.py: who gets in. What a successful sign-in and an accepted request imply, and what a
-- change of the password ends.
use openvpn_server.Base.{
  ℕ, ◌≡◌, ◌⊎◌, inl, inr, refl, sym, ap, Bool, true, false, not, ◌&&◌, Option, none, some, List, [],
  ◌∷◌, arith, Text, text_eq_iff, text_eq_sound, ltb, ◌==◌, Member, Member-delete_where, Bool-cases,
  Option-cases, update_where, subst,
}
use openvpn_server.Db.Schema.{User, WebSession, Db}
use openvpn_server.Db.History.{add_event}
use openvpn_server.Auth.Limiter.{attempt}
use openvpn_server.Auth.Passwords.{hash_password, verify_password, needs_rehash}
use openvpn_server.Auth.WebSessions.{
  SessionUser, session_user, find_user, get_session_user, delete_user_sessions, is_other,
}
use openvpn_server.Relay.Authorize.{World, Cert, Outcome, returned, unavailable, refused, eligible}
use openvpn_server.Api.Requests.{
  Answer, ok, failed, Request, Env, portal_only, is_own_cert, check_client, check_role, check_user,
  signed_in_user,
}
use openvpn_server.Api.Login.{
  ip_attempts, App, Fresh, Credentials, SignedIn, find_username, login_key, valid_cert,
  valid_client, on_guest_listener, open_session, rehash, check_password, check_account, login,
  store_password, replace_password, replace_of, change_password,
}

-- An administrator away from the guests' listener, or a client whose own certificate is valid.
abbrev pub MayEnter : World → Request → Option Text → Option Text → Type 0
MayEnter w r client_name serial =
    ((client_name ≡ none) × (portal_only r ≡ false))
    ⊎ ((name : Text) × (cert : Cert) × (client_name ≡ some name)
        × (eligible w name ≡ returned (some cert))
        × (serial ≡ some cert.serial))

find_username_sound :
    (name : Text) (users : List User) (u : User)
    → find_username name users ≡ some u
    → Member u users × (u.username ≡ name)
unfolding find_username
find_username_sound name [] u h = cc
find_username_sound name (v ∷ users) u h =
    ground (arith, text_eq_iff v.username name, find_username_sound name users u)

is_own_cert_sound :
    (o : Option Cert) (serial : Option Text)
    → is_own_cert o serial ≡ true
    → (cert : Cert) × (o ≡ some cert) × (serial ≡ some cert.serial)
is_own_cert_sound (some cert) (some serial) h =
    (cert, refl, ap some (sym (text_eq_sound cert.serial serial h)))
is_own_cert_sound (some cert) none h = absurd (ground arith)
is_own_cert_sound none serial h = absurd (ground arith)

valid_cert_sound :
    (o : Outcome (Option Cert)) (serial : Option Text)
    → valid_cert o serial ≡ ok true
    → (cert : Cert) × (o ≡ returned (some cert)) × (serial ≡ some cert.serial)
valid_cert_sound unavailable serial h = absurd (ground arith)
valid_cert_sound refused serial h = absurd (ground arith)
valid_cert_sound (returned o) serial h =
    let (cert, e, s) = is_own_cert_sound o serial (ground arith) in (cert, ap returned e, s)

valid_client-MayEnter :
    (w : World) (r : Request) (u : User)
    → valid_client w u ≡ ok true
    → on_guest_listener r u ≡ false
    → MayEnter w r u.client_name u.client_serial
unfolding valid_client
valid_client-MayEnter w r u h g = elim (Option-cases u.client_name) [
  | inl e ↦ inl (e, ground arith)
  | inr (name, e) ↦
      let (cert, o, s) = valid_cert_sound (eligible w name) u.client_serial (rw e at h) in
      inr (name, cert, e, o, s)
]

open_session_user :
    (env : Env) (r : Request) (f : Fresh) (now : ℕ) (u : User) (app : App) (s : SignedIn)
    → (open_session env r f now u app).0 ≡ ok s
    → s.user ≡ session_user u
unfolding open_session
open_session_user env r f now u app s h = ground arith

rehash_user :
    (env : Env) (r : Request) (f : Fresh) (now : ℕ) (password : Text) (u : User) (app : App)
    (s : SignedIn)
    → (rehash env r f now password u app).0 ≡ ok s
    → s.user ≡ session_user u
unfolding rehash
rehash_user env r f now password u app s h = elim (Bool-cases (needs_rehash u.password_hash)) [
  | inr current ↦ open_session_user env r f now u app s (rw current at h)
  | inl old ↦ elim (Option-cases (hash_password env.crypto password f.salt)) [
    | inl e ↦ absurd (ground arith)
    | inr (hash, e) ↦ open_session_user env r f now u _ s (rw (old, e) at h)
  ]
]

abbrev pub IsAllowedIn : Env → World → Request → Credentials → List User → SignedIn → Type 0
IsAllowedIn env w r body users s =
    (u : User) × Member u users
    × (u.username ≡ body.username)
    × (s.user ≡ session_user u)
    × (verify_password env.crypto body.password u.password_hash ≡ true)
    × MayEnter w r u.client_name u.client_serial

check_password_sound :
    (env : Env) (r : Request) (f : Fresh) (now : ℕ) (body : Credentials) (u : User) (app : App)
    (valid : Answer Bool) (s : SignedIn)
    → (check_password env r f now body u app valid).0 ≡ ok s
    → (valid ≡ ok true)
      × (on_guest_listener r u ≡ false)
      × (verify_password env.crypto body.password u.password_hash ≡ true)
      × (s.user ≡ session_user u)
unfolding check_password
check_password_sound env r f now body u app (failed status) s h = absurd (ground arith)
check_password_sound env r f now body u app (ok valid) s h =
    let right = verify_password env.crypto body.password u.password_hash in
    elim (Bool-cases (right && (valid && not (on_guest_listener r u)))) [
      | inr wrong ↦ absurd (ground arith)
      | inl t ↦ (
        ground arith,
        ground arith,
        ground arith,
        rehash_user env r f now body.password u _ s (rw t at h),
      )
    ]

-- A sign-in succeeds only with the name and the password of an account, after the limiter let it go
-- ahead, and for a client only with its own valid certificate, for an administrator only away from
-- the guests' listener.
pub login_sound :
    (env : Env) (w : World) (r : Request) (f : Fresh) (now clock : ℕ) (body : Credentials)
    (app : App) (s : SignedIn)
    → (login env w r f now clock body app).0 ≡ ok s
    → IsAllowedIn env w r body app.db.users s
      × ((attempt app.limiter clock
            (r.ip, ip_attempts)
            ((login_key env r body.username, app.limiter.threshold) ∷ [])).0
          ≡ 0)
unfolding login check_account
login_sound env w r f now clock body app s h =
    let tried =
      attempt app.limiter clock (r.ip, ip_attempts)
        ((login_key env r body.username, app.limiter.threshold) ∷ []) in
    elim (Bool-cases (ltb 0 tried.0)) [
      | inl wait ↦ absurd (ground arith)
      | inr free ↦ elim (Option-cases (find_username body.username app.db.users)) [
        | inl e ↦ absurd (ground arith)
        | inr (u, e) ↦
            let (found, name) = find_username_sound body.username app.db.users u e in
            let (valid, away, right, user) =
              check_password_sound env r f now body u (record app { limiter = tried.1 })
                (valid_client w u) s (rw (free, e) at h) in
            ((u, found, name, user, right, valid_client-MayEnter w r u valid away), ground arith)
      ]
    ]

check_client_sound :
    (env : Env) (cookie : Option Text) (user found : SessionUser) (db : Db)
    (o : Outcome (Option Cert))
    → (check_client env cookie user db o).0 ≡ ok found
    → (found ≡ user)
      × ((cert : Cert) × (o ≡ returned (some cert)) × (user.client_serial ≡ some cert.serial))
unfolding check_client
check_client_sound env cookie user found db unavailable h = absurd (ground arith)
check_client_sound env cookie user found db refused h = absurd (ground arith)
check_client_sound env cookie user found db (returned o) h =
    elim (Bool-cases (is_own_cert o user.client_serial)) [
      | inr other ↦ absurd (ground arith)
      | inl own ↦
          let (cert, e, s) = is_own_cert_sound o user.client_serial own in
          (ground arith, (cert, ap returned e, s))
    ]

check_role_sound :
    (env : Env) (w : World) (r : Request) (user found : SessionUser) (db : Db) (name : Option Text)
    → (check_role env w r user db name).0 ≡ ok found
    → (found ≡ user) × MayEnter w r name user.client_serial
unfolding check_role
check_role_sound env w r user found db none h = elim (Bool-cases (portal_only r)) [
  | inl guests ↦ absurd (ground arith)
  | inr away ↦ (ground arith, inl (refl, away))
]
check_role_sound env w r user found db (some name) h =
    let (same, (cert, o, s)) = check_client_sound env r.cookie user found db (eligible w name) h in
    (same, inr (name, cert, refl, o, s))

-- A request is taken for a user's only if its cookie stands for that user, and the user still may
-- enter: an administrator only away from the guests' listener, a client only while the certificate
-- that the account is bound to is the client's valid one.
pub signed_in_user_sound :
    (env : Env) (w : World) (r : Request) (now : ℕ) (db : Db) (user : SessionUser)
    → (signed_in_user env w r now db).0 ≡ ok user
    → ((get_session_user env.token_hash db r.cookie env.session_ttl true now).0 ≡ some user)
      × MayEnter w r user.client_name user.client_serial
unfolding signed_in_user check_user
signed_in_user_sound env w r now db user h =
    let read = get_session_user env.token_hash db r.cookie env.session_ttl true now in
    elim (Option-cases read.0) [
      | inl e ↦ absurd (ground arith)
      | inr (found, e) ↦
          let (same, may) =
            check_role_sound env w r found user read.1 found.client_name (rw e at h) in
          subst (λ u. (read.0 ≡ some u) × MayEnter w r u.client_name u.client_serial) (sym same)
            (e, may)
    ]

replace_password_sound :
    (env : Env) (r : Request) (salt : Text) (now : ℕ) (user : SessionUser) (current new : Text)
    (row : User) (db : Db)
    → (replace_password env r salt now user current new row db).0 ≡ ok true
    → (verify_password env.crypto current row.password_hash ≡ true)
      × ((hash : Text) × (hash_password env.crypto new salt ≡ some hash)
          × (replace_password env r salt now user current new row db
              ≡ (ok true, store_password env r now user hash db)))
unfolding replace_password
replace_password_sound env r salt now user current new row db h =
    elim (Bool-cases (verify_password env.crypto current row.password_hash)) [
      | inr wrong ↦ absurd (ground arith)
      | inl right ↦ elim (Option-cases (hash_password env.crypto new salt)) [
        | inl e ↦ absurd (ground arith)
        | inr (hash, e) ↦ (right, (hash, e, rw (right, e) refl))
      ]
    ]

kept_session :
    (env : Env) (id : ℕ) (cookie : Option Text) (s : WebSession)
    → is_other env.token_hash id cookie s ≡ false
    → s.user_id ≡ id
    → (token : Text) × (cookie ≡ some token) × (s.token_hash ≡ env.token_hash token)
kept_session env id none s h same = absurd (ground arith)
kept_session env id (some token) s h same =
    (token, refl, ground (arith, text_eq_iff s.token_hash (env.token_hash token)))

-- A change of the password needs the current one, and leaves the user no session but the one that
-- asked for it; the account then has the hash of the new password.
pub change_password_ends :
    (env : Env) (r : Request) (salt : Text) (now : ℕ) (user : SessionUser) (current new : Text)
    (db : Db)
    → (change_password env r salt now user current new db).0 ≡ ok true
    → let db' = (change_password env r salt now user current new db).1 in
      ((row : User) × (hash : Text) × (find_user user.id db.users ≡ some row)
        × (verify_password env.crypto current row.password_hash ≡ true)
        × (hash_password env.crypto new salt ≡ some hash)
        × (db'.users
            ≡ update_where
                (λ u. u.id == user.id)
                (λ u. record u { password_hash = hash })
                db.users))
      × ((s : WebSession)
          → Member s db'.web_sessions
          → s.user_id ≡ user.id
          → ((token : Text) × (r.cookie ≡ some token) × (s.token_hash ≡ env.token_hash token)))
unfolding change_password replace_of delete_user_sessions add_event
change_password_ends env r salt now user current new db h =
    elim (Option-cases (find_user user.id db.users)) [
      | inl e ↦ absurd (ground arith)
      | inr (row, e) ↦
          let (right, (hash, made, eq)) =
            replace_password_sound env r salt now user current new row db (rw e at h) in
          let all : change_password env r salt now user current new db
              ≡ (ok true, store_password env r now user hash db) =
            rw e eq in
          (
            (row, hash, e, right, made, ap (λ a. a.1.users) all),
            λ s m same.
                let m' = subst (λ a. Member s a.1.web_sessions) all m in
                kept_session env user.id r.cookie s
                  (Member-delete_where (is_other env.token_hash user.id r.cookie) s db.web_sessions
                    m').1
                  same,
          )
    ]
