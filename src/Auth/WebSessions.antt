-- ===== src/Auth/WebSessions.antt =====
-- ui/app/auth.py: cookie sessions. The token hash is a parameter, and so are the token that
-- `secrets` draws and the time.
use openvpn_server.Base.{
  ℕ, ◌+◌, ◌-◌, ◌/◌, Bool, true, not, ◌&&◌, Option, none, some, List, [], ◌∷◌, ◌++◌, Text, text_eq,
  nonempty, if◌then◌else◌, ltb, ◌==◌, delete_where, update_where, take, coalesce, is_some,
}
use openvpn_server.Db.Schema.{Db, User, WebSession}

pub data Role : Type 0 where
  client admin : Role

pub record SessionUser : Type 0 where
  pub id : ℕ
  pub username : Text
  pub client_name : Option Text
  pub client_serial : Option Text
  pub role : Role

abbrev pub session_user : User → SessionUser
session_user u = record {
  id = u.id;
  username = u.username;
  client_name = u.client_name;
  client_serial = u.client_serial;
  role = if is_some u.client_name then client else admin;
}

unfoldable pub find_web_session : Text → List WebSession → Option WebSession
find_web_session hash [] = none
find_web_session hash (s ∷ rows) =
    if text_eq s.token_hash hash then some s else find_web_session hash rows

unfoldable pub find_user : ℕ → List User → Option User
find_user id [] = none
find_user id (u ∷ rows) = if u.id == id then some u else find_user id rows

unfoldable pub join_user : List User → Option WebSession → Option (WebSession × User)
join_user users none = none
join_user users (some s) = elim (find_user s.user_id users) [ none ↦ none | some u ↦ some (s, u) ]

-- The row of the JOIN: the session with this hash and its user.
unfoldable pub session_row : Db → Text → Option (WebSession × User)
session_row db hash = join_user db.users (find_web_session hash db.web_sessions)

abbrev pub extend_session : Text → ℕ → Db → Db
extend_session hash expires db = record db {
  web_sessions =
      update_where (λ s. text_eq s.token_hash hash) (λ s. record s { expires_at = expires })
        db.web_sessions;
}

module _ (token_hash : Text → Text) where
  unfoldable pub create_session : Text → Db → ℕ → ℕ → ℕ → Option Text → Option Text → Text × Db
  create_session token db user_id ttl now ip user_agent = (
    token,
    record db {
      web_sessions =
          db.web_sessions
          ++ (record {
            token_hash = token_hash token;
            user_id = user_id;
            created_at = now;
            expires_at = now + ttl;
            ip = ip;
            user_agent = some (take 200 (coalesce user_agent []));
          })
            ∷ [];
    },
  )

  unfoldable pub get_session_user : Db → Option Text → ℕ → Bool → ℕ → Option SessionUser × Db
  get_session_user db none ttl extend now = (none, db)
  get_session_user db (some token) ttl extend now =
      if not (nonempty token) then (none, db) else (elim (session_row db (token_hash token)) [
        | none ↦ (none, db)
        | some (s, u) ↦ if ltb s.expires_at now then (none, db) else (
          some (session_user u),
          if extend && ltb (s.expires_at - now) (ttl / 2)
              then extend_session s.token_hash (now + ttl) db
              else db,
        )
      ])

  unfoldable pub delete_session : Db → Option Text → Db
  delete_session db none = db
  delete_session db (some token) =
      if nonempty token
      then record db {
        web_sessions = delete_where (λ s. text_eq s.token_hash (token_hash token)) db.web_sessions;
      }
      else db

  -- An empty token to keep is as none.
  abbrev pub is_other : ℕ → Option Text → WebSession → Bool
  is_other user_id none s = s.user_id == user_id
  is_other user_id (some keep) s =
      s.user_id == user_id
      && (if nonempty keep then not (text_eq s.token_hash (token_hash keep)) else true)

  unfoldable pub delete_user_sessions : Db → ℕ → Option Text → Db
  delete_user_sessions db user_id keep = record db {
    web_sessions = delete_where (is_other user_id keep) db.web_sessions;
  }
