-- ===== src/Auth/Cookies.antt =====
-- ui/app/auth.py: who a session cookie stands for, and how sessions end.
use openvpn_server.Base.{
  ℕ, ◌+◌, ◌≤◌, ◌≡◌, ◌≢◌, inl, inr, refl, ap, sym, ◌∙◌, Bool, true, false, Option, none, some, List,
  [], ◌∷◌, ◌++◌, arith, Text, text_eq, text_eq_iff, nonempty, if◌then◌else◌, ltb, delete_where,
  Member, Option-cases,
}
use openvpn_server.Db.Schema.{Db, User, WebSession}
use openvpn_server.Auth.WebSessions.{
  SessionUser, session_user, find_web_session, find_user, create_session, session_row, join_user,
  get_session_user, delete_session,
}

find_web_session_sound :
    (hash : Text) (rows : List WebSession) (s : WebSession)
    → find_web_session hash rows ≡ some s
    → Member s rows × (s.token_hash ≡ hash)
unfolding find_web_session
find_web_session_sound hash [] s h = cc
find_web_session_sound hash (r ∷ rows) s h =
    ground (arith, text_eq_iff r.token_hash hash, find_web_session_sound hash rows s)

find_user_sound :
    (id : ℕ) (rows : List User) (u : User)
    → find_user id rows ≡ some u
    → Member u rows × (u.id ≡ id)
unfolding find_user
find_user_sound id [] u h = cc
find_user_sound id (r ∷ rows) u h = ground (arith, find_user_sound id rows u)

find_web_session-delete :
    (hash : Text) (rows : List WebSession)
    → find_web_session hash (delete_where (λ s. text_eq s.token_hash hash) rows) ≡ none
unfolding find_web_session delete_where
find_web_session-delete hash [] = refl
find_web_session-delete hash (r ∷ rows) = ground (arith, find_web_session-delete hash rows)

find_web_session-delete_ne :
    (hash gone : Text) (rows : List WebSession)
    → hash ≢ gone
    → find_web_session hash (delete_where (λ s. text_eq s.token_hash gone) rows)
      ≡ find_web_session hash rows
unfolding find_web_session delete_where
find_web_session-delete_ne hash gone [] ne = refl
find_web_session-delete_ne hash gone (r ∷ rows) ne = ground (
  arith,
  text_eq_iff r.token_hash gone,
  text_eq_iff r.token_hash hash,
  find_web_session-delete_ne hash gone rows ne,
)

find_web_session-append :
    (hash : Text) (rows : List WebSession) (s : WebSession)
    → find_web_session hash rows ≡ none
    → s.token_hash ≡ hash
    → find_web_session hash (rows ++ s ∷ []) ≡ some s
unfolding find_web_session
find_web_session-append hash [] s fresh same = ground (arith, text_eq_iff s.token_hash hash)
find_web_session-append hash (r ∷ rows) s fresh same =
    ground (arith, find_web_session-append hash rows s)

-- What `get_session_user` answers, given the row that it reads.
answer : Bool → Option (WebSession × User) → ℕ → Option SessionUser
answer false row now = none
answer true none now = none
answer true (some (s, u)) now = if ltb s.expires_at now then none else some (session_user u)

session_row_of :
    (db : Db) (hash : Text) (s : WebSession) (u : User)
    → find_web_session hash db.web_sessions ≡ some s
    → find_user s.user_id db.users ≡ some u
    → session_row db hash ≡ some (s, u)
unfolding session_row join_user
session_row_of db hash s u hs hu = ground arith

session_row-same :
    (db db' : Db) (hash : Text)
    → db'.users ≡ db.users
    → find_web_session hash db'.web_sessions ≡ find_web_session hash db.web_sessions
    → session_row db' hash ≡ session_row db hash
unfolding session_row
session_row-same db db' hash hu hs = rw (hs, hu)

session_row-none :
    (db : Db) (hash : Text)
    → find_web_session hash db.web_sessions ≡ none
    → session_row db hash ≡ none
unfolding session_row join_user
session_row-none db hash h = rw h

module _ (token_hash : Text → Text) where
  get_session_user-answer :
      (db : Db) (token : Text) (ttl now : ℕ) (extend : Bool)
      → (get_session_user token_hash db (some token) ttl extend now).0
        ≡ answer (nonempty token) (session_row db (token_hash token)) now
  unfolding get_session_user answer
  get_session_user-answer db token ttl now extend = ground arith

  -- A cookie stands for a user only if a session with the hash of its token is stored, has not
  -- expired and belongs to that user; the user is a client exactly when the account has a client
  -- name, and an administrator else.
  pub get_session_user_sound :
      (db : Db) (token : Text) (ttl now : ℕ) (extend : Bool) (found : SessionUser)
      → (get_session_user token_hash db (some token) ttl extend now).0 ≡ some found
      → (s : WebSession) × (u : User) × Member s db.web_sessions
        × Member u db.users
        × (s.token_hash ≡ token_hash token)
        × (now ≤ s.expires_at)
        × (u.id ≡ s.user_id)
        × (found ≡ session_user u)
        × (nonempty token ≡ true)
  unfolding get_session_user session_row join_user
  get_session_user_sound db token ttl now extend found h =
      elim (Option-cases (find_web_session (token_hash token) db.web_sessions)) [
        | inl missing ↦ absurd (ground arith)
        | inr (s, es) ↦ elim (Option-cases (find_user s.user_id db.users)) [
          | inl unknown ↦ absurd (ground arith)
          | inr (u, eu) ↦
              let (ms, hs) = find_web_session_sound (token_hash token) db.web_sessions s es in
              let (mu, iu) = find_user_sound s.user_id db.users u eu in
              (s, u, ms, mu, hs, ground arith, iu, ground arith, ground arith)
        ]
      ]

  deleted :
      (db : Db) (token : Text)
      → nonempty token ≡ true
      → delete_session token_hash db (some token) ≡ record db {
        web_sessions = delete_where (λ s. text_eq s.token_hash (token_hash token)) db.web_sessions;
      }
  unfolding delete_session
  deleted db token n = rw n

  -- After `delete_session` a nonempty token stands for nobody, and every token with another hash
  -- still stands for whom it did.
  delete_session_ends :
      (db : Db) (token other : Text) (ttl now : ℕ) (extend : Bool)
      → nonempty token ≡ true
      → token_hash other ≢ token_hash token
      → let db' = delete_session token_hash db (some token) in
        ((get_session_user token_hash db' (some token) ttl extend now).0 ≡ none)
        × ((get_session_user token_hash db' (some other) ttl extend now).0
            ≡ (get_session_user token_hash db (some other) ttl extend now).0)
  delete_session_ends db token other ttl now extend n ne =
      let db' = record db {
        web_sessions = delete_where (λ s. text_eq s.token_hash (token_hash token)) db.web_sessions;
      } in
      rw (deleted db token n) (
        get_session_user-answer db' token ttl now extend
            ∙ unfold answer in
              rw (
                session_row-none db' (token_hash token)
                    (find_web_session-delete (token_hash token) db.web_sessions),
                n,
              ),
        get_session_user-answer db' other ttl now extend
            ∙ ap (λ row. answer (nonempty other) row now)
                (session_row-same db db' (token_hash other) refl (
                  find_web_session-delete_ne (token_hash other) (token_hash token) db.web_sessions
                    ne))
            ∙ sym (get_session_user-answer db other ttl now extend),
      )

  -- A session that was just created for a known user is found until its lifetime has passed, if no
  -- stored session has the hash of its token, which is not empty.
  create_session-get :
      (db : Db) (token : Text) (user_id ttl now later : ℕ) (ip agent : Option Text) (u : User)
      → nonempty token ≡ true
      → find_web_session (token_hash token) db.web_sessions ≡ none
      → find_user user_id db.users ≡ some u
      → later ≤ now + ttl
      → let (cookie, db') = create_session token_hash token db user_id ttl now ip agent in
        (get_session_user token_hash db' (some cookie) ttl true later).0 ≡ some (session_user u)
  unfolding answer create_session
  create_session-get db token user_id ttl now later ip agent u n fresh known live =
      let (cookie, db') = create_session token_hash token db user_id ttl now ip agent in
      rw
        (
          get_session_user-answer db' token ttl later true,
          n,
          session_row_of db' (token_hash token) _ u
              (find_web_session-append (token_hash token) db.web_sessions _ fresh refl) known,
        )
        (ground arith)
