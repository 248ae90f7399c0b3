-- ===== src/Api/Portal.antt =====
-- ui/app/main.py: the table of the accounts under set_portal_account and remove_portal_account.
use openvpn_server.Base.{
  ℕ, ◌≡◌, ◌≢◌, ◌⊎◌, inl, inr, refl, ap, true, Option, none, some, arith, Text, codes, text_eq,
  text_eq_refl, Member, Member-delete_where, Member-snoc, Member-update_where, Member-snoc_self,
  Bool-cases, Option-cases, ◌==◌, ==_iff,
}
use openvpn_server.Db.Schema.{User, WebSession, Db}
use openvpn_server.Db.History.{add_event}
use openvpn_server.Auth.Passwords.{hash_password}
use openvpn_server.Auth.WebSessions.{SessionUser}
use openvpn_server.Relay.Authorize.{World, Cert, Outcome, returned, unavailable, refused, eligible}
use openvpn_server.Pki.Clients.{PkiDir}
use openvpn_server.Api.Requests.{Answer, ok, failed, Answer-cases, Env}
use openvpn_server.Api.Login.{find_username}
use openvpn_server.Api.Accounts.{
  find_client, with_client, is_account_of, find_account, account_row, put_account, is_taken,
  put_portal, set_portal_of, put_hashed, logged, set_portal_account,
}
use openvpn_server.Api.Distinct.{
  IsAccounts, untaken, ==_refl, OnlyOne, find_account_sound, find_account-none, clash_none, renamed,
  put_row, Member-put_row, IsDistinct-put, IsDistinct-append,
}

module _ (now : ℕ) (name username hash serial : Text) (db : Db) where
  -- Each account with the user name is the client's.
  abbrev IsFree : Type 0
  IsFree =
      (v : User)
      → Member v db.users
      → text_eq v.username username ≡ true
      → is_account_of name v ≡ true

  put_new-IsAccounts :
      IsAccounts db
      → IsFree
      → find_account name db.users ≡ none
      → IsAccounts (put_account now name username hash serial none db)
  unfolding put_account
  put_new-IsAccounts (d, below, sessions) own e =
      let r = account_row db.next_user now name username hash serial in
      (
        IsDistinct-append db.users r d (λ v m. ground (
          arith,
          below v m,
          own v m,
          find_account-none name db.users v e m,
          ==_iff v.id db.next_user,
          clash_none name v.client_name r refl,
        )),
        λ v m. elim (Member-snoc v r db.users m) [
          | inl old ↦ omega (arith, below v old)
          | inr is ↦ omega (arith, ap (λ (u : User). u.id) is)
        ],
        λ s m. omega (arith, sessions s m),
      )

  put_row-id : (row u : User) → (put_row name username hash serial row u).id ≡ u.id
  put_row-id row u = ground arith

  put_old-IsAccounts :
      (row : User)
      → IsAccounts db
      → IsFree
      → ((v : User) → Member v db.users → OnlyOne name row v)
      → IsAccounts (put_account now name username hash serial (some row) db)
  unfolding put_account
  put_old-IsAccounts row (d, below, sessions) own only = (
    IsDistinct-put name username hash serial row db.users (λ v m. (only v m, own v m)) d,
    λ v m.
        let (u, n, e) = Member-put_row name username hash serial row v db.users m in
        omega (arith, below u n, ap (λ (w : User). w.id) e, put_row-id row u),
    λ s m. sessions s (Member-delete_where (λ t. t.user_id == row.id) s db.web_sessions m).0,
  )

  -- The account of the client, with the password's hash and the certificate, and without sessions.
  abbrev pub IsBound : Db → Type 0
  IsBound db' =
      IsAccounts db'
      × ((u : User) × Member u db'.users
          × (is_account_of name u ≡ true)
          × (u.username ≡ username)
          × (u.password_hash ≡ hash)
          × (u.client_serial ≡ some serial)
          × ((s : WebSession) → Member s db'.web_sessions → s.user_id ≢ u.id))

  put_new-IsBound :
      IsAccounts db
      → IsFree
      → find_account name db.users ≡ none
      → IsBound (put_account now name username hash serial none db)
  unfolding put_account
  put_new-IsBound (d, below, sessions) own e = (
    put_new-IsAccounts (d, below, sessions) own e,
    (
      account_row db.next_user now name username hash serial,
      Member-snoc_self _ db.users,
      text_eq_refl name,
      refl,
      refl,
      refl,
      λ s m. ground (arith, sessions s m),
    ),
  )

  put_old-IsBound :
      (row : User)
      → IsAccounts db
      → IsFree
      → Member row db.users
      → is_account_of name row ≡ true
      → ((v : User) → Member v db.users → OnlyOne name row v)
      → IsBound (put_account now name username hash serial (some row) db)
  unfolding put_account
  put_old-IsBound row ready own m mine only = (
    put_old-IsAccounts row ready own only,
    (
      renamed name username hash serial row row,
      Member-update_where (λ u. u.id == row.id) (renamed name username hash serial row) row db.users
          m (==_refl row.id),
      mine,
      refl,
      refl,
      refl,
      λ s k.
          let (kept, other) = Member-delete_where (λ t. t.user_id == row.id) s db.web_sessions k in
          ground (arith, ==_iff s.user_id row.id),
    ),
  )

  -- Setting an account keeps user names, ids and clients unique.
  put_portal-IsBound :
      IsAccounts db
      → let a = put_portal now name username hash serial db in
        (a ≡ (failed 400, db)) ⊎ ((a.0 ≡ ok username) × IsBound a.1)
  unfolding put_portal
  put_portal-IsBound (d, below, sessions) =
      elim (Bool-cases (is_taken name (find_username username db.users))) [
        | inl taken ↦ inl (rw taken refl)
        | inr free ↦
            let own = untaken name username db.users d free in
            elim (Option-cases (find_account name db.users)) [
              | inl e ↦ rw (free, e) (inr (refl, put_new-IsBound (d, below, sessions) own e))
              | inr (row, e) ↦
                  let (m, mine, only) = find_account_sound name db.users row d e in
                  rw (free, e)
                    (inr (refl, put_old-IsBound row (d, below, sessions) own m mine only))
            ]
      ]

set_portal_of_binds :
    (env : Env) (salt : Text) (now : ℕ) (name username password : Text) (o : Outcome (Option Cert))
    (db : Db)
    → IsAccounts db
    → let a = set_portal_of env salt now name username password o db in
      ((status : ℕ) × (a ≡ (failed status, db)))
      ⊎ ((cert : Cert) × (hash : Text) × (o ≡ returned (some cert))
          × (hash_password env.crypto password salt ≡ some hash)
          × (a.0 ≡ ok username)
          × IsBound now name username hash cert.serial db a.1)
unfolding set_portal_of put_hashed
set_portal_of_binds env salt now name username password unavailable db ready = inl (500, refl)
set_portal_of_binds env salt now name username password refused db ready = inl (400, refl)
set_portal_of_binds env salt now name username password (returned none) db ready = inl (400, refl)
set_portal_of_binds env salt now name username password (returned (some cert)) db ready =
    elim (Option-cases (hash_password env.crypto password salt)) [
      | inl e ↦ rw e (inl (500, refl))
      | inr (hash, e) ↦
          rw e (elim (put_portal-IsBound now name username hash cert.serial db ready) [
            | inl taken ↦ inl (400, taken)
            | inr (done, bound) ↦ inr (cert, hash, refl, refl, done, bound)
          ])
    ]

logged-IsBound :
    (now t : ℕ) (kind name username hash serial : Text) (user : SessionUser) (db : Db)
    (a : Answer Text × Db)
    → a.0 ≡ ok username
    → IsBound now name username hash serial db a.1
    → let b = logged t kind user name a in
      (b.0 ≡ ok username) × IsBound now name username hash serial db b.1
unfolding logged add_event
logged-IsBound now t kind name username hash serial user db (failed status, db') e bound =
    absurd (ground arith)
logged-IsBound now t kind name username hash serial user db (ok x, db') e bound = (e, bound)

-- A portal account is set or nothing changes. An account that is set is the client's, has the user
-- name, a hash of the password and the serial of the client's valid certificate, and has no session;
-- user names, ids and clients stay unique.
pub set_portal_account_binds :
    (env : Env) (w : World) (dir : PkiDir) (salt : Text) (now : ℕ) (user : SessionUser)
    (name username password : Text) (db : Db)
    → IsAccounts db
    → let a = set_portal_account env w dir salt now user name username password db in
      ((status : ℕ) × (a ≡ (failed status, db)))
      ⊎ ((cert : Cert) × (hash : Text) × (eligible w name ≡ returned (some cert))
          × (hash_password env.crypto password salt ≡ some hash)
          × (a.0 ≡ ok username)
          × IsBound now name username hash cert.serial db a.1)
unfolding set_portal_account with_client logged add_event
set_portal_account_binds env w dir salt now user name username password db ready =
    elim (Answer-cases (find_client now dir name db)) [
      | inl (status, e) ↦ rw e (inl (status, refl))
      | inr (row, e) ↦
          rw e
            (elim (set_portal_of_binds env salt now name username password (eligible w name) db
              ready) [
                | inl (status, same) ↦ inl (status, rw same refl)
                | inr (cert, hash, may, made, done, bound) ↦
                    let (same, found) =
                      logged-IsBound now now (codes "portal_access_set") name username hash
                        cert.serial user db _ done bound in
                    inr (cert, hash, may, made, same, found)
              ])
    ]
