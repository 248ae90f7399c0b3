-- ===== src/Api/Removal.antt =====
-- ui/app/main.py: what a revoked and what a deleted client still can do.
use openvpn_server.Base.{
  ℕ, ◌≡◌, ◌≢◌, ◌⊎◌, inl, inr, refl, sym, ap, map, ◌∙◌, Bool, true, false, not, ◌||◌, Option, none,
  some, List, [], ◌∷◌, ◌++◌, arith, Text, codes, text_eq, text_eq_iff, text_eq_refl, if◌then◌else◌,
  any, any-append, any-snoc, Member, Member-delete_where, Bool-cases, Option-cases, subst, ◌==◌,
}
use openvpn_server.Db.Schema.{User, HiddenCert, ClientRow, ShareToken, Db}
use openvpn_server.Db.History.{add_event}
use openvpn_server.Auth.WebSessions.{SessionUser}
use openvpn_server.Pki.Clients.{revoked, CertState, IndexEntry, Listed, PkiDir, list_revoked}
use openvpn_server.Mgmt.Command.{Management, Reply, success, management_error, index_error, kill}
use openvpn_server.Relay.Authorize.{
  Cert, World, Outcome, returned, Policy, grant_key, authorize_client, after_setting,
}
use openvpn_server.Relay.Authorize
use openvpn_server.Relay.Access.{get_setting_in-delete}
use openvpn_server.Api.Requests.{ok, failed, Answer-cases}
use openvpn_server.Api.Distinct.{IsAccounts, find_account_sound, find_account-none}
use openvpn_server.Api.Accounts.{
  hidden_serials, find_client, with_client, is_account_of, find_account, remove_account,
  disable_portal,
}
use openvpn_server.Api.Lifecycle.{
  Script, Console, is_state, is_reason, cut, after_kill, revoke_row, revoke, hide_certs, serials_of,
  forget_client, delete_row, delete_client,
}

-- No link of the client is left, and the relay accepts no secret for it.
abbrev pub IsCut : Text → Db → Type 0
IsCut name db =
    ((t : ShareToken) → Member t db.share_tokens → t.client_name ≢ name)
    × ((w : World) (strict : Bool) (secret : Text)
        → authorize_client w db strict name secret ≡ returned none)

cut-IsCut :
    (name : Text) (db db' : Db)
    → db'.share_tokens ≡ (cut name db).share_tokens
    → db'.settings ≡ (cut name db).settings
    → IsCut name db'
unfolding Authorize.revoke authorize_client after_setting
cut-IsCut name db db' links settings = (
  λ t m.
      let (kept, other) =
        Member-delete_where (λ t. text_eq t.client_name name) t db.share_tokens
          (subst (λ l. Member t l) links m) in
      λ (same : t.client_name ≡ name). ground (arith, text_eq_iff t.client_name name),
  λ w strict secret. rw (settings, get_setting_in-delete (grant_key name) db.settings) refl,
)

after_kill-IsCut :
    (now : ℕ) (dir : PkiDir) (user : SessionUser) (name : Text) (reason : Option Text) (db : Db)
    (a : Reply × Management)
    → let c = (after_kill now dir user name reason (cut name db) a).1 in
      IsCut name c.db × (c.mgmt ≡ a.1)
unfolding after_kill add_event
after_kill-IsCut now dir user name reason db (index_error, m) =
    (cut-IsCut name db (cut name db) refl refl, refl)
after_kill-IsCut now dir user name reason db (management_error, m) =
    (cut-IsCut name db _ refl refl, refl)
after_kill-IsCut now dir user name reason db (success lines, m) =
    (cut-IsCut name db _ refl refl, refl)

-- The client was asked to be revoked, for a known reason, was not revoked yet, and the script ended
-- well.
abbrev pub IsRevocable : Script → Option Text → Listed → Type 0
IsRevocable script reason row =
    ((dir : PkiDir) × (script ≡ some dir))
    × (is_state row.cert.state revoked ≡ false)
    × (is_reason reason ≡ true)

abbrev pub WasCut : Text → Console → Console → Type 0
WasCut name c c' = IsCut name c'.db × (c'.mgmt ≡ (kill name c.mgmt).1)

revoke_row-WasCut :
    (now : ℕ) (script : Script) (user : SessionUser) (name : Text) (reason : Option Text)
    (row : Listed) (c : Console)
    → let a = revoke_row now script user name reason row c in
      (a ≡ (failed 400, c)) ⊎ (IsRevocable script reason row × WasCut name c a.1)
unfolding revoke_row
revoke_row-WasCut now none user name reason row c = inl refl
revoke_row-WasCut now (some dir) user name reason row c =
    elim (Bool-cases (is_state row.cert.state revoked || not (is_reason reason))) [
      | inl refused ↦ inl (rw refused refl)
      | inr fine ↦ rw fine (
          inr (
            ((dir, refl), ground arith, ground arith),
            after_kill-IsCut now dir user name reason c.db (kill name c.mgmt),
          ))
    ]

-- A revocation either fails and changes nothing, or it was one of a listed client that was not
-- revoked, for a known reason and with the script ending well; then no link and no relay secret of
-- the client works any more and its connection was asked to end, even where that failed.
pub revoke_cuts :
    (now : ℕ) (dir : PkiDir) (script : Script) (user : SessionUser) (name : Text)
    (reason : Option Text) (c : Console)
    → let a = revoke now dir script user name reason c in
      ((status : ℕ) × (a ≡ (failed status, c)))
      ⊎ ((row : Listed) × (find_client now dir name c.db ≡ ok row)
          × IsRevocable script reason row
          × WasCut name c a.1)
unfolding revoke with_client
revoke_cuts now dir script user name reason c =
    elim (Answer-cases (find_client now dir name c.db)) [
      | inl (status, e) ↦ rw e (inl (status, refl))
      | inr (row, e) ↦ rw e (elim (revoke_row-WasCut now script user name reason row c) [
        | inl same ↦ inl (400, same)
        | inr (may, was) ↦ inr (row, refl, may, was)
      ])
    ]

hide-keeps :
    (now : ℕ) (name serial : Text) (serials : List Text) (rows : List HiddenCert)
    → any (λ h. text_eq h.serial serial) rows ≡ true
    → any (λ h. text_eq h.serial serial) (hide_certs now name serials rows) ≡ true
unfolding hide_certs
hide-keeps now name serial [] rows h = h
hide-keeps now name serial (s ∷ ss) rows h =
    elim (Bool-cases (any (λ h. text_eq h.serial s) rows)) [
      | inl there ↦ rw there (hide-keeps now name serial ss rows h)
      | inr new ↦ rw new (hide-keeps now name serial ss _ (any-append _ rows _ h))
    ]

hidden_first :
    (now : ℕ) (name serial : Text) (rows : List HiddenCert)
    → any
        (λ h. text_eq h.serial serial)
        (if any (λ h. text_eq h.serial serial) rows
          then rows
          else rows ++ (record { serial = serial; name = some name; hidden_at = now }) ∷ [])
      ≡ true
hidden_first now name serial rows = elim (Bool-cases (any (λ h. text_eq h.serial serial) rows)) [
  | inl there ↦ rw there there
  | inr new ↦ rw new (any-snoc (λ h. text_eq h.serial serial) _ rows (text_eq_refl serial))
]

hide-Hides :
    (now : ℕ) (name serial : Text) (serials : List Text) (rows : List HiddenCert)
    → Member serial serials
    → any (λ h. text_eq h.serial serial) (hide_certs now name serials rows) ≡ true
unfolding hide_certs
hide-Hides now name serial [] rows m = elim m [ ]
hide-Hides now name serial (s ∷ ss) rows m = elim m [
  | inr later ↦ hide-Hides now name serial ss _ later
  | inl is ↦ hide-keeps now name serial ss _ (
      subst
        (λ (t : Text).
          any (λ (h : HiddenCert). text_eq h.serial t)
            (if any (λ (h : HiddenCert). text_eq h.serial s) rows
              then rows
              else rows ++ (record { serial = s; name = some name; hidden_at = now }) ∷ [])
          ≡ true)
        (sym is) (hidden_first now name s rows))
]

remove_account-clears :
    (name : Text) (db : Db)
    → IsAccounts db
    → (u : User) → Member u (disable_portal name db).users
    → is_account_of name u ≡ false
unfolding disable_portal remove_account
remove_account-clears name db (d, below, sessions) u m =
    elim (Option-cases (find_account name db.users)) [
      | inl e ↦ find_account-none name db.users u e (rw e at m)
      | inr (row, e) ↦
          let (there, mine, only) = find_account_sound name db.users row d e in
          let (kept, other) = Member-delete_where (λ v. v.id == row.id) u db.users (rw e at m) in
          sym (only u kept) ∙ other
    ]

-- A revoked certificate with this serial is passed over when the clients are listed.
abbrev pub IsHidden : Text → Db → Type 0
IsHidden serial db =
    (now : ℕ) (index : List IndexEntry) (cert : Cert) (rest : List (Option Cert)) (cs : List Listed)
    → cert.serial ≡ serial
    → list_revoked now index (hidden_serials db) (some cert ∷ rest) cs
      ≡ list_revoked now index (hidden_serials db) rest cs

-- The certificate that the client is listed with, or one of its history.
abbrev pub IsOfClient : Text → Listed → Type 0
IsOfClient serial row =
    (row.cert.serial ≡ serial) ⊎ ((h : CertState) × Member h row.history × (h.serial ≡ serial))

-- Nothing of the client is left: no account, no row of its own, no link and no relay secret; and its
-- certificate and those of its history are hidden.
abbrev pub IsForgotten : Text → Listed → Db → Type 0
IsForgotten name row db =
    IsCut name db
    × ((u : User) → Member u db.users → is_account_of name u ≡ false)
    × ((c : ClientRow) → Member c db.clients → text_eq c.name name ≡ false)
    × ((serial : Text) → IsOfClient serial row → IsHidden serial db)

any-serials :
    (serial : Text) (rows : List HiddenCert)
    → any (λ h. text_eq h.serial serial) rows ≡ true
    → any (λ s. text_eq s serial) (map (λ h. h.serial) rows) ≡ true
any-serials serial [] h = h
any-serials serial (r ∷ rows) h = ground (arith, any-serials serial rows)

any-IsHidden :
    (serial : Text) (db : Db)
    → any (λ h. text_eq h.serial serial) db.hidden_certs ≡ true
    → IsHidden serial db
unfolding list_revoked
any-IsHidden serial db h now index cert rest cs same =
    rw (same, any-serials serial db.hidden_certs h) refl

Member-serial :
    (h : CertState) (hs : List CertState) → Member h hs → Member h.serial (map (λ c. c.serial) hs)
Member-serial h [] m = elim m [ ]
Member-serial h (c ∷ hs) (inl same) = inl (ap (λ (d : CertState). d.serial) same)
Member-serial h (c ∷ hs) (inr later) = inr (Member-serial h hs later)

serials_of-Member :
    (serial : Text) (row : Listed) → IsOfClient serial row → Member serial (serials_of row)
serials_of-Member serial row (inl same) = inl (sym same)
serials_of-Member serial row (inr (h, member, same)) = inr (
    subst (λ s. Member s (map (λ h. h.serial) row.history)) same
      (Member-serial h row.history member))

forget-IsForgotten :
    (now : ℕ) (user : SessionUser) (name : Text) (row : Listed) (db : Db)
    → IsAccounts db
    → IsForgotten name row (
        add_event now
          (codes "client_deleted")
          (some name)
          (some user.username)
          none
          (forget_client now name row (cut name (disable_portal name db))))
unfolding Authorize.revoke add_event
forget-IsForgotten now user name row db ready = (
  cut-IsCut name (disable_portal name db) _ refl refl,
  remove_account-clears name db ready,
  λ c m. (Member-delete_where (λ c. text_eq c.name name) c (disable_portal name db).clients m).1,
  λ serial of_client.
      any-IsHidden serial (forget_client now name row (cut name (disable_portal name db)))
        (hide-Hides now name serial (serials_of row) _ (serials_of-Member serial row of_client)),
)

delete_row-IsForgotten :
    (now : ℕ) (removed : Bool) (user : SessionUser) (name : Text) (row : Listed) (db : Db)
    → IsAccounts db
    → let a = delete_row now removed user name row db in
      (a ≡ (failed 400, db))
      ⊎ ((is_state row.cert.state revoked ≡ true)
          × (removed ≡ true)
          × (a.0 ≡ ok true)
          × IsForgotten name row a.1)
unfolding delete_row
delete_row-IsForgotten now removed user name row db ready =
    elim (Bool-cases (not (is_state row.cert.state revoked) || not removed)) [
      | inl refused ↦ inl (rw refused refl)
      | inr fine ↦
          rw fine
            (inr (ground arith, ground arith, refl, forget-IsForgotten now user name row db ready))
    ]

-- A deletion either fails and changes nothing, or it was one of a listed client whose certificate is
-- revoked and whose files the script removed; then the client has no account, no row, no link and
-- no relay secret, and the list of the clients passes over its certificate and those of its history
-- wherever it meets them among the revoked ones.
pub delete_client_forgets :
    (now : ℕ) (dir : PkiDir) (removed : Bool) (user : SessionUser) (name : Text) (db : Db)
    → IsAccounts db
    → let a = delete_client now dir removed user name db in
      ((status : ℕ) × (a ≡ (failed status, db)))
      ⊎ ((row : Listed) × (find_client now dir name db ≡ ok row)
          × (is_state row.cert.state revoked ≡ true)
          × (removed ≡ true)
          × (a.0 ≡ ok true)
          × IsForgotten name row a.1)
unfolding delete_client with_client
delete_client_forgets now dir removed user name db ready =
    elim (Answer-cases (find_client now dir name db)) [
      | inl (status, e) ↦ rw e (inl (status, refl))
      | inr (row, e) ↦ rw e (elim (delete_row-IsForgotten now removed user name row db ready) [
        | inl same ↦ inl (400, same)
        | inr (was, gone, done, forgotten) ↦ inr (row, refl, was, gone, done, forgotten)
      ])
    ]
