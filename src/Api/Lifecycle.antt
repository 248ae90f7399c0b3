-- ===== src/Api/Lifecycle.antt =====
-- ui/app/main.py: revoke, renew and delete_client. The scripts of the PKI are not modelled: whether
-- one succeeds, and the directories and the certificates after it, are arguments.
use openvpn_server.Base.{
  ℕ, Bool, true, false, not, ◌&&◌, Option, none, some, List, [], ◌∷◌, ◌++◌, Text, codes, text_eq,
  if◌then◌else◌, any, map, nonempty, coalesce, delete_where, update_where, is_some, ◌||◌,
}
use openvpn_server.Db.Schema.{HiddenCert, Db}
use openvpn_server.Auth.WebSessions.{SessionUser}
use openvpn_server.Pki.Clients.{State, valid, expired, revoked, Listed, PkiDir}
use openvpn_server.Mgmt.Command.{Management, Reply, index_error, kill}
use openvpn_server.Relay.Authorize.{
  World, Cert, Outcome, returned, unavailable, refused, eligible, renewed,
}
use openvpn_server.Relay.Authorize
use openvpn_server.Api.Requests.{Answer, ok, failed}
use openvpn_server.Api.Links.{drop_share_links}
use openvpn_server.Api.Accounts.{find_client, with_client, log_event, is_account_of, disable_portal}

-- REVOKE_REASONS
abbrev pub revoke_reasons : List Text
revoke_reasons =
    codes "unspecified"
    ∷ codes "keyCompromise"
    ∷ codes "CACompromise"
    ∷ codes "affiliationChanged"
    ∷ codes "superseded"
    ∷ codes "cessationOfOperation"
    ∷ codes "certificateHold"
    ∷ []

abbrev pub is_reason : Option Text → Bool
is_reason reason =
    not (nonempty (coalesce reason [])) || any (λ r. text_eq r (coalesce reason [])) revoke_reasons

-- What a script of the PKI leaves: `none` is a PkiError.
abbrev pub Script : Type 0
Script = Option PkiDir

pub record Console : Type 0 where
  pub db : Db
  pub mgmt : Management

abbrev pub is_state : State → State → Bool
is_state valid valid = true
is_state expired expired = true
is_state revoked revoked = true
is_state _ _ = false

-- Neither the relay nor a link gives the client access any more.
abbrev pub cut : Text → Db → Db
cut name db = drop_share_links name (Authorize.revoke name db)

-- After the connection was killed, or could not be.
unfoldable pub after_kill :
    ℕ
    → PkiDir
    → SessionUser
    → Text
    → Option Text
    → Db
    → Reply × Management
    → Answer Listed × Console
after_kill now dir user name reason db (index_error, m) = (failed 500, record { db = db; mgmt = m })
after_kill now dir user name reason db (_, m) =
    let db' = log_event now (codes "client_revoked") user (some name) reason db in
    (find_client now dir name db', record { db = db'; mgmt = m })

unfoldable pub revoke_row :
    ℕ → Script → SessionUser → Text → Option Text → Listed → Console → Answer Listed × Console
revoke_row now none user name reason row c = (failed 400, c)
revoke_row now (some dir) user name reason row c =
    if is_state row.cert.state revoked || not (is_reason reason)
    then (failed 400, c)
    else after_kill now dir user name reason (cut name c.db) (kill name c.mgmt)

unfoldable pub revoke :
    ℕ → PkiDir → Script → SessionUser → Text → Option Text → Console → Answer Listed × Console
revoke now dir script user name reason c =
    with_client (find_client now dir name c.db) c
      (λ row. revoke_row now script user name reason row c)

-- The account that was bound to the previous certificate moves to the new one.
unfoldable pub rebind_account : Text → Text → Option Cert → Db → Db
rebind_account name previous none db = db
rebind_account name previous (some cert) db = record db {
  users =
      update_where
        (λ u.
          is_account_of name u
          && text_eq (coalesce u.client_serial []) previous
          && is_some u.client_serial)
        (λ u. record u { client_serial = some cert.serial }) db.users;
}

unfoldable pub after_eligible :
    ℕ → PkiDir → SessionUser → Text → Text → Db → Outcome (Option Cert) → Answer Listed × Db
after_eligible now dir user name previous db unavailable = (failed 500, db)
after_eligible now dir user name previous db refused = (failed 400, db)
after_eligible now dir user name previous db (returned cert) =
    let db' =
      log_event now (codes "client_renewed") user (some name) none
        (rebind_account name previous cert db) in
    (find_client now dir name db', db')

unfoldable pub after_renewed :
    World → ℕ → PkiDir → SessionUser → Text → Text → Db → Outcome Db → Answer Listed × Db
after_renewed w now dir user name previous db unavailable = (failed 500, db)
after_renewed w now dir user name previous db refused = (failed 400, db)
after_renewed w now dir user name previous db (returned db') =
    after_eligible now dir user name previous db' (eligible w name)

unfoldable pub renew_row :
    World → ℕ → Script → SessionUser → Text → Listed → Db → Answer Listed × Db
renew_row w now none user name row db = (failed 400, db)
renew_row w now (some dir) user name row db =
    if is_state row.cert.state revoked
    then (failed 400, db)
    else after_renewed w now dir user name row.cert.serial db (renewed w db name row.cert.serial)

-- `w` is what the relay reads after the script.
unfoldable pub renew : World → ℕ → PkiDir → Script → SessionUser → Text → Db → Answer Listed × Db
renew w now dir script user name db =
    with_client (find_client now dir name db) db (λ row. renew_row w now script user name row db)

-- INSERT INTO hidden_certs ... ON CONFLICT DO NOTHING, for each serial.
unfoldable pub hide_certs : ℕ → Text → List Text → List HiddenCert → List HiddenCert
hide_certs now name [] rows = rows
hide_certs now name (serial ∷ serials) rows = hide_certs now name serials (
    if any (λ h. text_eq h.serial serial) rows
    then rows
    else rows ++ (record { serial = serial; name = some name; hidden_at = now }) ∷ [])

abbrev pub serials_of : Listed → List Text
serials_of row = row.cert.serial ∷ map (λ h. h.serial) row.history

abbrev pub forget_client : ℕ → Text → Listed → Db → Db
forget_client now name row db = record db {
  hidden_certs = hide_certs now name (serials_of row) db.hidden_certs;
  clients = delete_where (λ c. text_eq c.name name) db.clients;
}

unfoldable pub delete_row : ℕ → Bool → SessionUser → Text → Listed → Db → Answer Bool × Db
delete_row now removed user name row db =
    if not (is_state row.cert.state revoked) || not removed then (failed 400, db) else (
      ok true,
      log_event now (codes "client_deleted") user (some name) none
          (forget_client now name row (cut name (disable_portal name db))),
    )

-- `removed` tells whether `remove_client` succeeds.
unfoldable pub delete_client : ℕ → PkiDir → Bool → SessionUser → Text → Db → Answer Bool × Db
delete_client now dir removed user name db =
    with_client (find_client now dir name db) db (λ row. delete_row now removed user name row db)
