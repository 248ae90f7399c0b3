-- ===== src/Tests/Clients.antt =====
-- ui/app/main.py: a client that is revoked and deleted, a portal account, a graph, and the theorems
-- about them.
use openvpn_server.Base.{
  ℕ, ◌≡◌, ◌⊎◌, ◌+◌, refl, ap, true, none, some, [], ◌∷◌, arith, Text, codes, text_eq, inl, inr,
  select,
}
use openvpn_server.Db.Schema.{User, WebSession, Db}
use openvpn_server.Db.Series.{Zone, bucket_ts, add_point, points, series, first_traffic_ts}
use openvpn_server.Db.Traffic.{where_client, totals, sum_in, sum_out}
use openvpn_server.Auth.Passwords.{hash_password}
use openvpn_server.Auth.WebSessions.{SessionUser, session_user}
use openvpn_server.Pki.Clients.{revoked, PkiDir, Listed}
use openvpn_server.Relay.Authorize.{Cert, returned, eligible}
use openvpn_server.Api.Requests.{ok, failed}
use openvpn_server.Api.Accounts.{find_client, set_portal_account}
use openvpn_server.Api.Lifecycle.{Console, revoke, delete_client, is_state}
use openvpn_server.Api.Removal.{
  IsRevocable, WasCut, IsForgotten, revoke_cuts, delete_client_forgets,
}
use openvpn_server.Api.Distinct.{IsAccounts}
use openvpn_server.Api.Portal.{IsBound, set_portal_account_binds}
use openvpn_server.Api.Series.{
  Traffic, range_bounds, range_length, bucket_for, find_point, fill, fill_series, traffic,
}
use openvpn_server.Api.Points.{sum_points}
use openvpn_server.Api.Graph.{traffic_adds_up, fill_series_ends}
use openvpn_server.Tests.Entry.{env, ann, db}
use openvpn_server.Tests.Access.{world, cert}

abbrev bob : SessionUser
bob = session_user (record ann { id = 9; username = codes "bob"; client_name = none })

-- The certificate of ann is listed, and revoked in the second index.
abbrev dir : PkiDir
dir = record {
  index = [];
  issued = (codes "ann", some cert) ∷ [];
  renewed = λ name. none;
  revoked_certs = [];
}

abbrev after : PkiDir
after = record {
  index =
      (record {
        serial = codes "01";
        status = codes "R";
        expires = none;
        revoked_at = some 5;
        reason = none;
      })
      ∷ [];
  issued = (codes "ann", some cert) ∷ [];
  renewed = λ name. none;
  revoked_certs = [];
}

abbrev console : Console
console = record { db = db; mgmt = record { socket = none; connections = [] } }

revoke_cuts_example :
    let a = revoke 50 dir (some after) bob (codes "ann") none console in
    ((status : ℕ) × (a ≡ (failed status, console)))
    ⊎ ((row : Listed) × (find_client 50 dir (codes "ann") db ≡ ok row)
        × IsRevocable (some after) none row
        × WasCut (codes "ann") console a.1)
revoke_cuts_example = revoke_cuts 50 dir (some after) bob (codes "ann") none console

accounts : IsAccounts db
accounts = (
  ((λ v m. elim m [ ]), tt),
  λ u m. elim m [
    | inl is ↦ omega (arith, ap (λ (v : User). v.id) is)
    | inr nowhere ↦ elim nowhere [ ]
  ],
  λ s m. elim m [
    | inl is ↦ omega (arith, ap (λ (t : WebSession). t.user_id) is)
    | inr later ↦ elim later [
      | inl is ↦ omega (arith, ap (λ (t : WebSession). t.user_id) is)
      | inr nowhere ↦ elim nowhere [ ]
    ]
  ],
)

delete_client_forgets_example :
    let a = delete_client 50 after true bob (codes "ann") db in
    ((status : ℕ) × (a ≡ (failed status, db)))
    ⊎ ((row : Listed) × (find_client 50 after (codes "ann") db ≡ ok row)
        × (is_state row.cert.state revoked ≡ true)
        × (true ≡ true)
        × (a.0 ≡ ok true)
        × IsForgotten (codes "ann") row a.1)
delete_client_forgets_example = delete_client_forgets 50 after true bob (codes "ann") db accounts

set_portal_account_binds_example :
    let a =
      set_portal_account env world dir
        (codes "salt")
        50
        bob
        (codes "ann")
        (codes "anna")
        (codes "password")
        db in
    ((status : ℕ) × (a ≡ (failed status, db)))
    ⊎ ((found : Cert) × (hash : Text) × (eligible world (codes "ann") ≡ returned (some found))
        × (hash_password env.crypto (codes "password") (codes "salt") ≡ some hash)
        × (a.0 ≡ ok (codes "anna"))
        × IsBound 50 (codes "ann") (codes "anna") hash found.serial db a.1)
set_portal_account_binds_example =
    set_portal_account_binds env world dir (codes "salt") 50 bob (codes "ann") (codes "anna")
      (codes "password") db accounts

abbrev counted : Db
counted = record db {
  traffic_minute =
      (record { ts = 172800; client_name = codes "ann"; bytes_in = 3; bytes_out = 5 })
      ∷ (record { ts = 260000; client_name = codes "eve"; bytes_in = 4; bytes_out = 1 })
      ∷ [];
}

abbrev zone : Zone
zone = record { east = 3600; west = 0 }

abbrev graph : Traffic
graph = record {
  bucket = 86400;
  series =
      (record { ts = 169200; bytes_in = 3; bytes_out = 5 })
      ∷ (record { ts = 255600; bytes_in = 4; bytes_out = 1 })
      ∷ [];
  totals = (7, 6);
}

traffic_adds_up_example :
    (sum_points (λ p. p.bytes_in) graph.series ≡ 7)
    × (sum_points (λ p. p.bytes_out) graph.series ≡ 6)
unfolding range_bounds range_length bucket_for bucket_ts text_eq first_traffic_ts traffic
    fill_series fill find_point series points add_point where_client totals sum_in sum_out select
traffic_adds_up_example =
    traffic_adds_up (codes "all") none zone 270000 172800 270001 counted graph refl (omega arith)
      (omega arith) refl

fill_series_ends_example :
    fill (300 + 7) graph.series (bucket_ts 60 zone 120) 299 60
    ≡ fill_series graph.series 120 299 60 zone
fill_series_ends_example = fill_series_ends graph.series 120 299 60 7 zone (omega arith)
