-- ===== src/Tests/Store.antt =====
-- ui/app/db.py: two days of traffic, a visit of two sessions, and the theorems about them.
use openvpn_server.Base.{
  ℕ, ◌≡◌, ◌⊎◌, inl, inr, refl, true, false, none, some, [], ◌∷◌, arith, Text, codes,
}
use openvpn_server.Db.Schema.{Bucket, VpnSession, Db}
use openvpn_server.Db.Traffic.{rollup, totals}
use openvpn_server.Db.Totals.{rollup-totals}
use openvpn_server.Db.Sessions.{Fields, new_session}
use openvpn_server.Db.Groups.{IsGrouped}
use openvpn_server.Db.History.{
  archived_as, nothing_to_archive, unique_violation, archive_key, archive_client_history,
  has_history,
}
use openvpn_server.Db.Traces.{archive_client_history-clears, archive_client_history-totals}

abbrev bucket : ℕ → Text → Bucket
bucket ts name = record { ts = ts; client_name = name; bytes_in = 5; bytes_out = 7 }

abbrev fields : Fields
fields = record {
  cid = some 3;
  vpn_ip = none;
  username = none;
  cipher = none;
  last_seen = some 150;
  disconnected_at = some 160;
  bytes_in = 0;
  bytes_out = 0;
  end_reason = none;
}

abbrev phone : Text
phone = codes "udp4:203.0.113.5:1194"

-- The first session of a visit.
abbrev pub first : VpnSession
first = new_session 1 (codes "alice") phone 100 fields (some 1)

abbrev pub db : Db
db = record {
  users = [];
  next_user = 2;
  web_sessions = [];
  settings = [];
  clients = [];
  hidden_certs = [];
  vpn_sessions = first ∷ [];
  next_session = 2;
  relay_sessions = [];
  traffic_minute = bucket 60 (codes "alice") ∷ bucket 90000 (codes "bob") ∷ [];
  traffic_hour = bucket 3600 (codes "alice") ∷ [];
  traffic_day = [];
  events = [];
  next_event = 1;
  archived_clients = [];
  rejections = [];
  share_tokens = [];
}

rollup-totals_example :
    totals 0 86400 (some (codes "alice")) (rollup 500000 db)
    ≡ totals 0 86400 (some (codes "alice")) db
rollup-totals_example = rollup-totals 500000 0 86400 (some (codes "alice")) db refl refl

grouped : IsGrouped db
grouped = record {
  below = λ s m. elim m [ inl e ↦ rw e (omega arith) | inr m' ↦ elim m' [ ] ];
  visit =
      λ s m. elim m [ inl e ↦ (first, inl refl, rw e (refl, refl, refl)) | inr m' ↦ elim m' [ ] ];
}

archive_client_history-clears_example :
    let (outcome, db') = archive_client_history 900 (codes "alice") none db in
    ((outcome ≡ archived_as (archive_key (codes "alice") 900))
      × (has_history (codes "alice") none db ≡ true)
      × (has_history (codes "alice") none db' ≡ false))
    ⊎ ((outcome ≡ nothing_to_archive) × (has_history (codes "alice") none db ≡ false) × (db' ≡ db))
    ⊎ ((outcome ≡ unique_violation) × (db' ≡ db))
archive_client_history-clears_example = archive_client_history-clears 900 (codes "alice") none db

archive_client_history-totals_example :
    totals 0 86400 none (archive_client_history 900 (codes "alice") none db).1
    ≡ totals 0 86400 none db
archive_client_history-totals_example =
    archive_client_history-totals 0 86400 900 (codes "alice") none db
