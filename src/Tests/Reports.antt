-- ===== src/Tests/Reports.antt =====
-- ui/app/db.py: sessions written before there were visits, and the traffic of each client.
use openvpn_server.Base.{
  ◌≡◌, refl, true, none, some, is_some, inl, Member, select, order_by, insert_sorted, update_where,
  partition, rpartition, [], ◌∷◌, codes, text_eq,
}
use openvpn_server.Db.Schema.{Db}
use openvpn_server.Db.Address.{split_address, real_ip}
use openvpn_server.Db.Traffic.{totals}
use openvpn_server.Db.Reports.{totals_by_client, assign, last_of, group_sessions}
use openvpn_server.Db.Connections.{no_sessions, connection_stats, count_rows, count_in}
use openvpn_server.Db.PerClient.{traffic_at, totals_by_client-totals, group_sessions-grouped}
use openvpn_server.Tests.Store.{db, first}

totals_by_client-totals_example :
    traffic_at (codes "alice") (totals_by_client 0 86400 db)
    ≡ totals 0 86400 (some (codes "alice")) db
totals_by_client-totals_example = totals_by_client-totals 0 86400 (codes "alice") db refl

abbrev old : Db
old = record db { vpn_sessions = record first { grp = none } ∷ [] }

stands : Member first (group_sessions old).1.vpn_sessions
unfolding group_sessions assign select order_by insert_sorted update_where split_address real_ip
    partition rpartition text_eq last_of
stands = inl refl

group_sessions-grouped_example : is_some first.grp ≡ true
group_sessions-grouped_example = group_sessions-grouped old first stands

connection_stats_test :
    connection_stats 0 1000 db
    ≡ (record (no_sessions (codes "alice")) { sessions = 1; other = 1 }, some 60) ∷ []
unfolding connection_stats count_rows count_in select order_by insert_sorted text_eq split_address
    partition
connection_stats_test = refl
