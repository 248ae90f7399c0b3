-- ===== src/Db/Connections.antt =====
-- ui/app/db.py, connection_stats: how the sessions of each client went.
use openvpn_server.Base.{
  ℕ, ◌+◌, ◌-◌, ◌/◌, Bool, true, false, ◌&&◌, Option, none, some, List, [], ◌∷◌, ◌++◌, Text, text_eq,
  codes, nonempty, if◌then◌else◌, ltb, leb, select, order_by, head?, drop, length, map, pos_part,
  sub_ℕ,
}
use openvpn_server.Db.Schema.{VpnSession, Db}
use openvpn_server.Db.Sessions.{ended, is_open}
use openvpn_server.Db.Reports.{is_tcp}

-- SHORT_SESSION
abbrev pub short_session : ℕ
short_session = 60

pub record ConnectionStats : Type 0 where
  pub name : Text
  pub sessions : ℕ
  pub short : ℕ
  pub tcp : ℕ
  pub left : ℕ
  pub timed_out : ℕ
  pub closed : ℕ
  pub other : ℕ
  pub durations : List ℕ
  pub platform : Option Text
  pub client_ver : Option Text

abbrev pub no_sessions : Text → ConnectionStats
no_sessions name = record {
  name = name;
  sessions = 0;
  short = 0;
  tcp = 0;
  left = 0;
  timed_out = 0;
  closed = 0;
  other = 0;
  durations = [];
  platform = none;
  client_ver = none;
}

abbrev pub count_if : Bool → ℕ → ℕ
count_if true n = n + 1
count_if false n = n

-- The count that the reason of the end adds to.
abbrev pub count_end : Option Text → ConnectionStats → ConnectionStats
count_end none s = record s { other = s.other + 1 }
count_end (some reason) s =
    if text_eq reason (codes "left")
    then record s { left = s.left + 1 }
    else if text_eq reason (codes "timed out")
    then record s { timed_out = s.timed_out + 1 }
    else if text_eq reason (codes "closed")
    then record s { closed = s.closed + 1 }
    else record s { other = s.other + 1 }

-- A session that has ended.
abbrev pub count_ended : VpnSession → ConnectionStats → ConnectionStats
count_ended r s = count_end r.end_reason (record s {
  durations = s.durations ++ pos_part (sub_ℕ (ended r) r.connected_at) ∷ [];
  short = count_if (ltb (ended r) (r.connected_at + short_session)) s.short;
})

-- `if r["platform"]`
abbrev pub set_platform : VpnSession → Option Text → ConnectionStats → ConnectionStats
set_platform r none s = s
set_platform r (some p) s =
    if nonempty p then record s { platform = some p; client_ver = r.client_ver } else s

abbrev pub count_started : VpnSession → ConnectionStats → ConnectionStats
count_started r s = record s { sessions = s.sessions + 1; tcp = count_if (is_tcp r) s.tcp }

-- The body of the loop, for the client's entry.
abbrev pub count_row : VpnSession → ConnectionStats → ConnectionStats
count_row r s =
    set_platform r r.platform
      (if is_open r then count_started r s else count_ended r (count_started r s))

-- `stats.setdefault(...)`, and the body on what it returns.
unfoldable pub count_in : VpnSession → List ConnectionStats → List ConnectionStats
count_in r [] = count_row r (no_sessions r.client_name) ∷ []
count_in r (s ∷ stats) =
    if text_eq s.name r.client_name then count_row r s ∷ stats else s ∷ count_in r stats

unfoldable pub count_rows : List VpnSession → List ConnectionStats → List ConnectionStats
count_rows [] stats = stats
count_rows (r ∷ rows) stats = count_rows rows (count_in r stats)

-- `d[(len(d) - 1) // 2] if d else None`
abbrev pub median : List ℕ → Option ℕ
median d = head? (drop ((length d - 1) / 2) d)

-- An entry with the median of its durations.
abbrev pub with_median : ConnectionStats → ConnectionStats × Option ℕ
with_median s = (record s { durations = [] }, median (order_by leb s.durations))

abbrev pub started_in : ℕ → ℕ → VpnSession → Bool
started_in start end s = leb start s.connected_at && ltb s.connected_at end

unfoldable pub connection_stats : ℕ → ℕ → Db → List (ConnectionStats × Option ℕ)
connection_stats start end db =
    order_by (λ (a b : ConnectionStats × Option ℕ). leb b.0.sessions a.0.sessions)
      (map with_median (
        count_rows
          (order_by (λ (a b : VpnSession). leb a.connected_at b.connected_at)
            (select (started_in start end) db.vpn_sessions))
          []))
