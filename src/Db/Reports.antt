-- ===== src/Db/Reports.antt =====
-- ui/app/db.py: the queries that group traffic, rejections and sessions, and group_sessions. SQL
-- leaves the order of groups open; a dict is a list with distinct keys.
use openvpn_server.Base.{
  ℕ, ◌+◌, max, min, Bool, true, false, not, ◌&&◌, ◌||◌, Option, none, some, List, [], ◌∷◌, ◌++◌,
  map, Text, text_eq, codes, if◌then◌else◌, ltb, leb, ◌==◌, select, order_by, take, drop, length,
  update_where, is_none, ℤ, sub_ℕ,
}
use openvpn_server.Db.Schema.{Bucket, VpnSession, Rejection, Db}
use openvpn_server.Db.Address.{split_address, real_ip}
use openvpn_server.Db.Traffic.{traffic_union, sum_in, sum_out}
use openvpn_server.Db.Sessions.{merge_gap, ended, is_open}
use openvpn_server.Db.Grouping.{group_by}

abbrev pub client_of : Bucket → Text
client_of b = b.client_name

abbrev pub client_sums : Text × List Bucket → Text × ℕ × ℕ
client_sums (name, rows) = (name, sum_in rows, sum_out rows)

unfoldable pub totals_by_client : ℕ → ℕ → Db → List (Text × ℕ × ℕ)
totals_by_client start end db =
    map client_sums (group_by text_eq client_of (traffic_union start end db))

-- SUM, MAX and MIN of a number of each row.
module _ {A : Type 0} (value : A → ℕ) where
  unfoldable pub sum_of : List A → ℕ
  sum_of [] = 0
  sum_of (x ∷ xs) = value x + sum_of xs

  unfoldable pub max_of : List A → ℕ
  max_of [] = 0
  max_of (x ∷ xs) = max (value x) (max_of xs)

  unfoldable pub min_of : List A → ℕ
  min_of [] = 0
  min_of (x ∷ []) = value x
  min_of (x ∷ y ∷ xs) = min (value x) (min_of (y ∷ xs))

abbrev pub rejection_eq : Text × Text × Text → Text × Text × Text → Bool
rejection_eq (a, b, c) (d, e, f) = text_eq a d && (text_eq b e && text_eq c f)

abbrev pub rejection_key : Rejection → Text × Text × Text
rejection_key r = (r.client_name, r.reason, r.address)

pub record RejectionCount : Type 0 where
  pub client : Text
  pub reason : Text
  pub address : Text
  pub count : ℕ
  pub last_ts : ℕ

abbrev pub rejection_count : (Text × Text × Text) × List Rejection → RejectionCount
rejection_count ((name, why, from), rows) = record {
  client = name;
  reason = why;
  address = from;
  count = sum_of (λ (r : Rejection). r.count) rows;
  last_ts = max_of (λ (r : Rejection). r.last_ts) rows;
}

abbrev pub rejects : ℕ → Option Text → Rejection → Bool
rejects since none r = leb since r.last_ts
rejects since (some name) r = leb since r.last_ts && text_eq r.client_name name

-- ORDER BY last_ts DESC LIMIT 50
unfoldable pub rejections_since : ℕ → Option Text → Db → List RejectionCount
rejections_since since client db = take 50 (
    order_by (λ (a b : RejectionCount). leb b.last_ts a.last_ts)
      (map rejection_count
        (group_by rejection_eq rejection_key (select (rejects since client) db.rejections))))

pub record SessionStats : Type 0 where
  pub sessions : ℕ
  pub last_seen : ℕ
  pub first_seen : ℕ
  pub bytes_in : ℕ
  pub bytes_out : ℕ
  pub online_seconds : ℤ

-- SUM(COALESCE(disconnected_at, last_seen) - connected_at)
abbrev pub seconds_online : List VpnSession → ℤ
seconds_online rows = sub_ℕ (sum_of ended rows) (sum_of (λ (s : VpnSession). s.connected_at) rows)

unfoldable pub session_stats : List VpnSession → SessionStats
session_stats rows = record {
  sessions = length rows;
  last_seen = max_of (λ (s : VpnSession). s.last_seen) rows;
  first_seen = min_of (λ (s : VpnSession). s.connected_at) rows;
  bytes_in = sum_of (λ (s : VpnSession). s.bytes_in) rows;
  bytes_out = sum_of (λ (s : VpnSession). s.bytes_out) rows;
  online_seconds = seconds_online rows;
}

abbrev pub session_client : VpnSession → Text
session_client s = s.client_name

unfoldable pub session_stats_by_client : Db → List (Text × SessionStats)
session_stats_by_client db =
    map (λ (g : Text × List VpnSession). (g.0, session_stats g.1))
      (group_by text_eq session_client db.vpn_sessions)

abbrev pub grp_eq : Option ℕ → Option ℕ → Bool
grp_eq none none = true
grp_eq none (some b) = false
grp_eq (some a) none = false
grp_eq (some a) (some b) = a == b

pub record Visit : Type 0 where
  pub grp : Option ℕ
  pub connected_at : ℕ
  pub last_id : ℕ
  pub connections : ℕ
  pub disconnected_at : Option ℕ
  pub tcp : ℕ
  pub online_seconds : ℤ
  pub bytes_in : ℕ
  pub bytes_out : ℕ
  -- the row with `last_id`
  pub latest : VpnSession

abbrev pub is_tcp : VpnSession → Bool
is_tcp s = elim s.proto [ none ↦ false | some p ↦ text_eq p (codes "tcp") ]

abbrev pub open_rows : List VpnSession → ℕ
open_rows rows = length (select is_open rows)

-- A row of `grouped`, joined with the session that has its last id.
abbrev pub visit_of : Option ℕ → List VpnSession → VpnSession → Visit
visit_of g rows l = record {
  grp = g;
  connected_at = min_of (λ (s : VpnSession). s.connected_at) rows;
  last_id = l.id;
  connections = length rows;
  disconnected_at = if open_rows rows == 0 then some (max_of ended rows) else none;
  tcp = length (select is_tcp rows);
  online_seconds = seconds_online rows;
  bytes_in = sum_of (λ (s : VpnSession). s.bytes_in) rows;
  bytes_out = sum_of (λ (s : VpnSession). s.bytes_out) rows;
  latest = l;
}

abbrev pub has_id : ℕ → VpnSession → Bool
has_id id s = s.id == id

abbrev pub join_latest : Db → Option ℕ × List VpnSession → List Visit
join_latest db (g, rows) =
    map (visit_of g rows) (select (has_id (max_of (λ (s : VpnSession). s.id) rows)) db.vpn_sessions)

unfoldable pub join_all : Db → List (Option ℕ × List VpnSession) → List Visit
join_all db [] = []
join_all db (g ∷ groups) = join_latest db g ++ join_all db groups

abbrev pub is_listed_visit : Bool → Option ℕ × List VpnSession → Bool
is_listed_visit active (g, rows) = not active || ltb 0 (open_rows rows)

-- NULL stands first in a descending order.
abbrev pub grp_ge : Option ℕ → Option ℕ → Bool
grp_ge none b = true
grp_ge (some a) none = false
grp_ge (some a) (some b) = leb b a

-- ORDER BY g.connected_at DESC, g.grp DESC
abbrev pub visit_before : Visit → Visit → Bool
visit_before a b =
    ltb b.connected_at a.connected_at || (a.connected_at == b.connected_at && grp_ge a.grp b.grp)

abbrev pub visit_groups : (VpnSession → Bool) → Bool → Db → List (Option ℕ × List VpnSession)
visit_groups test active db =
    select (is_listed_visit active)
      (group_by grp_eq (λ (s : VpnSession). s.grp) (select test db.vpn_sessions))

-- The number of visits and a page of them, for the rows that pass the condition.
unfoldable pub visits : (VpnSession → Bool) → ℕ → ℕ → Bool → Db → ℕ × List Visit
visits test limit offset active db = (
  length (visit_groups test active db),
  take limit (drop offset (order_by visit_before (join_all db (visit_groups test active db)))),
)

-- `last` of group_sessions: the group and the end of each client's latest session, latest first.
pub record Last : Type 0 where
  pub client : Text
  pub ip : Text
  pub grp : ℕ
  pub ended : ℕ

unfoldable pub last_of : Text → Text → List Last → Option Last
last_of client ip [] = none
last_of client ip (l ∷ ls) =
    if text_eq l.client client && text_eq l.ip ip then some l else last_of client ip ls

-- The row's group: that of the session before it, unless that ended too long ago.
abbrev pub grp_for : VpnSession → Option Last → ℕ
grp_for r none = r.id
grp_for r (some l) = if ltb (l.ended + merge_gap) r.connected_at then r.id else l.grp

abbrev pub end_for : VpnSession → Option Last → ℕ
end_for r none = ended r
end_for r (some l) = max l.ended (ended r)

abbrev pub last_for : VpnSession → Option Last → Last
last_for r before = record {
  client = r.client_name;
  ip = real_ip r.real_address;
  grp = grp_for r before;
  ended = end_for r before;
}

abbrev pub row_last : VpnSession → List Last → Option Last
row_last r last = last_of r.client_name (real_ip r.real_address) last

-- SET grp = ?, proto = COALESCE(proto, ?)
abbrev pub set_grp : ℕ → VpnSession → VpnSession → VpnSession
set_grp g r s = record s {
  grp = some g;
  proto = (elim s.proto [ some p ↦ some p | none ↦ (split_address r.real_address).0 ]);
}

-- The loop over the rows.
unfoldable pub assign : List VpnSession → List Last → List VpnSession → List VpnSession
assign [] last table = table
assign (r ∷ rows) last table =
    assign rows (last_for r (row_last r last) ∷ last)
      (update_where (has_id r.id) (set_grp (grp_for r (row_last r last)) r) table)

-- ORDER BY connected_at, id
abbrev pub oldest_first : VpnSession → VpnSession → Bool
oldest_first a b =
    ltb a.connected_at b.connected_at || (a.connected_at == b.connected_at && leb a.id b.id)

abbrev pub ungrouped : Db → List VpnSession
ungrouped db = order_by oldest_first (select (λ (s : VpnSession). is_none s.grp) db.vpn_sessions)

unfoldable pub group_sessions : Db → ℕ × Db
group_sessions db =
    (length (ungrouped db), record db { vpn_sessions = assign (ungrouped db) [] db.vpn_sessions })
