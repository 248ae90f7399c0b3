-- ===== src/Db/Sessions.antt =====
-- ui/app/db.py: VPN sessions and visits. A visit is the sessions of one client from one address
-- that follow each other within `merge_gap`; `grp` is the id of its first session.
use openvpn_server.Base.{
  ℕ, ◌+◌, ◌-◌, ◌*◌, Bool, false, ◌&&◌, ◌||◌, Option, none, some, List, [], ◌∷◌, ◌++◌, Text, text_eq,
  if◌then◌else◌, ltb, leb, ◌==◌, select, update_where, order_by, take, head?, coalesce, is_none,
  length,
}
use openvpn_server.Db.Schema.{VpnSession, Db}
use openvpn_server.Db.Address.{split_address, real_ip}

abbrev pub merge_gap : ℕ
merge_gap = 15 * 60

-- COALESCE(disconnected_at, last_seen)
abbrev pub ended : VpnSession → ℕ
ended s = coalesce s.disconnected_at s.last_seen

-- disconnected_at IS NULL
abbrev pub is_open : VpnSession → Bool
is_open s = is_none s.disconnected_at

abbrev pub of_client : Text → VpnSession → Bool
of_client name s = text_eq s.client_name name

-- ORDER BY connected_at DESC, id DESC
unfoldable pub newest_first : VpnSession → VpnSession → Bool
newest_first a b =
    ltb b.connected_at a.connected_at || (a.connected_at == b.connected_at && leb b.id a.id)

-- ORDER BY id DESC
unfoldable pub highest_id_first : VpnSession → VpnSession → Bool
highest_id_first a b = leb b.id a.id

-- Returns the number of sessions that were open.
unfoldable pub close_stale_sessions : Option ℕ → Db → ℕ × Db
close_stale_sessions at db = (
  length (select is_open db.vpn_sessions),
  record db {
    vpn_sessions =
        update_where is_open (λ s. record s { disconnected_at = some (coalesce at s.last_seen) })
          db.vpn_sessions;
  },
)

unfoldable pub find_session : Db → Text → ℕ → ℕ → Option VpnSession
find_session db client_name cid connected_at = head? (
    order_by highest_id_first (
      select
        (λ s.
          of_client client_name s
          && (elim s.cid [ none ↦ false | some c ↦ c == cid ])
          && s.connected_at == connected_at)
        db.vpn_sessions))

-- The loop of `latest_session` over the rows, newest first.
unfoldable pub first_from : Text → List VpnSession → Option VpnSession
first_from want [] = none
first_from want (s ∷ rows) =
    if text_eq (split_address s.real_address).1 want then some s else first_from want rows

unfoldable pub latest_session : Db → Text → Text → ℕ → Option VpnSession
latest_session db client_name address since = first_from (split_address (some address)).1 (
    take 20 (
      order_by newest_first (
        select (λ s. of_client client_name s && (leb since s.connected_at || is_open s))
          db.vpn_sessions)))

-- The loop of `session_group` over the rows, newest first.
unfoldable pub group_from : Text → ℕ → List VpnSession → Option ℕ
group_from ip connected_at [] = none
group_from ip connected_at (s ∷ rows) =
    if text_eq (real_ip s.real_address) ip
    then (if leb (connected_at - ended s) merge_gap then s.grp else none)
    else group_from ip connected_at rows

unfoldable pub session_group : Db → Text → Text → ℕ → Option ℕ
session_group db client_name address connected_at =
    group_from (real_ip (some address)) connected_at
      (take 20 (order_by newest_first (select (of_client client_name) db.vpn_sessions)))

-- The `**fields` of `insert_session`; a field that is not given takes the column's default.
pub record Fields : Type 0 where
  pub cid : Option ℕ
  pub vpn_ip : Option Text
  pub username : Option Text
  pub cipher : Option Text
  pub last_seen : Option ℕ
  pub disconnected_at : Option ℕ
  pub bytes_in : ℕ
  pub bytes_out : ℕ
  pub end_reason : Option Text

abbrev pub new_session : ℕ → Text → Text → ℕ → Fields → Option ℕ → VpnSession
new_session id client_name real_address connected_at fields grp = record {
  id = id;
  client_name = client_name;
  cid = fields.cid;
  real_address = some real_address;
  vpn_ip = fields.vpn_ip;
  username = fields.username;
  cipher = fields.cipher;
  connected_at = connected_at;
  last_seen = coalesce fields.last_seen connected_at;
  disconnected_at = fields.disconnected_at;
  bytes_in = fields.bytes_in;
  bytes_out = fields.bytes_out;
  proto = (split_address (some real_address)).0;
  platform = none;
  client_ver = none;
  end_reason = fields.end_reason;
  grp = grp;
}

-- `UPDATE vpn_sessions SET ... WHERE id = ?`
unfoldable pub set_session : ℕ → (VpnSession → VpnSession) → Db → Db
set_session id set db = record db {
  vpn_sessions = update_where (λ s. s.id == id) set db.vpn_sessions;
}

-- The new row's id, and the database; a session that continues no visit starts one of its own.
unfoldable pub insert_session : Db → Text → Text → ℕ → Fields → ℕ × Db
insert_session db client_name real_address connected_at fields =
    let grp = session_group db client_name real_address connected_at in
    let id = db.next_session in
    let db' = record db {
      vpn_sessions =
          db.vpn_sessions ++ new_session id client_name real_address connected_at fields grp ∷ [];
      next_session = id + 1;
    } in
    (id, if is_none grp then set_session id (λ s. record s { grp = some id }) db' else db')
