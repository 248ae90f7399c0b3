-- ===== src/Db/Visits.antt =====
-- ui/app/db.py: what the session queries return, and the visits that `insert_session` builds.
use openvpn_server.Base.{
  ℕ, ◌+◌, ◌≡◌, ◌≤◌, ◌⊎◌, inl, inr, refl, Bool, true, false, ◌&&◌, ◌||◌, none, some, List, [], ◌∷◌,
  arith, Text, text_eq, text_eq_iff, text_eq_sound, leb, ◌==◌, select, order_by, take, Member,
  Member-select, Member-order_by, Member-take, IsOrder, head-order_by, Bool-cases,
}
use openvpn_server.Db.Schema.{VpnSession, Db}
use openvpn_server.Db.Address.{split_address, real_ip}
use openvpn_server.Db.Sessions.{
  merge_gap, ended, is_open, of_client, newest_first, highest_id_first, find_session, first_from,
  latest_session, group_from, session_group,
}

highest_id_first-IsOrder : IsOrder highest_id_first
unfolding highest_id_first
highest_id_first-IsOrder = record {
  total = λ a b h. ground arith;
  trans = λ a b c h k. ground arith;
}

abbrev same_connection : Text → ℕ → ℕ → VpnSession → Bool
same_connection client_name cid connected_at s =
    of_client client_name s
    && (elim s.cid [ none ↦ false | some c ↦ c == cid ])
    && s.connected_at == connected_at

same_connection-fields :
    (client_name : Text) (cid connected_at : ℕ) (s : VpnSession)
    → same_connection client_name cid connected_at s ≡ true
    → (s.client_name ≡ client_name) × (s.cid ≡ some cid) × (s.connected_at ≡ connected_at)
same_connection-fields client_name cid connected_at s h =
    ground (arith, text_eq_iff s.client_name client_name)

same_connection_of :
    (client_name : Text) (cid connected_at : ℕ) (s : VpnSession)
    → s.client_name ≡ client_name
    → s.cid ≡ some cid
    → s.connected_at ≡ connected_at
    → same_connection client_name cid connected_at s ≡ true
same_connection_of client_name cid connected_at s n c t =
    ground (arith, text_eq_iff s.client_name client_name)

-- The row that `find_session` returns is a row of the table with this name, client id and start,
-- and no other such row has a higher id.
find_session-newest :
    (db : Db) (client_name : Text) (cid connected_at : ℕ) (s : VpnSession)
    → find_session db client_name cid connected_at ≡ some s
    → Member s db.vpn_sessions
      × (s.client_name ≡ client_name)
      × (s.cid ≡ some cid)
      × (s.connected_at ≡ connected_at)
      × ((t : VpnSession)
          → Member t db.vpn_sessions
          → t.client_name ≡ client_name
          → t.cid ≡ some cid
          → t.connected_at ≡ connected_at
          → t.id ≤ s.id)
unfolding find_session highest_id_first
find_session-newest db client_name cid connected_at s h =
    let (found, passes, first) =
      head-order_by highest_id_first highest_id_first-IsOrder
        (same_connection client_name cid connected_at) s db.vpn_sessions h in
    let (n, c, t) = same_connection-fields client_name cid connected_at s passes in
    (
      found,
      n,
      c,
      t,
      λ u m un uc ut.
          let le = first u m (same_connection_of client_name cid connected_at u un uc ut) in
          ground arith,
    )

first_from_sound :
    (want : Text) (rows : List VpnSession) (s : VpnSession)
    → first_from want rows ≡ some s
    → Member s rows × ((split_address s.real_address).1 ≡ want)
unfolding first_from
first_from_sound want [] s h = cc
first_from_sound want (r ∷ rows) s h =
    ground (arith, text_eq_iff (split_address r.real_address).1 want, first_from_sound want rows s)

group_from_sound :
    (ip : Text) (connected_at : ℕ) (rows : List VpnSession) (g : ℕ)
    → group_from ip connected_at rows ≡ some g
    → (s : VpnSession) × Member s rows
      × (real_ip s.real_address ≡ ip)
      × (s.grp ≡ some g)
      × (connected_at ≤ ended s + merge_gap)
unfolding group_from
group_from_sound ip connected_at [] g h = cc
group_from_sound ip connected_at (r ∷ rows) g h =
    elim (Bool-cases (text_eq (real_ip r.real_address) ip)) [
      | inl e ↦ (r, inl refl, text_eq_sound _ _ e, ground arith, ground arith)
      | inr e ↦
          let (s, m, i, q, t) = group_from_sound ip connected_at rows g (ground arith) in
          (s, inr m, i, q, t)
    ]

of_client-eq : (name : Text) (s : VpnSession) → of_client name s ≡ true → s.client_name ≡ name
of_client-eq name s h = text_eq_sound s.client_name name h

-- The row that `latest_session` returns is a session of this client from this address, compared
-- without the protocol prefix, that is open or started at or after `since`.
latest_session_sound :
    (db : Db) (client_name address : Text) (since : ℕ) (s : VpnSession)
    → latest_session db client_name address since ≡ some s
    → Member s db.vpn_sessions
      × (s.client_name ≡ client_name)
      × ((split_address s.real_address).1 ≡ (split_address (some address)).1)
      × ((s.disconnected_at ≡ none) ⊎ (since ≤ s.connected_at))
unfolding latest_session
latest_session_sound db client_name address since s h =
    let test =
      λ (r : VpnSession). of_client client_name r && (leb since r.connected_at || is_open r) in
    let rows = order_by newest_first (select test db.vpn_sessions) in
    let (listed, same) = first_from_sound (split_address (some address)).1 (take 20 rows) s h in
    let (found, passes) = Member-select test s db.vpn_sessions (
      Member-order_by newest_first s (select test db.vpn_sessions)
        (Member-take 20 s rows listed)) in
    (found, ground (arith, of_client-eq client_name s), same, ground arith)

-- A visit is continued only from a session of the same client and the same IP address that ended
-- at most `merge_gap` seconds before the new one starts, and its group is the one that is passed on.
pub session_group_sound :
    (db : Db) (client_name address : Text) (connected_at g : ℕ)
    → session_group db client_name address connected_at ≡ some g
    → (s : VpnSession) × Member s db.vpn_sessions
      × (s.client_name ≡ client_name)
      × (real_ip s.real_address ≡ real_ip (some address))
      × (s.grp ≡ some g)
      × (connected_at ≤ ended s + merge_gap)
unfolding session_group
session_group_sound db client_name address connected_at g h =
    let rows = order_by newest_first (select (of_client client_name) db.vpn_sessions) in
    let (s, m, i, q, t) =
      group_from_sound (real_ip (some address)) connected_at (take 20 rows) g h in
    let (found, passes) = Member-select (of_client client_name) s db.vpn_sessions (
      Member-order_by newest_first s (select (of_client client_name) db.vpn_sessions)
        (Member-take 20 s rows m)) in
    (s, found, of_client-eq client_name s passes, i, q, t)
