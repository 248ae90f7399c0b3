-- ===== src/Collector/Poll.antt =====
-- ui/app/collector.py, poll and _close_sessions. A failing database statement ends the poll with its
-- transaction rolled back, which is `none` here.
use openvpn_server.Base.{
  ℕ, ◌-◌, ◌%◌, max, Bool, true, false, not, ◌&&◌, ◌||◌, Option, none, some, List, [], ◌∷◌, ◌++◌,
  Text, text_eq, codes, nonempty, if◌then◌else◌, ◌==◌, leb, any, coalesce, update_where, order_by,
  ℤ, pos, sub_ℕ, is_negative, select, delete_where,
}
use openvpn_server.Db.Schema.{VpnSession, Db}
use openvpn_server.Db.Sessions.{Fields, is_open, find_session, insert_session, set_session}
use openvpn_server.Db.Traffic.{add_traffic}
use openvpn_server.Collector.State.{
  Client, Status, Rate, no_rate, add_rate, Key, key_eq, key_of, Active, LiveClient, Live, Collector,
  find_active, put_active, text_le,
}

-- Still in the TLS handshake: no certificate accepted yet.
abbrev pub is_handshake : Client → Bool
is_handshake cl =
    (not (nonempty cl.cn) || text_eq cl.cn (codes "UNDEF")) || not (nonempty cl.vpn_ip)

abbrev pub start_of : ℕ → Client → ℕ
start_of now cl = if cl.connected_since == 0 then now else cl.connected_since

abbrev pub new_fields : ℕ → Client → Fields
new_fields now cl = record {
  cid = some cl.cid;
  vpn_ip = some cl.vpn_ip;
  username = some cl.username;
  cipher = some cl.cipher;
  last_seen = some now;
  disconnected_at = none;
  bytes_in = cl.bytes_in;
  bytes_out = cl.bytes_out;
  end_reason = none;
}

-- The UPDATE that reopens the row of a connection that predates this collector.
abbrev pub reopened : ℕ → Client → VpnSession → VpnSession
reopened now cl s = record s {
  disconnected_at = none;
  last_seen = now;
  bytes_in = cl.bytes_in;
  bytes_out = cl.bytes_out;
}

-- The session row of a connection that is not in `_active`, given the row it had before, and the
-- bytes to count for it.
unfoldable pub start_from : ℕ → Client → Db → Option VpnSession → ℕ × ℤ × ℤ × Db
start_from now cl db (some prev) = (
  prev.id,
  pos (cl.bytes_in - prev.bytes_in),
  pos (cl.bytes_out - prev.bytes_out),
  set_session prev.id (reopened now cl) db,
)
start_from now cl db none =
    let (id, db') = insert_session db cl.cn cl.real_address (start_of now cl) (new_fields now cl) in
    (id, pos cl.bytes_in, pos cl.bytes_out, db')

unfoldable pub start_session : ℕ → Client → Db → ℕ × ℤ × ℤ × Db
start_session now cl db = start_from now cl db (find_session db cl.cn cl.cid (start_of now cl))

-- The bytes since the last poll; a counter that went backwards was reset.
abbrev pub counted_since : ℕ → ℕ → ℤ
counted_since new old = let d = sub_ℕ new old in if is_negative d then pos new else d

abbrev pub rate_of : ℤ → ℕ → Rate
rate_of (pos d) dt = record { bytes = d; seconds = dt }
rate_of _ dt = record { bytes = 0; seconds = dt }

-- The UPDATE of the row of a connection that goes on.
abbrev pub refreshed : ℕ → Client → VpnSession → VpnSession
refreshed now cl s = record s {
  last_seen = now;
  bytes_in = cl.bytes_in;
  bytes_out = cl.bytes_out;
  vpn_ip = if nonempty cl.vpn_ip then some cl.vpn_ip else s.vpn_ip;
  cipher = if nonempty cl.cipher then some cl.cipher else s.cipher;
}

abbrev pub started : ℕ → Client → ℕ → Active
started server_now cl session_id = record {
  key = key_of cl;
  session_id = session_id;
  bytes_in = cl.bytes_in;
  bytes_out = cl.bytes_out;
  ts = server_now;
  rate_in = no_rate;
  rate_out = no_rate;
}

-- The entry and the database for a client that is past the handshake, given its entry so far.
unfoldable pub count_from : ℕ → ℕ → Client → Db → Option Active → Active × Db
count_from now server_now cl db none =
    let (id, d_in, d_out, db') = start_session now cl db in
    (started server_now cl id, add_traffic db' (now - now % 60) cl.cn d_in d_out)
count_from now server_now cl db (some e) =
    let d_in = counted_since cl.bytes_in e.bytes_in in
    let d_out = counted_since cl.bytes_out e.bytes_out in
    let dt = max (server_now - e.ts) 1 in
    (
      record e {
        bytes_in = cl.bytes_in;
        bytes_out = cl.bytes_out;
        ts = server_now;
        rate_in = rate_of d_in dt;
        rate_out = rate_of d_out dt;
      },
      add_traffic (set_session e.session_id (refreshed now cl) db) (now - now % 60) cl.cn d_in
          d_out,
    )

unfoldable pub count_client : ℕ → ℕ → Client → List Active → Db → Active × Db
count_client now server_now cl active db =
    count_from now server_now cl db (find_active (key_of cl) active)

-- The variables of the loop over the clients.
pub record Work : Type 0 where
  pub db : Db
  pub active : List Active
  pub seen : List Key
  pub live_clients : List LiveClient
  pub rate_in : Rate
  pub rate_out : Rate

unfoldable pub poll_client : ℕ → ℕ → Client → Work → Work
poll_client now server_now cl w =
    if is_handshake cl
    then w
    else (let (e, db') = count_client now server_now cl w.active w.db in
        record w {
          db = db';
          active = put_active e w.active;
          seen = key_of cl ∷ w.seen;
          live_clients =
              w.live_clients
              ++ (record {
                client = cl;
                session_id = e.session_id;
                rate_in = e.rate_in;
                rate_out = e.rate_out;
              })
                ∷ [];
          rate_in = add_rate w.rate_in e.rate_in;
          rate_out = add_rate w.rate_out e.rate_out;
        })

unfoldable pub poll_clients : ℕ → ℕ → List Client → Work → Work
poll_clients now server_now [] w = w
poll_clients now server_now (cl ∷ cls) w =
    poll_clients now server_now cls (poll_client now server_now cl w)

abbrev pub closed_at : ℕ → Option Text → VpnSession → VpnSession
closed_at now reason s = record s {
  disconnected_at = some now;
  end_reason = (elim s.end_reason [ none ↦ reason | some r ↦ some r ]);
}

-- The UPDATEs of `_close_sessions` for the entries that it pops.
unfoldable pub close_sessions : List Active → ℕ → Option Text → Db → Db
close_sessions [] now reason db = db
close_sessions (e ∷ es) now reason db = close_sessions es now reason (record db {
  vpn_sessions =
      update_where (λ s. s.id == e.session_id && is_open s) (closed_at now reason) db.vpn_sessions;
})

abbrev pub was_seen : List Key → Active → Bool
was_seen seen e = any (λ k. key_eq k e.key) seen

-- UPDATE ... WHERE disconnected_at IS NULL AND id NOT IN (...): PostgreSQL refuses an empty list.
unfoldable pub close_lost : List Active → Db → Option Db
close_lost [] db = none
close_lost (e ∷ es) db = some (record db {
  vpn_sessions =
      update_where (λ s. is_open s && not (any (λ a. a.session_id == s.id) (e ∷ es)))
        (λ s. record s { disconnected_at = some s.last_seen }) db.vpn_sessions;
})

-- The sessions that ended while `_active` was lost are closed after a failed write.
unfoldable pub resynced : Bool → List Active → Db → Option Db
resynced false kept db = some db
resynced true kept db = close_lost kept db

-- The loop of `poll` over the clients of the status.
unfoldable pub poll_loop : ℕ → Status → List Active → Db → Work
poll_loop now status active db = poll_clients now status.time status.clients (record {
  db = db;
  active = active;
  seen = [];
  live_clients = [];
  rate_in = no_rate;
  rate_out = no_rate;
})

abbrev pub kept_of : Work → List Active
kept_of w = select (was_seen w.seen) w.active

abbrev pub gone_of : Work → List Active
gone_of w = delete_where (was_seen w.seen) w.active

abbrev pub with_work : Work → Option Db → Option (Work × Db)
with_work w none = none
with_work w (some db) = some (w, db)

-- The transaction of `poll`: the loop, the sessions that ended, and those lost by a failed write.
unfoldable pub poll_tx : ℕ → Status → Bool → List Active → Db → Option (Work × Db)
poll_tx now status resync active db =
    let w = poll_loop now status active db in
    with_work (record w { active = kept_of w })
      (resynced resync (kept_of w) (close_sessions (gone_of w) now none w.db))

-- live_clients.sort(key=lambda c: (c["cn"], c["connected_since"]))
unfoldable pub live_order : LiveClient → LiveClient → Bool
live_order a b =
    if text_eq a.client.cn b.client.cn
    then leb a.client.connected_since b.client.connected_since
    else text_le a.client.cn b.client.cn

-- What the management interface answered in this turn: its state before, the load, the version if
-- it was asked and answered, the status, and since when it is connected.
pub record Answers : Type 0 where
  pub was_connected : Bool
  pub load : List (Text × ℕ)
  pub version : Option Text
  pub status : Status
  pub connected_since : Option ℕ

abbrev pub version_now : Collector → Answers → Option Text
version_now c r =
    if not r.was_connected || not (nonempty (coalesce c.live.version []))
    then r.version
    else c.live.version

abbrev pub same_time : Option ℕ → ℕ → Bool
same_time none t = false
same_time (some s) t = t == s

-- The live view after a poll that counted the clients.
abbrev pub live_after : ℕ → Answers → Collector → Work → Live
live_after now r c w = record {
  connected = true;
  error = none;
  version = version_now c r;
  server_time = some r.status.time;
  updated_at = some now;
  connected_since = r.connected_since;
  clients = order_by live_order w.live_clients;
  load = r.load;
  stats = r.status.stats;
  rate_in = w.rate_in;
  rate_out = w.rate_out;
}

abbrev pub polled : ℕ → Answers → Collector → Option (Work × Db) → Option (Collector × Db)
polled now r c none = none
polled now r c (some (w, db)) = some (
  record c {
    status_time = some r.status.time;
    active = w.active;
    resync = false;
    live = live_after now r c w;
    published = live_after now r c w ∷ c.published;
  },
  db,
)

-- The status file has not been rewritten since the last poll: nothing new to count.
abbrev pub is_unchanged : Answers → Collector → Bool
is_unchanged r c = r.status.from_file && (same_time c.status_time r.status.time && c.live.connected)

-- A poll in which the management interface answered.
unfoldable pub poll : ℕ → Answers → Collector → Db → Option (Collector × Db)
poll now r c db =
    if is_unchanged r c
    then some (record c { live = record (c.live) { load = r.load; updated_at = some now } }, db)
    else polled now r c (poll_tx now r.status c.resync c.active db)
