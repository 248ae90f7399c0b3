-- ===== src/Tests/Polling.antt =====
-- ui/app/collector.py: polls of a server with one client and of a quiet one, and the theorems about
-- them.
use openvpn_server.Base.{
  inl, inr, Text, ℕ, ◌≡◌, refl, Bool, true, false, Option, none, some, List, [], ◌∷◌, arith, codes,
  ◌++◌,
}
use openvpn_server.Db.Schema.{Db}
use openvpn_server.Db.Groups.{IsGrouped}
use openvpn_server.Collector.State.{Client, Status, Live, Collector, no_rate}
use openvpn_server.Collector.Poll.{Answers}
use openvpn_server.Collector.State.{Pending}
use openvpn_server.Collector.Log.{Line, info, opened, ended, rejected, plat, read_lines}
use openvpn_server.Collector.Described.{read_lines-IsGrouped}
use openvpn_server.Collector.Reading.{Batch, unread, taken, undone, Logs}
use openvpn_server.Collector.Turn.{
  Reply, answered, unwritten, unavailable, unavailable_unwritten, Thread, Round, log_of, run_turns,
  IsPaced,
}
use openvpn_server.Collector.Runs.{run_turns-IsGrouped, resync_stuck, run_logs, IsForgetful}
use openvpn_server.Collector.Position.{
  LogEvent, appends, truncates, replaced, AreTold, on_event, read_file, whole, reads, on_events,
  queued_all,
}
use openvpn_server.Collector.Lines.{new_reader, on_events-queue}

abbrev client : Client
client = record {
  cn = codes "alice";
  real_address = codes "udp4:203.0.113.5:1194";
  vpn_ip = codes "10.8.0.2";
  vpn_ipv6 = [];
  bytes_in = 5;
  bytes_out = 7;
  connected_since = 90;
  username = [];
  cid = 3;
  peer_id = 0;
  cipher = codes "AES-256-GCM";
}

abbrev status : List Client → ℕ → Status
status clients time = record { time = time; clients = clients; stats = []; from_file = true }

abbrev answers : List Client → ℕ → Answers
answers clients time = record {
  was_connected = true;
  load = [];
  version = none;
  status = status clients time;
  connected_since = some 10;
}

abbrev live : Live
live = record {
  connected = true;
  error = none;
  version = some (codes "2.7");
  server_time = none;
  updated_at = none;
  connected_since = some 10;
  clients = [];
  load = [];
  stats = [];
  rate_in = no_rate;
  rate_out = no_rate;
}

abbrev collector : Bool → Collector
collector resync = record {
  status_time = none;
  active = [];
  pending = [];
  resync = resync;
  live = live;
  published = [];
}

abbrev db : Db
db = record {
  users = [];
  next_user = 2;
  web_sessions = [];
  settings = [];
  clients = [];
  hidden_certs = [];
  vpn_sessions = [];
  next_session = 1;
  relay_sessions = [];
  traffic_minute = [];
  traffic_hour = [];
  traffic_day = [];
  events = [];
  next_event = 1;
  archived_clients = [];
  rejections = [];
  share_tokens = [];
}

grouped : IsGrouped db
grouped = record { below = λ s m. elim m [ ]; visit = λ s m. elim m [ ] }

abbrev thread : Bool → Thread
thread resync = record { collector = collector resync; db = db; backoff = 32; delay = 80 }

abbrev phone : Text
phone = codes "udp4:203.0.113.5:1194"

-- A session that began and ended between two polls, and a refused one.
abbrev lines : List Line
lines =
    info 90 phone plat (codes "ios")
    ∷ opened 91 phone (codes "alice")
    ∷ rejected 92 (codes "eve") (codes "revoked") (codes "198.51.100.7")
    ∷ ended 95 phone (some (codes "alice")) (codes "left")
    ∷ []

abbrev logs : List Batch → Option ℕ → Logs
logs batches fails_after = record { batches = batches; now = 130; fails_after = fails_after }

abbrev round : ℕ → Reply → Logs → Round
round now reply l = record { now = now; reply = reply; logs = l }

abbrev position_key : Text
position_key = codes "logpos:openvpn.log"

-- A client connects, the log is read, the server goes down, and comes back; writes of the log and of
-- the outage fail.
abbrev rounds : List Round
rounds =
    round 100 (answered (answers (client ∷ []) 99))
      (logs (taken position_key (codes "7:120") lines ∷ []) none)
    ∷ round 110 (unavailable (codes "connection refused")) (logs (unread ∷ undone lines ∷ []) none)
    ∷ round 115 (unavailable_unwritten (codes "connection refused")) (logs [] (some 1))
    ∷ round 120 (answered (answers (client ∷ []) 119)) (logs [] none)
    ∷ round 125 (unavailable_unwritten (codes "connection refused")) (logs [] none)
    ∷ round 130 unwritten (logs [] none)
    ∷ []

run_turns-IsGrouped_example :
    let t' = run_turns 80 rounds (thread false) in IsGrouped t'.db × IsPaced 80 t'
run_turns-IsGrouped_example =
    run_turns-IsGrouped 80 rounds (thread false) grouped ((omega arith, omega arith), inl refl)

-- The second turn also reads a refused attempt from the log.
abbrev quiet : List Round
quiet =
    round 100 (answered (answers [] 99)) (logs [] none)
    ∷ round 110 (answered (answers [] 109))
        (logs (taken position_key (codes "7:120") lines ∷ []) none)
    ∷ []

resync_stuck_example :
    let t' = run_turns 80 quiet (thread true) in
    (log_of t' ≡ run_logs quiet (log_of (thread true))) × IsForgetful t'.collector
resync_stuck_example = resync_stuck 80 quiet (thread true) (refl, refl, refl) (tt, (tt, tt))

read_lines-IsGrouped_example : IsGrouped (read_lines lines (record { pending = []; db = db })).db
read_lines-IsGrouped_example = read_lines-IsGrouped lines (record { pending = []; db = db }) grouped

abbrev handshake : Pending
handshake = record {
  address = phone;
  ts = 90;
  cn = some (codes "alice");
  plat = some (codes "ios");
  gui_ver = none;
  ver = none;
}

abbrev log_events : List LogEvent
log_events =
    reads
    ∷ appends (98 ∷ 10 ∷ [])
    ∷ reads
    ∷ truncates
    ∷ appends (99 ∷ 10 ∷ [])
    ∷ reads
    ∷ replaced 3 (100 ∷ 10 ∷ 101 ∷ [])
    ∷ reads
    ∷ []

told : AreTold 100 log_events (new_reader 7 (97 ∷ []))
unfolding on_event read_file whole
told = (
  λ e. inr (inr refl),
  (λ e. inr (inr refl), (λ e. inr (inl (omega arith)), (λ e. inl (λ q. omega arith), tt))),
)

-- A line that is not yet whole waits, and a truncated log and a new file are read from the start.
on_events-queue_example :
    let r = on_events 100 log_events (new_reader 7 (97 ∷ [])) in
    let q = queued_all 100 log_events (record { taken = []; waiting = 97 ∷ [] }) in
    (r.handed ≡ q.taken) × (q.taken ++ q.waiting ≡ r.file.bytes)
on_events-queue_example = on_events-queue 100 log_events 7 (97 ∷ []) told
