-- ===== src/Collector/Turn.antt =====
-- ui/app/collector.py, run and _handle_down: one turn of the thread's loop. `backoff` and the pauses
-- are in sixteenths of a second, which hold 2.0 and 15.0; what a growth by half leaves below a
-- sixteenth is dropped.
use openvpn_server.Base.{
  ℕ, ◌*◌, ◌/◌, ◌≤◌, ◌≡◌, ◌⊎◌, min, Bool, true, false, not, ◌||◌, Option, none, some, List, [], ◌∷◌,
  Text, text_eq, codes, if◌then◌else◌,
}
use openvpn_server.Db.Schema.{Db}
use openvpn_server.Collector.State.{Active, Collector, no_rate}
use openvpn_server.Collector.Log.{Log}
use openvpn_server.Collector.Reading.{Logs, read_logs}
use openvpn_server.Collector.Poll.{close_sessions, Answers, poll}

-- What the management interface does in a turn: answers, or is down with an error text; and whether
-- the transaction of `poll` or that of `_handle_down` fails for a reason of the database's.
pub data Reply : Type 0 where
  answered : Answers → Reply
  unwritten : Reply
  unavailable : Text → Reply
  unavailable_unwritten : Text → Reply

abbrev other_error : Option Text → Text → Bool
other_error none error = true
other_error (some e) error = not (text_eq e error)

unfoldable pub handle_down : ℕ → Text → Collector → Db → Collector × Db
handle_down now error c db =
    let changed = c.live.connected || other_error c.live.error error in
    let live = record (c.live) {
      connected = false;
      error = some error;
      clients = [];
      load = [];
      rate_in = no_rate;
      rate_out = no_rate;
      updated_at = some now;
      connected_since = none;
    } in
    (
      record c {
        status_time = none;
        active = [];
        live = live;
        published = if changed then live ∷ c.published else c.published;
      },
      close_sessions c.active now (some (codes "server down")) db,
    )

-- After an unexpected exception: forget what this thread believes is stored.
abbrev pub forget_active : Collector → Collector
forget_active c = record c { active = []; status_time = none; resync = true }

-- The thread's own variables beside the collector's, and the pause before the next turn.
pub record Thread : Type 0 where
  pub collector : Collector
  pub db : Db
  pub backoff : ℕ
  pub delay : ℕ

-- The `try` around `poll` in a turn.
unfoldable pub after_poll : ℕ → Thread → Option (Collector × Db) → Thread
after_poll interval t (some (c, db)) = record t {
  collector = c;
  db = db;
  backoff = 2 * 16;
  delay = interval;
}
after_poll interval t none = record t { collector = forget_active t.collector; delay = interval }

-- The pause after an outage, and the next one.
abbrev pub paused : Thread → Thread
paused t = record t { delay = t.backoff; backoff = min (t.backoff * 3 / 2) (15 * 16) }

abbrev pub after_down : Collector × Db → Thread → Thread
after_down (c, db) t = record t { collector = c; db = db }

-- Without a connected client there is no transaction that could fail.
unfoldable pub down_unwritten : ℕ → Text → List Active → Thread → Thread
down_unwritten now error [] t = after_down (handle_down now error t.collector t.db) t
down_unwritten now error (a ∷ active) t = record t { collector = forget_active t.collector }

unfoldable pub try_poll : ℕ → ℕ → Reply → Thread → Thread
try_poll interval now (answered r) t = after_poll interval t (poll now r t.collector t.db)
try_poll interval now unwritten t = after_poll interval t none
try_poll interval now (unavailable error) t =
    after_down (handle_down now error t.collector t.db) (paused t)
try_poll interval now (unavailable_unwritten error) t =
    down_unwritten now error t.collector.active (paused t)

-- What a turn meets: the time, the management interface, and the logs.
pub record Round : Type 0 where
  pub now : ℕ
  pub reply : Reply
  pub logs : Logs

-- What `read_logs` reads and writes of the thread.
abbrev pub log_of : Thread → Log
log_of t = record { pending = t.collector.pending; db = t.db }

abbrev pub after_logs : Log → Thread → Thread
after_logs l t = record t { collector = record (t.collector) { pending = l.pending }; db = l.db }

unfoldable pub turn : ℕ → Round → Thread → Thread
turn interval round t =
    let t' = try_poll interval round.now round.reply t in
    after_logs (read_logs round.logs (log_of t')) t'

unfoldable pub run_turns : ℕ → List Round → Thread → Thread
run_turns interval [] t = t
run_turns interval (round ∷ rest) t = run_turns interval rest (turn interval round t)

-- The pause is the interval, or between 2 and 15 seconds, as is the one after the next failure.
abbrev pub IsPaced : ℕ → Thread → Type 0
IsPaced interval t =
    ((2 * 16 ≤ t.backoff) × (t.backoff ≤ 15 * 16))
    × ((t.delay ≡ interval) ⊎ ((2 * 16 ≤ t.delay) × (t.delay ≤ 15 * 16)))
