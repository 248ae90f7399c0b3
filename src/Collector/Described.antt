-- ===== src/Collector/Described.antt =====
-- ui/app/collector.py: the lines of the log keep the sessions table well formed, and no handshake is
-- kept for long.
use openvpn_server.Base.{
  ℕ, ◌+◌, ◌≡◌, ◌≤◌, ◌⊎◌, inl, inr, refl, Bool, true, false, Option, none, some, List, [], ◌∷◌,
  arith, Text, is_some, Member, Bool-cases, delete_where,
}
use openvpn_server.Db.Schema.{VpnSession, Db}
use openvpn_server.Db.Sessions.{latest_session, set_session, insert_session}
use openvpn_server.Db.History.{add_rejection}
use openvpn_server.Db.Groups.{IsGrouped, insert_session-IsGrouped}
use openvpn_server.Collector.State.{Pending}
use openvpn_server.Db.History.{set_setting}
use openvpn_server.Collector.Reading.{
  Batch, unread, taken, undone, Logs, store_position, read_batches, describe_pending, after_batches,
  read_logs,
}
use openvpn_server.Collector.Visits.{set_session-IsGrouped}
use openvpn_server.Collector.Log.{
  pending_max_age, Line, info, opened, ended, rejected, Log, has_address, find_pending, with_device,
  set_device, set_device_if, since_of, is_of, short_fields, insert_short, with_reason, end_session,
  end_connection, read_line, read_lines, session_of, describe, describe_sessions,
}

set_device-IsGrouped :
    (id : ℕ) (address : Text) (peer : Pending) (db : Db)
    → IsGrouped db
    → IsGrouped (set_device id address peer db)
unfolding set_device
set_device-IsGrouped id address peer db valid =
    set_session-IsGrouped id (with_device address peer) db (λ s h. (refl, refl, refl, refl)) valid

set_device_if-IsGrouped :
    (id : ℕ) (address : Text) (peer : Option Pending) (db : Db)
    → IsGrouped db
    → IsGrouped (set_device_if id address peer db)
unfolding set_device_if
set_device_if-IsGrouped id address none db valid = valid
set_device_if-IsGrouped id address (some peer) db valid =
    set_device-IsGrouped id address peer db valid

insert_short-IsGrouped :
    (ts : ℕ) (address cn reason : Text) (peer : Pending) (db : Db)
    → IsGrouped db
    → IsGrouped (insert_short ts address cn reason peer db)
unfolding insert_short
insert_short-IsGrouped ts address cn reason peer db valid =
    set_device-IsGrouped (insert_session db cn address peer.ts (short_fields ts reason)).0 address
      peer (insert_session db cn address peer.ts (short_fields ts reason)).1
      (insert_session-IsGrouped db cn address peer.ts (short_fields ts reason) valid)

end_session-IsGrouped :
    (ts : ℕ) (address cn reason : Text) (row : Option VpnSession) (peer : Option Pending) (db : Db)
    → IsGrouped db
    → IsGrouped (end_session ts address cn reason row peer db)
unfolding end_session
end_session-IsGrouped ts address cn reason (some row) peer db valid =
    set_device_if-IsGrouped row.id address peer (set_session row.id (with_reason reason) db)
      (set_session-IsGrouped row.id (with_reason reason) db (λ s h. (refl, refl, refl, refl)) valid)
end_session-IsGrouped ts address cn reason none none db valid = valid
end_session-IsGrouped ts address cn reason none (some peer) db valid =
    elim (Bool-cases (is_of cn peer)) [
      | inl e ↦ rw e (insert_short-IsGrouped ts address cn reason peer db valid)
      | inr e ↦ rw e valid
    ]

end_connection-IsGrouped :
    (ts : ℕ) (address : Text) (cn : Option Text) (reason : Text) (peer : Option Pending) (db : Db)
    → IsGrouped db
    → IsGrouped (end_connection ts address cn reason peer db)
unfolding end_connection
end_connection-IsGrouped ts address none reason peer db valid = valid
end_connection-IsGrouped ts address (some cn) reason peer db valid =
    end_session-IsGrouped ts address cn reason (latest_session db cn address (since_of peer)) peer
      db valid

read_line-IsGrouped : (line : Line) (l : Log) → IsGrouped l.db → IsGrouped (read_line line l).db
unfolding read_line add_rejection
read_line-IsGrouped (info ts address key value) l valid = valid
read_line-IsGrouped (opened ts address name) l valid = valid
read_line-IsGrouped (ended ts address cn reason) l valid =
    end_connection-IsGrouped ts address cn reason (find_pending address l.pending) l.db valid
read_line-IsGrouped (rejected ts client reason address) l valid = record {
  below = valid.below;
  visit = valid.visit;
}

-- Reading any lines of the log keeps a well-formed sessions table well formed.
pub read_lines-IsGrouped :
    (lines : List Line) (l : Log) → IsGrouped l.db → IsGrouped (read_lines lines l).db
unfolding read_lines
read_lines-IsGrouped [] l valid = valid
read_lines-IsGrouped (line ∷ lines) l valid =
    read_lines-IsGrouped lines (read_line line l) (read_line-IsGrouped line l valid)

describe-IsGrouped :
    (p : Pending) (row : Option VpnSession) (db : Db) → IsGrouped db → IsGrouped (describe p row db)
unfolding describe
describe-IsGrouped p none db valid = valid
describe-IsGrouped p (some row) db valid = set_device-IsGrouped row.id p.address p db valid

-- Describing sessions keeps a well-formed sessions table well formed, and a handshake that is kept
-- is one that was pending and is at most 600 seconds old.
pub describe_sessions-IsGrouped :
    (now : ℕ) (ps : List Pending) (db : Db)
    → IsGrouped db
    → IsGrouped (describe_sessions now ps db).1
      × ((p : Pending)
          → Member p (describe_sessions now ps db).0
          → Member p ps × (now ≤ p.ts + pending_max_age))
unfolding describe_sessions
describe_sessions-IsGrouped now [] db valid = (valid, λ p m. elim m [ ])
describe_sessions-IsGrouped now (q ∷ ps) db valid =
    let (done, kept) =
      describe_sessions-IsGrouped now ps (describe q (session_of q db) db)
        (describe-IsGrouped q (session_of q db) db valid) in
    (done, λ p m. ground (arith, kept p))

find_pending-delete :
    (address : Text) (ps : List Pending)
    → find_pending address (delete_where (has_address address) ps) ≡ none
unfolding find_pending delete_where
find_pending-delete address [] = refl
find_pending-delete address (p ∷ ps) = ground (arith, find_pending-delete address ps)

-- The end of a connection leaves no handshake pending for its address, whatever it does to the
-- sessions, and without a client's name it leaves the database as it is.
read_line-ended :
    (ts : ℕ) (address : Text) (cn : Option Text) (reason : Text) (l : Log)
    → let l' = read_line (ended ts address cn reason) l in
      (find_pending address l'.pending ≡ none) × ((is_some cn ≡ true) ⊎ (l'.db ≡ l.db))
unfolding read_line end_connection
read_line-ended ts address none reason l = (find_pending-delete address l.pending, inr refl)
read_line-ended ts address (some cn) reason l = (find_pending-delete address l.pending, inl refl)

read_batches-IsGrouped :
    (bs : List Batch) (l : Log) → IsGrouped l.db → IsGrouped (read_batches bs l).0.db
unfolding read_batches set_setting
read_batches-IsGrouped [] l valid = valid
read_batches-IsGrouped (unread ∷ bs) l valid = read_batches-IsGrouped bs l valid
read_batches-IsGrouped (taken key value lines ∷ bs) l valid =
    let valid' = read_lines-IsGrouped lines l valid in
    read_batches-IsGrouped bs (store_position key value (read_lines lines l))
      (record { below = valid'.below; visit = valid'.visit })
read_batches-IsGrouped (undone lines ∷ bs) l valid = valid

describe_pending-IsGrouped :
    (now : ℕ) (fails_after : Option ℕ) (l : Log)
    → IsGrouped l.db
    → IsGrouped (describe_pending now fails_after l).db
unfolding describe_pending
describe_pending-IsGrouped now none l valid =
    (describe_sessions-IsGrouped now l.pending l.db valid).0
describe_pending-IsGrouped now (some n) l valid = valid

after_batches-IsGrouped :
    (logs : Logs) (r : Log × Bool) → IsGrouped r.0.db → IsGrouped (after_batches logs r).db
unfolding after_batches
after_batches-IsGrouped logs (l, false) valid = valid
after_batches-IsGrouped logs (l, true) valid =
    describe_pending-IsGrouped logs.now logs.fails_after l valid

-- Reading the logs keeps a well-formed sessions table well formed, whatever fails.
pub read_logs-IsGrouped : (logs : Logs) (l : Log) → IsGrouped l.db → IsGrouped (read_logs logs l).db
unfolding read_logs
read_logs-IsGrouped logs l valid =
    after_batches-IsGrouped logs (read_batches logs.batches l)
      (read_batches-IsGrouped logs.batches l valid)
