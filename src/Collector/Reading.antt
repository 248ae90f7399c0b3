-- ===== src/Collector/Reading.antt =====
-- ui/app/collector.py, read_logs: the files of one turn in order, each in a transaction of its own,
-- and then the devices of the sessions. What was read of each file is given: the text of the new
-- position and the parsed lines.
use openvpn_server.Base.{
  ℕ, Bool, true, false, Option, none, some, List, [], ◌∷◌, ◌++◌, Text, take, drop,
}
use openvpn_server.Db.History.{set_setting}
use openvpn_server.Collector.Log.{Line, Log, read_lines, describe_sessions}

-- A file that cannot be opened or holds no new whole line; one whose lines and position are stored,
-- the key and value of the position first; and one whose transaction fails after some lines.
pub data Batch : Type 0 where
  unread : Batch
  taken : Text → Text → List Line → Batch
  undone : List Line → Batch

-- The logs of one turn, and the time at which the sessions are described. That transaction may fail
-- after a number of handshakes.
pub record Logs : Type 0 where
  pub batches : List Batch
  pub now : ℕ
  pub fails_after : Option ℕ

abbrev pub store_position : Text → Text → Log → Log
store_position key value l = record l { db = set_setting key value l.db }

-- A failed transaction is rolled back, except for what `_pending` holds, and ends the reading.
unfoldable pub read_batches : List Batch → Log → Log × Bool
read_batches [] l = (l, true)
read_batches (unread ∷ bs) l = read_batches bs l
read_batches (taken key value lines ∷ bs) l =
    read_batches bs (store_position key value (read_lines lines l))
read_batches (undone lines ∷ bs) l = (record l { pending = (read_lines lines l).pending }, false)

unfoldable pub describe_pending : ℕ → Option ℕ → Log → Log
describe_pending now none l =
    let (pending, db) = describe_sessions now l.pending l.db in
    record { pending = pending; db = db }
describe_pending now (some n) l = record l {
  pending = (describe_sessions now (take n l.pending) l.db).0 ++ drop n l.pending;
}

unfoldable pub after_batches : Logs → Log × Bool → Log
after_batches logs (l, false) = l
after_batches logs (l, true) = describe_pending logs.now logs.fails_after l

unfoldable pub read_logs : Logs → Log → Log
read_logs logs l = after_batches logs (read_batches logs.batches l)
