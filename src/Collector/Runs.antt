-- ===== src/Collector/Runs.antt =====
-- ui/app/collector.py: what holds after any number of turns of the thread.
use openvpn_server.Base.{
  ℕ, ◌≡◌, refl, subst, sym, ap, ◌∙◌, true, false, Option, none, some, List, [], ◌∷◌, arith, codes,
  Bool-cases, inl, inr, select, All, Text,
}
use openvpn_server.Db.Schema.{Db}
use openvpn_server.Db.Groups.{IsGrouped}
use openvpn_server.Collector.State.{Active, Client, Status, Collector}
use openvpn_server.Collector.Poll.{
  is_handshake, is_unchanged, close_lost, resynced, poll_client, poll_clients, poll_loop, poll_tx,
  polled, Work, Answers, poll,
}
use openvpn_server.Collector.Visits.{poll_tx-IsGrouped, close_sessions-IsGrouped}
use openvpn_server.Collector.Log.{Log}
use openvpn_server.Collector.Reading.{read_logs}
use openvpn_server.Collector.Described.{read_logs-IsGrouped}
use openvpn_server.Collector.Turn.{
  Reply, answered, unwritten, unavailable, unavailable_unwritten, handle_down, Thread, after_poll,
  paused, down_unwritten, try_poll, Round, log_of, after_logs, turn, run_turns, IsPaced,
}

-- A poll that fails stores nothing.
abbrev Stored : Option (Collector × Db) → Type 0
Stored none = Unit
Stored (some (c, db)) = IsGrouped db

polled-Stored :
    (now : ℕ) (r : Answers) (c : Collector) (o : Option (Work × Db))
    → ((w : Work) (db : Db) → o ≡ some (w, db) → IsGrouped db)
    → Stored (polled now r c o)
polled-Stored now r c none h = tt
polled-Stored now r c (some (w, db)) h = h w db refl

poll-Stored :
    (now : ℕ) (r : Answers) (c : Collector) (db : Db) → IsGrouped db → Stored (poll now r c db)
unfolding poll
poll-Stored now r c db valid = elim (Bool-cases (is_unchanged r c)) [
  | inl e ↦ rw e valid
  | inr e ↦ rw e (
      polled-Stored now r c (poll_tx now r.status c.resync c.active db)
        (λ w db' h. poll_tx-IsGrouped now r.status c.resync c.active db w db' h valid))
]

abbrev IsSound : ℕ → Thread → Type 0
IsSound interval t = IsGrouped t.db × IsPaced interval t

after_poll-IsSound :
    (interval : ℕ) (t : Thread) (o : Option (Collector × Db))
    → IsSound interval t
    → Stored o
    → IsSound interval (after_poll interval t o)
unfolding after_poll
after_poll-IsSound interval t none (g, (p, d)) h = (g, (p, inl refl))
after_poll-IsSound interval t (some (c, db)) (g, p) h = (h, ((omega arith, omega arith), inl refl))

paused-IsPaced : (interval : ℕ) (t : Thread) → IsPaced interval t → IsPaced interval (paused t)
paused-IsPaced interval t (p, d) = (omega arith, inr p)

down_unwritten-IsSound :
    (interval now : ℕ) (error : Text) (active : List Active) (t : Thread)
    → IsSound interval t
    → IsSound interval (down_unwritten now error active t)
unfolding down_unwritten handle_down
down_unwritten-IsSound interval now error [] t (g, p) =
    (close_sessions-IsGrouped t.collector.active now (some (codes "server down")) t.db g, p)
down_unwritten-IsSound interval now error (a ∷ active) t s = s

try_poll-IsSound :
    (interval now : ℕ) (reply : Reply) (t : Thread)
    → IsSound interval t
    → IsSound interval (try_poll interval now reply t)
unfolding try_poll handle_down down_unwritten
try_poll-IsSound interval now (answered r) t (g, p) =
    after_poll-IsSound interval t _ (g, p) (poll-Stored now r t.collector t.db g)
try_poll-IsSound interval now unwritten t s = after_poll-IsSound interval t none s tt
try_poll-IsSound interval now (unavailable error) t (g, p) = (
  close_sessions-IsGrouped t.collector.active now (some (codes "server down")) t.db g,
  paused-IsPaced interval t p,
)
try_poll-IsSound interval now (unavailable_unwritten error) t (g, p) =
    down_unwritten-IsSound interval now error t.collector.active (paused t)
      (g, paused-IsPaced interval t p)

-- From a well-formed sessions table and a paced thread, every sequence of turns, with answers,
-- outages, lines of the logs and failed writes in any order, keeps the table well formed, and each
-- pause the interval or between 2 and 15 seconds.
pub run_turns-IsGrouped :
    (interval : ℕ) (rounds : List Round) (t : Thread)
    → IsGrouped t.db
    → IsPaced interval t
    → IsGrouped (run_turns interval rounds t).db × IsPaced interval (run_turns interval rounds t)
unfolding run_turns turn
run_turns-IsGrouped interval [] t g p = (g, p)
run_turns-IsGrouped interval (round ∷ rest) t g p =
    let t' = try_poll interval round.now round.reply t in
    let (g', p') = try_poll-IsSound interval round.now round.reply t (g, p) in
    run_turns-IsGrouped interval rest (turn interval round t)
      (read_logs-IsGrouped round.logs (log_of t') g') p'

-- The server answers and reports no client that is past the handshake.
abbrev pub IsSilent : Reply → Type 0
IsSilent (answered r) = All (λ cl. is_handshake cl ≡ true) r.status.clients
IsSilent unwritten = ⊥
IsSilent (unavailable error) = ⊥
IsSilent (unavailable_unwritten error) = ⊥

abbrev pub IsQuiet : Round → Type 0
IsQuiet round = IsSilent round.reply

-- What a failed write leaves behind.
abbrev pub IsForgetful : Collector → Type 0
IsForgetful c = (c.resync ≡ true) × (c.active ≡ []) × (c.status_time ≡ none)

poll_clients_quiet :
    (now server_now : ℕ) (cls : List Client) (w : Work)
    → All (λ cl. is_handshake cl ≡ true) cls
    → poll_clients now server_now cls w ≡ w
unfolding poll_clients poll_client
poll_clients_quiet now server_now [] w h = refl
poll_clients_quiet now server_now (cl ∷ cls) w (h, hs) =
    rw h (poll_clients_quiet now server_now cls w hs)

poll_tx_quiet :
    (now : ℕ) (status : Status) (db : Db)
    → All (λ cl. is_handshake cl ≡ true) status.clients
    → poll_tx now status true [] db ≡ none
unfolding poll_tx poll_loop resynced close_lost select
poll_tx_quiet now status db h = rw (poll_clients_quiet now status.time status.clients _ h)

changed : (r : Answers) (c : Collector) → c.status_time ≡ none → is_unchanged r c ≡ false
changed r c h = ground arith

poll_quiet :
    (now : ℕ) (r : Answers) (c : Collector) (db : Db)
    → IsForgetful c
    → All (λ cl. is_handshake cl ≡ true) r.status.clients
    → poll now r c db ≡ none
unfolding poll
poll_quiet now r c db (resync, active, time) h = rw (changed r c time) (
    ap (polled now r c)
      ((λ i. poll_tx now r.status (resync i) (active i) db) ∙ poll_tx_quiet now r.status db h))

-- What reading the logs alone does in a number of turns.
unfoldable pub run_logs : List Round → Log → Log
run_logs [] l = l
run_logs (round ∷ rest) l = run_logs rest (read_logs round.logs l)

try_poll_quiet :
    (interval now : ℕ) (reply : Reply) (t : Thread)
    → IsForgetful t.collector
    → IsSilent reply
    → try_poll interval now reply t ≡ after_poll interval t none
unfolding try_poll
try_poll_quiet interval now (answered r) t f h =
    ap (after_poll interval t) (poll_quiet now r t.collector t.db f h)
try_poll_quiet interval now unwritten t f h = absurd h
try_poll_quiet interval now (unavailable error) t f h = absurd h
try_poll_quiet interval now (unavailable_unwritten error) t f h = absurd h

abbrev after_quiet : ℕ → Round → Thread → Thread
after_quiet interval round t =
    after_logs (read_logs round.logs (log_of t)) (after_poll interval t none)

turn_quiet :
    (interval : ℕ) (round : Round) (t : Thread)
    → IsForgetful t.collector
    → IsQuiet round
    → turn interval round t ≡ after_quiet interval round t
unfolding turn after_poll
turn_quiet interval round t f h =
    ap (λ t'. after_logs (read_logs round.logs (log_of t')) t')
      (try_poll_quiet interval round.now round.reply t f h)

-- After a failed write no poll stores anything any more, however many turns pass, as long as the
-- server answers and no client is connected: the database is what the reading of the logs alone
-- makes of it, and the collector goes on failing. The statement that closes the lost sessions then
-- has an empty list, which PostgreSQL refuses.
pub resync_stuck :
    (interval : ℕ) (rounds : List Round) (t : Thread)
    → IsForgetful t.collector
    → All IsQuiet rounds
    → let t' = run_turns interval rounds t in
      (log_of t' ≡ run_logs rounds (log_of t)) × IsForgetful t'.collector
unfolding run_turns run_logs after_poll
resync_stuck interval [] t f h = (refl, f)
resync_stuck interval (round ∷ rest) t f (h, hs) =
    subst
      (λ x.
        (log_of (run_turns interval rest x) ≡ run_logs rest (read_logs round.logs (log_of t)))
        × IsForgetful (run_turns interval rest x).collector)
      (sym (turn_quiet interval round t f h))
      (resync_stuck interval rest (after_quiet interval round t) (refl, refl, refl) hs)
