-- ===== src/Collector/Visits.antt =====
-- ui/app/collector.py: every poll leaves the sessions table well formed, with each session in a visit
-- of its own client and address.
use openvpn_server.Base.{
  ℕ, ◌≡◌, refl, subst, some_eq, Bool, true, false, ◌&&◌, Option, none, some, List, [], ◌∷◌, arith,
  Text, ◌==◌, Bool-cases, inl, inr, ℤ, is_nonpos,
}
use openvpn_server.Db.Schema.{VpnSession, Db}
use openvpn_server.Db.Sessions.{is_open, find_session, set_session}
use openvpn_server.Db.Groups.{
  IsGrouped, KeepsVisit, insert_session-IsGrouped, update_where-IsGrouped,
}
use openvpn_server.Db.Traffic.{add_traffic}
use openvpn_server.Collector.State.{Client, Status, Active, key_of, find_active}
use openvpn_server.Collector.Poll.{
  is_handshake, start_of, new_fields, reopened, refreshed, start_from, start_session, count_from,
  count_client, Work, poll_client, poll_clients, closed_at, close_sessions, close_lost, resynced,
  poll_loop, kept_of, gone_of, with_work, poll_tx,
}

add_traffic-IsGrouped :
    (db : Db) (ts : ℕ) (name : Text) (d_in d_out : ℤ)
    → IsGrouped db
    → IsGrouped (add_traffic db ts name d_in d_out)
unfolding add_traffic
add_traffic-IsGrouped db ts name d_in d_out valid =
    elim (Bool-cases (is_nonpos d_in && is_nonpos d_out)) [
      | inl e ↦ rw e valid
      | inr e ↦ rw e (record { below = valid.below; visit = valid.visit })
    ]

pub set_session-IsGrouped :
    (id : ℕ) (set : VpnSession → VpnSession) (db : Db)
    → KeepsVisit (λ s. s.id == id) set
    → IsGrouped db
    → IsGrouped (set_session id set db)
unfolding set_session
set_session-IsGrouped id set db k valid = update_where-IsGrouped (λ s. s.id == id) set db k valid

start_from-IsGrouped :
    (now : ℕ) (cl : Client) (db : Db) (prev : Option VpnSession)
    → IsGrouped db
    → IsGrouped (start_from now cl db prev).3
unfolding start_from
start_from-IsGrouped now cl db none valid =
    insert_session-IsGrouped db cl.cn cl.real_address (start_of now cl) (new_fields now cl) valid
start_from-IsGrouped now cl db (some prev) valid =
    set_session-IsGrouped prev.id (reopened now cl) db (λ s h. (refl, refl, refl, refl)) valid

count_from-IsGrouped :
    (now server_now : ℕ) (cl : Client) (db : Db) (entry : Option Active)
    → IsGrouped db
    → IsGrouped (count_from now server_now cl db entry).1
unfolding count_from start_session
count_from-IsGrouped now server_now cl db none valid =
    add_traffic-IsGrouped (start_session now cl db).3 _ cl.cn _ _
      (start_from-IsGrouped now cl db (find_session db cl.cn cl.cid (start_of now cl)) valid)
count_from-IsGrouped now server_now cl db (some e) valid =
    add_traffic-IsGrouped (set_session e.session_id (refreshed now cl) db) _ cl.cn _ _ (
      set_session-IsGrouped e.session_id (refreshed now cl) db (λ s h. (refl, refl, refl, refl))
        valid)

poll_client-IsGrouped :
    (now server_now : ℕ) (cl : Client) (w : Work)
    → IsGrouped w.db
    → IsGrouped (poll_client now server_now cl w).db
unfolding poll_client count_client
poll_client-IsGrouped now server_now cl w valid = elim (Bool-cases (is_handshake cl)) [
  | inl e ↦ rw e valid
  | inr e ↦
      rw e (count_from-IsGrouped now server_now cl w.db (find_active (key_of cl) w.active) valid)
]

poll_clients-IsGrouped :
    (now server_now : ℕ) (cls : List Client) (w : Work)
    → IsGrouped w.db
    → IsGrouped (poll_clients now server_now cls w).db
unfolding poll_clients
poll_clients-IsGrouped now server_now [] w valid = valid
poll_clients-IsGrouped now server_now (cl ∷ cls) w valid =
    poll_clients-IsGrouped now server_now cls (poll_client now server_now cl w)
      (poll_client-IsGrouped now server_now cl w valid)

pub close_sessions-IsGrouped :
    (es : List Active) (now : ℕ) (reason : Option Text) (db : Db)
    → IsGrouped db
    → IsGrouped (close_sessions es now reason db)
unfolding close_sessions
close_sessions-IsGrouped [] now reason db valid = valid
close_sessions-IsGrouped (e ∷ es) now reason db valid = close_sessions-IsGrouped es now reason _ (
    update_where-IsGrouped (λ s. s.id == e.session_id && is_open s) (closed_at now reason) db
      (λ s h. (refl, refl, refl, refl)) valid)

close_lost-IsGrouped :
    (es : List Active) (db db' : Db) → close_lost es db ≡ some db' → IsGrouped db → IsGrouped db'
unfolding close_lost
close_lost-IsGrouped [] db db' h valid = cc
close_lost-IsGrouped (e ∷ es) db db' h valid =
    let same = some_eq h in
    subst IsGrouped same (update_where-IsGrouped _ _ db (λ s h. (refl, refl, refl, refl)) valid)

resynced-IsGrouped :
    (resync : Bool) (es : List Active) (db db' : Db)
    → resynced resync es db ≡ some db'
    → IsGrouped db
    → IsGrouped db'
unfolding resynced
resynced-IsGrouped false es db db' h valid = subst IsGrouped (some_eq h) valid
resynced-IsGrouped true es db db' h valid = close_lost-IsGrouped es db db' h valid

with_work-eq :
    (w w' : Work) (o : Option Db) (db : Db)
    → with_work w o ≡ some (w', db)
    → (w ≡ w') × (o ≡ some db)
with_work-eq w w' none db h = absurd (ground arith)
with_work-eq w w' (some d) db h = ground arith

poll_loop-IsGrouped :
    (now : ℕ) (status : Status) (active : List Active) (db : Db)
    → IsGrouped db
    → IsGrouped (poll_loop now status active db).db
unfolding poll_loop
poll_loop-IsGrouped now status active db valid =
    poll_clients-IsGrouped now status.time status.clients _ valid

-- A poll that stores what it counted keeps the sessions table well formed: ids are used once, and
-- each session's visit begins with a session of the same client from the same address.
pub poll_tx-IsGrouped :
    (now : ℕ) (status : Status) (resync : Bool) (active : List Active) (db : Db) (w : Work)
    (db' : Db)
    → poll_tx now status resync active db ≡ some (w, db')
    → IsGrouped db
    → IsGrouped db'
unfolding poll_tx
poll_tx-IsGrouped now status resync active db w db' h valid =
    let done = poll_loop now status active db in
    resynced-IsGrouped resync (kept_of done) (close_sessions (gone_of done) now none done.db) db'
      (with_work-eq _ w _ db' h).1
      (close_sessions-IsGrouped (gone_of done) now none done.db
        (poll_loop-IsGrouped now status active db valid))
