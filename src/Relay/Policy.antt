-- ===== src/Relay/Policy.antt =====
-- ui/app/policy_server.py: the answers of the policy service, and its bounded number of requests at
-- a time. A PkiError is not caught by the handler: no answer is sent.
use openvpn_server.Base.{
  ℕ, ◌+◌, ◌-◌, ◌≤◌, ◌≡◌, ◌≢◌, ◌↔◌, ◌⊎◌, refl, Bool, true, false, not, ◌&&◌, Option, none, some,
  arith, Text, text_eq, text_eq_iff, codes, if◌then◌else◌, ◌==◌,
}
use openvpn_server.Db.Schema.{Db}
use openvpn_server.Relay.Authorize.{
  World, Outcome, returned, unavailable, refused, Policy, authorize,
}

-- What the service can read: its database connection, pki/index.txt and the directory of guests.
pub record Readable : Type 0 where
  pub database : Bool
  pub index : Bool
  pub guests : Bool

-- `check_metadata` does not raise OSError.
abbrev pub check_metadata : Readable → Bool
check_metadata r = r.index && r.guests

pub data Answer : Type 0 where
  reply : ℕ → Option Policy → Answer
  dropped : Answer

unfoldable pub do_get : Readable → Text → Answer
do_get r path =
    if not (text_eq path (codes "/healthz"))
    then reply 404 none
    else if r.database && check_metadata r
    then reply 200 none
    else reply 503 none

abbrev pub answer_of : Outcome (Option Policy) → Answer
answer_of (returned (some p)) = reply 200 (some p)
answer_of (returned none) = reply 403 none
answer_of unavailable = reply 503 none
answer_of refused = dropped

unfoldable pub do_post : Readable → World → Db → Text → Text → Answer
do_post r w db path authorization =
    if not (text_eq path (codes "/api/relay/authorize"))
    then reply 404 none
    else if r.database && check_metadata r
    then answer_of (authorize w db authorization true)
    else reply 503 none

answer_of-policy :
    (o : Outcome (Option Policy)) (p : Policy)
    → answer_of o ≡ reply 200 (some p)
    → o ≡ returned (some p)
answer_of-policy (returned (some q)) p h = ground arith
answer_of-policy (returned none) p h = absurd (ground arith)
answer_of-policy unavailable p h = absurd (ground arith)
answer_of-policy refused p h = absurd (ground arith)

-- A policy is answered exactly when the path is the authorization path, the database, the index and
-- the directory of guests can be read, and `authorize` gives that policy.
pub do_post-authorized :
    (r : Readable) (w : World) (db : Db) (path authorization : Text) (p : Policy)
    → (do_post r w db path authorization ≡ reply 200 (some p)) ↔ (
        (path ≡ codes "/api/relay/authorize")
        × (r.database ≡ true)
        × (r.index ≡ true)
        × (r.guests ≡ true)
        × (authorize w db authorization true ≡ returned (some p)))
unfolding do_post
do_post-authorized r w db path authorization p = (
  λ h. (
    ground (arith, text_eq_iff path (codes "/api/relay/authorize")),
    ground arith,
    ground arith,
    ground arith,
    answer_of-policy (authorize w db authorization true) p (ground arith),
  ),
  λ h. ground (arith, text_eq_iff path (codes "/api/relay/authorize"), h),
)

-- Where the state cannot be read, no request is authorized or denied: the answer is 503, or 404 off
-- the path.
do_post_unreadable :
    (r : Readable) (w : World) (db : Db) (path authorization : Text)
    → (r.database && check_metadata r) ≡ false
    → (do_post r w db path authorization ≡ reply 503 none)
      ⊎ ((do_post r w db path authorization ≡ reply 404 none)
          × (path ≢ codes "/api/relay/authorize"))
unfolding do_post
do_post_unreadable r w db path authorization h =
    ground (arith, text_eq_iff path (codes "/api/relay/authorize"))

-- PolicyServer: `slots` of a bounded semaphore of 64, and the requests that are being handled.
pub record Server : Type 0 where
  pub slots : ℕ
  pub running : ℕ
  pub refused_connections : ℕ

abbrev pub capacity : ℕ
capacity = 64

-- process_request: refused when no slot is free; released again if the thread cannot be started.
unfoldable pub process_request : Bool → Server → Server
process_request thread_starts s =
    if s.slots == 0
    then record s { refused_connections = s.refused_connections + 1 }
    else if thread_starts
    then record s { slots = s.slots - 1; running = s.running + 1 }
    else s

-- process_request_thread: the slot is released however the request ends.
unfoldable pub process_request_thread : Server → Server
process_request_thread s = record s { slots = s.slots + 1; running = s.running - 1 }

-- Connections come in and running requests end, in any order.
pub data Reach : Server → Type 0 where
  started : Reach (record { slots = 64; running = 0; refused_connections = 0 })
  incoming :
      {s : Server} → Reach s → (thread_starts : Bool) → Reach (process_request thread_starts s)
  ended : {s : Server} → Reach s → 1 ≤ s.running → Reach (process_request_thread s)

-- At every moment the free slots and the running requests are 64 together, so at most 64 requests
-- run and no slot is lost or invented.
Reach-slots : {s : Server} → Reach s → s.slots + s.running ≡ capacity
unfolding process_request process_request_thread
Reach-slots started = refl
Reach-slots (incoming {s = s} r b) = ground (arith, Reach-slots r)
Reach-slots (ended {s = s} r h) = omega (arith, Reach-slots r)
