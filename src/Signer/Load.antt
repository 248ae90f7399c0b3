-- ===== src/Signer/Load.antt =====
-- signer/service.py: SigningServer's bounded connections, and the slots of `dispatch`, under requests
-- that come in, run and end in any order.
use openvpn_server.Base.{ℕ, ◌+◌, ◌-◌, ◌≤◌, ◌<◌, ◌≡◌, refl, Bool, if◌then◌else◌, ◌==◌, arith}

-- `connections` are free, `threads` run, `slots` are free, and `busy` threads hold one.
pub record Load : Type 0 where
  pub connections : ℕ
  pub threads : ℕ
  pub slots : ℕ
  pub busy : ℕ

-- `process_request`; the connection is released where the thread does not start.
unfoldable pub accept : Bool → Load → Load
accept thread_starts s =
    if s.connections == 0
    then s
    else if thread_starts
    then record s { connections = s.connections - 1; threads = s.threads + 1 }
    else s

-- `slots.acquire(blocking=False)` of a thread that holds no slot; without one it answers 503.
unfoldable pub take_slot : Load → Load
take_slot s = if s.slots == 0 then s else record s { slots = s.slots - 1; busy = s.busy + 1 }

unfoldable pub give_slot : Load → Load
give_slot s = record s { slots = s.slots + 1; busy = s.busy - 1 }

-- The end of `process_request_thread`.
unfoldable pub finish_thread : Load → Load
finish_thread s = record s { connections = s.connections + 1; threads = s.threads - 1 }

pub data Loaded : Load → Type 0 where
  serving : Loaded (record { connections = 16; threads = 0; slots = 4; busy = 0 })
  incoming : {s : Load} → Loaded s → (thread_starts : Bool) → Loaded (accept thread_starts s)
  begins : {s : Load} → Loaded s → s.busy < s.threads → Loaded (take_slot s)
  ends : {s : Load} → Loaded s → 1 ≤ s.busy → Loaded (give_slot s)
  -- a thread that holds no slot ends
  closes : {s : Load} → Loaded s → s.busy < s.threads → Loaded (finish_thread s)

-- At every moment the free connections and the threads are 16 together, and the free slots and the
-- threads that hold one are 4 together, so at most 16 connections are open and at most 4 requests run
-- openssl.
pub Loaded-bounded :
    {s : Load}
    → Loaded s
    → (s.connections + s.threads ≡ 16) × (s.slots + s.busy ≡ 4) × (s.busy ≤ s.threads)
unfolding accept take_slot give_slot finish_thread
Loaded-bounded serving = (refl, refl, omega arith)
Loaded-bounded (incoming {s = s} r b) = ground (arith, Loaded-bounded r)
Loaded-bounded (begins {s = s} r h) = ground (arith, Loaded-bounded r, h)
Loaded-bounded (ends {s = s} r h) = ground (arith, Loaded-bounded r, h)
Loaded-bounded (closes {s = s} r h) = ground (arith, Loaded-bounded r, h)
