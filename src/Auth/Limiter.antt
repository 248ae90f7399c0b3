-- ===== src/Auth/Limiter.antt =====
-- ui/app/auth.py, class LoginLimiter. The clock is `time.monotonic()` in nanoseconds, and `state` is
-- the dict `_state` in its insertion order, oldest attempt first.
use openvpn_server.Base.{
  ℕ, ◌+◌, ◌-◌, ◌*◌, ◌/◌, ◌^◌, min, max, Bool, List, [], ◌∷◌, ◌++◌, Text, text_eq, if◌then◌else◌,
  ltb, leb, length, delete_where,
}

abbrev pub second : ℕ
second = 1_000_000_000

-- A key with its failures and the time until which it is blocked.
pub record Entry : Type 0 where
  pub key : Text
  pub failures : ℕ
  pub until : ℕ

pub record Limiter : Type 0 where
  pub threshold : ℕ
  pub max_delay : ℕ
  pub max_keys : ℕ
  pub forget : ℕ
  pub state : List Entry

-- `_state.get(k, (0, 0.0))`
unfoldable pub entry_of : Text → List Entry → Entry
entry_of k [] = record { key = k; failures = 0; until = 0 }
entry_of k (e ∷ st) = if text_eq e.key k then e else entry_of k st

abbrev pub has_key : Text → Entry → Bool
has_key k e = text_eq e.key k

-- `_state.pop(k, None)`
unfoldable pub pop_key : Text → List Entry → List Entry
pop_key k = delete_where (has_key k)

-- The longest time, in ticks, for which one of the keys is still blocked; 0 if none is.
unfoldable pub longest_wait : ℕ → List (Text × ℕ) → List Entry → ℕ
longest_wait now [] st = 0
longest_wait now ((k, limit) ∷ limits) st =
    max ((entry_of k st).until - now) (longest_wait now limits st)

-- The seconds for which a key is blocked after so many failures.
unfoldable pub backoff : ℕ → ℕ → ℕ → ℕ
backoff max_delay limit failures =
    if leb limit failures then min max_delay (2 ^ (failures + 1 - limit)) else 0

-- The failures that still count, and the one of this attempt.
unfoldable pub counted : ℕ → ℕ → Entry → ℕ
counted forget now e = (if ltb (forget * second) (now - e.until) then 0 else e.failures) + 1

-- The entry that an attempt writes for one key.
unfoldable pub charged : Limiter → ℕ → Text × ℕ → Entry → Entry
charged l now (k, limit) e =
    let failures = counted l.forget now e in
    record {
      key = k;
      failures = failures;
      until = now + backoff l.max_delay limit failures * second;
    }

-- The loop over the keys: each is popped and written again at the end.
unfoldable pub charge_all : Limiter → ℕ → List (Text × ℕ) → List Entry → List Entry
charge_all l now [] st = st
charge_all l now ((k, limit) ∷ limits) st =
    charge_all l now limits (pop_key k st ++ charged l now (k, limit) (entry_of k st) ∷ [])

-- `while len(_state) > max_keys`: forget the oldest attempts.
unfoldable pub evict : ℕ → List Entry → List Entry
evict max_keys [] = []
evict max_keys (e ∷ st) = if ltb max_keys (length (e ∷ st)) then evict max_keys st else e ∷ st

-- The keys come with a threshold each, and there is one at least. Returns 0 when the attempt may go
-- ahead, else the seconds to wait.
unfoldable pub attempt : Limiter → ℕ → Text × ℕ → List (Text × ℕ) → ℕ × Limiter
attempt l now first more =
    let limits = first ∷ more in
    let wait = longest_wait now limits l.state in
    if ltb 0 wait
    then (wait / second + 1, l)
    else (0, record l { state = evict l.max_keys (charge_all l now limits l.state) })

-- `attempt(key)` with a key alone takes the limiter's own threshold.
unfoldable pub attempt_key : Limiter → ℕ → Text → ℕ × Limiter
attempt_key l now key = attempt l now (key, l.threshold) []

unfoldable pub success : Text → Limiter → Limiter
success key l = record l { state = pop_key key l.state }
