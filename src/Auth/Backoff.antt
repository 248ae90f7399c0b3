-- ===== src/Auth/Backoff.antt =====
-- ui/app/auth.py, class LoginLimiter: when an attempt is held back, what it costs, and the bound on
-- the memory.
use openvpn_server.Base.{
  ℕ, ◌+◌, ◌*◌, ◌≤◌, ◌<◌, ◌≡◌, ◌⊎◌, inl, inr, refl, List, [], ◌∷◌, arith, Text, text_eq, text_eq_iff,
  if◌then◌else◌, ltb, length, delete_where, Member, Bool-cases,
}
use openvpn_server.Auth.Limiter.{
  second, Entry, Limiter, entry_of, pop_key, longest_wait, charge_all, evict, attempt, success,
}

-- The time until which a key is blocked.
abbrev pub blocked_until : Text → Limiter → ℕ
blocked_until k l = (entry_of k l.state).until

longest_wait-bounds :
    (now : ℕ) (limits : List (Text × ℕ)) (st : List Entry) (p : Text × ℕ)
    → Member p limits
    → (entry_of p.0 st).until ≤ now + longest_wait now limits st
unfolding longest_wait
longest_wait-bounds now [] st p m = elim m [ ]
longest_wait-bounds now ((k, limit) ∷ limits) st p (inl e) = rw e (omega arith)
longest_wait-bounds now ((k, limit) ∷ limits) st p (inr m) =
    omega (arith, longest_wait-bounds now limits st p m)

longest_wait_blocked :
    (now : ℕ) (limits : List (Text × ℕ)) (st : List Entry)
    → 0 < longest_wait now limits st
    → (p : Text × ℕ) × Member p limits × (now < (entry_of p.0 st).until)
unfolding longest_wait
longest_wait_blocked now [] st h = absurd (omega arith)
longest_wait_blocked now ((k, limit) ∷ limits) st h =
    elim (Bool-cases (ltb now (entry_of k st).until)) [
      | inl b ↦ ((k, limit), inl refl, ground arith)
      | inr b ↦
          let (p, m, later) = longest_wait_blocked now limits st (ground arith) in (p, inr m, later)
    ]

-- An attempt goes ahead only if none of its keys is blocked any more. Else nothing is counted, one
-- of the keys is blocked, and after the returned seconds none of them is.
pub attempt_verdict :
    (l : Limiter) (now : ℕ) (first : Text × ℕ) (more : List (Text × ℕ))
    → let (wait, l') = attempt l now first more in
      ((wait ≡ 0) × ((p : Text × ℕ) → Member p (first ∷ more) → blocked_until p.0 l ≤ now))
      ⊎ ((0 < wait)
          × (l' ≡ l)
          × ((p : Text × ℕ) × Member p (first ∷ more) × (now < blocked_until p.0 l))
          × ((p : Text × ℕ) → Member p (first ∷ more) → blocked_until p.0 l ≤ now + wait * second))
unfolding attempt
attempt_verdict l now first more =
    elim (Bool-cases (ltb 0 (longest_wait now (first ∷ more) l.state))) [
      | inl e ↦ rw e (
          inr (
            omega arith,
            refl,
            longest_wait_blocked now (first ∷ more) l.state (ground arith),
            λ p m. omega (arith, longest_wait-bounds now (first ∷ more) l.state p m),
          ))
      | inr e ↦ rw e (
          inl (
            refl,
            λ p m. let b = longest_wait-bounds now (first ∷ more) l.state p m in ground arith,
          ))
    ]

length-evict : (max_keys : ℕ) (st : List Entry) → length (evict max_keys st) ≤ max_keys
unfolding evict
length-evict max_keys [] = omega arith
length-evict max_keys (e ∷ st) = ground (arith, length-evict max_keys st)

-- The limiter never holds more than `max_keys` keys.
pub attempt-bounded :
    (l : Limiter) (now : ℕ) (first : Text × ℕ) (more : List (Text × ℕ))
    → length l.state ≤ l.max_keys
    → length (attempt l now first more).1.state ≤ l.max_keys
unfolding attempt
attempt-bounded l now first more h =
    ground (arith, length-evict l.max_keys (charge_all l now (first ∷ more) l.state))

length-pop_key : (k : Text) (st : List Entry) → length (pop_key k st) ≤ length st
unfolding pop_key delete_where
length-pop_key k [] = omega arith
length-pop_key k (e ∷ st) = ground (arith, length-pop_key k st)

entry_of-pop_key :
    (j k : Text) (st : List Entry)
    → entry_of j (pop_key k st) ≡ (if text_eq k j then entry_of j [] else entry_of j st)
unfolding entry_of pop_key delete_where
entry_of-pop_key j k [] = ground arith
entry_of-pop_key j k (e ∷ st) =
    ground
      (arith, text_eq_iff e.key k, text_eq_iff e.key j, text_eq_iff k j, entry_of-pop_key j k st)

-- A success clears the failures of its key and of no other.
success_clears :
    (key k : Text) (l : Limiter)
    → entry_of k (success key l).state
      ≡ (if text_eq key k then record { key = k; failures = 0; until = 0 } else entry_of k l.state)
unfolding success entry_of
success_clears key k l = entry_of-pop_key k key l.state
