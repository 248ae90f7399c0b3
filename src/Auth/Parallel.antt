-- ===== src/Auth/Parallel.antt =====
-- ui/app/auth.py, class LoginLimiter: attempts made at one moment cannot all pass before the first
-- failure is recorded.
use openvpn_server.Base.{
  ℕ, zero, suc, ◌+◌, ◌-◌, ◌*◌, ◌^◌, ◌≤◌, ◌<◌, ◌≡◌, refl, ap, max, true, false, List, [], ◌∷◌, ◌++◌,
  arith, Text, text_eq, text_eq_refl, if◌then◌else◌, ltb, ◌==◌, delete_where, any, Bool-cases, inl,
  inr,
}
use native.Mathlib.Nat.{pow-suc}
use openvpn_server.Auth.Limiter.{
  second, Entry, Limiter, entry_of, has_key, pop_key, longest_wait, backoff, counted, charged,
  charge_all, evict, attempt, attempt_key,
}

any-pop_key : (k : Text) (st : List Entry) → any (has_key k) (pop_key k st) ≡ false
unfolding pop_key delete_where
any-pop_key k [] = refl
any-pop_key k (e ∷ st) = ground (arith, any-pop_key k st)

entry_of-snoc :
    (k : Text) (e : Entry) (st : List Entry)
    → any (has_key k) st ≡ false
    → text_eq e.key k ≡ true
    → entry_of k (st ++ e ∷ []) ≡ e
unfolding entry_of
entry_of-snoc k e [] h same = rw same
entry_of-snoc k e (f ∷ st) h same = ground (arith, entry_of-snoc k e st)

entry_of-evict :
    (k : Text) (e : Entry) (max_keys : ℕ) (st : List Entry)
    → any (has_key k) st ≡ false
    → text_eq e.key k ≡ true
    → 0 < max_keys
    → entry_of k (evict max_keys (st ++ e ∷ [])) ≡ e
unfolding entry_of evict
entry_of-evict k e max_keys [] h same room = ground arith
entry_of-evict k e max_keys (f ∷ st) h same room =
    ground (arith, entry_of-evict k e max_keys st, entry_of-snoc k e st)

charged_key :
    (l : Limiter) (now : ℕ) (key : Text)
    → text_eq (charged l now (key, l.threshold) (entry_of key l.state)).key key ≡ true
unfolding charged
charged_key l now key = text_eq_refl key

-- An attempt on one key that goes ahead leaves the key charged for it.
attempt_key_charges :
    (l : Limiter) (now : ℕ) (key : Text)
    → 0 < l.max_keys
    → (entry_of key l.state).until ≤ now
    → let (wait, l') = attempt_key l now key in
      (wait ≡ 0)
      × (entry_of key l'.state ≡ charged l now (key, l.threshold) (entry_of key l.state))
      × (l' ≡ record l { state = l'.state })
unfolding attempt_key attempt longest_wait charge_all
attempt_key_charges l now key room free = ground (
  arith,
  entry_of-evict key (charged l now (key, l.threshold) (entry_of key l.state)) l.max_keys
      (pop_key key l.state) (any-pop_key key l.state) (charged_key l now key),
)

-- An attempt on a blocked key is refused and changes nothing.
attempt_key_blocked :
    (l : Limiter) (now : ℕ) (key : Text)
    → now < (entry_of key l.state).until
    → (0 < (attempt_key l now key).0) × ((attempt_key l now key).1 ≡ l)
unfolding attempt_key attempt longest_wait
attempt_key_blocked l now key h = ground arith

-- How many of `n` attempts on one key, made at one moment, go ahead.
unfoldable pub granted : ℕ → Limiter → ℕ → Text → ℕ
granted zero l now key = 0
granted (suc n) l now key =
    let (wait, l') = attempt_key l now key in (if wait == 0 then 1 else 0) + granted n l' now key

-- How many more attempts can go ahead now, given the threshold and the key's entry.
remaining : ℕ → ℕ → ℕ → Entry → ℕ
remaining threshold forget now e =
    if ltb now e.until then 0 else max 1 (threshold + 1 - counted forget now e)

backoff_zero : (d limit failures : ℕ) → failures < limit → backoff d limit failures ≡ 0
unfolding backoff
backoff_zero d limit failures h = ground arith

pow_pos : (n : ℕ) → 0 < 2 ^ n
pow_pos zero = omega arith
pow_pos (suc n) = rw (pow-suc) (omega (arith, pow_pos n))

backoff_pos : (d limit failures : ℕ) → 0 < d → limit ≤ failures → 0 < backoff d limit failures
unfolding backoff
backoff_pos d limit failures hd h = ground (arith, pow_pos (failures + 1 - limit))

-- The remaining attempts of a key with `c` failures counted by this attempt, before and after it.
remaining-below :
    (threshold forget now c : ℕ) (k : Text)
    → c < threshold
    → remaining threshold forget now (record { key = k; failures = c; until = now + 0 * second })
        + 1
      ≤ max 1 (threshold + 1 - c)
unfolding remaining counted
remaining-below threshold forget now c k h = ground arith

remaining-blocked :
    (threshold forget now c b : ℕ) (k : Text)
    → 0 < b
    → remaining threshold forget now (record { key = k; failures = c; until = now + b * second })
      ≡ 0
unfolding remaining
remaining-blocked threshold forget now c b k h = ground arith

remaining-charged :
    (l : Limiter) (now : ℕ) (key : Text) (e : Entry)
    → 0 < l.max_delay
    → e.until ≤ now
    → remaining l.threshold l.forget now (charged l now (key, l.threshold) e) + 1
      ≤ remaining l.threshold l.forget now e
unfolding charged
remaining-charged l now key e hd free =
    let c = counted l.forget now e in
    let open_now : remaining l.threshold l.forget now e ≡ max 1 (l.threshold + 1 - c) =
      unfold remaining in ground arith in
    elim (Bool-cases (ltb c l.threshold)) [
      | inl e ↦
          rw (open_now, backoff_zero l.max_delay l.threshold c (ground arith))
            (remaining-below l.threshold l.forget now c key (ground arith))
      | inr e ↦
          rw
            (
              open_now,
              remaining-blocked l.threshold l.forget now c (backoff l.max_delay l.threshold c) key
                  (backoff_pos l.max_delay l.threshold c hd (ground arith)),
            )
            (omega arith)
    ]

granted-remaining :
    (n : ℕ) (l : Limiter) (now : ℕ) (key : Text)
    → 0 < l.max_keys
    → 0 < l.max_delay
    → granted n l now key ≤ remaining l.threshold l.forget now (entry_of key l.state)
unfolding granted
granted-remaining zero l now key room hd = omega arith
granted-remaining (suc n) l now key room hd =
    let l' = (attempt_key l now key).1 in
    elim (Bool-cases (ltb now (entry_of key l.state).until)) [
      | inl b ↦
          let (refused, same) = attempt_key_blocked l now key (ground arith) in
          rw same (ground (arith, granted-remaining n l now key room hd))
      | inr f ↦
          let free : (entry_of key l.state).until ≤ now = ground arith in
          let (went, entry, rest) = attempt_key_charges l now key room free in
          let t : l'.threshold ≡ l.threshold = ap (λ (x : Limiter). x.threshold) rest in
          let g : l'.forget ≡ l.forget = ap (λ (x : Limiter). x.forget) rest in
          let k : l'.max_keys ≡ l.max_keys = ap (λ (x : Limiter). x.max_keys) rest in
          let d : l'.max_delay ≡ l.max_delay = ap (λ (x : Limiter). x.max_delay) rest in
          let ih = granted-remaining n l' now key (omega arith) (omega arith) in
          let bound : granted n l' now key
              ≤ remaining l.threshold l.forget now
                  (charged l now (key, l.threshold) (entry_of key l.state)) =
            rw (t, g, entry) at ih in
          rw went (omega (arith, bound, remaining-charged l now key (entry_of key l.state) hd free))
    ]

-- However many attempts on one key are made at one moment, at most as many go ahead as the
-- threshold allows, and one if that is 0; the limiter must have room for a key and a positive delay.
pub granted-le-threshold :
    (n : ℕ) (l : Limiter) (now : ℕ) (key : Text)
    → 0 < l.max_keys
    → 0 < l.max_delay
    → granted n l now key ≤ max 1 l.threshold
granted-le-threshold n l now key room hd =
    let b : remaining l.threshold l.forget now (entry_of key l.state) ≤ max 1 l.threshold =
      unfold remaining counted in ground arith in
    omega (arith, granted-remaining n l now key room hd)
