-- ===== src/Watchdog.antt =====
-- ui/app/watchdog.py: the thread that ends the process after repeated failed health checks. The
-- answers of `probe` are data.
use openvpn_server.Base.{
  ℕ, zero, suc, ◌+◌, ◌≡◌, ◌≤◌, ◌<◌, ◌↔◌, refl, sym, ap, ◌∙◌, Bool, true, false, List, [], ◌∷◌, ◌++◌,
  arith, if◌then◌else◌, leb, Bool-cases, inl, inr,
}

-- `failed` after one more check.
abbrev pub failed_after : ℕ → Bool → ℕ
failed_after failed ok = if ok then 0 else failed + 1

-- The loop of `run`, with the limit `failures` and the count so far: whether `die` is called while
-- these checks are made.
unfoldable pub watch : ℕ → ℕ → List Bool → Bool
watch failures failed [] = false
watch failures failed (ok ∷ checks) =
    let rest = watch failures (failed_after failed ok) checks in
    if leb failures (failed_after failed ok) then true else rest

unfoldable pub in_a_row : ℕ → List Bool
in_a_row zero = []
in_a_row (suc n) = false ∷ in_a_row n

abbrev pub HasRun : ℕ → List Bool → Type 0
HasRun n checks =
    (before : List Bool) × (after : List Bool) × (checks ≡ before ++ (in_a_row n ++ after))

append_assoc : (xs ys zs : List Bool) → (xs ++ ys) ++ zs ≡ xs ++ (ys ++ zs)
append_assoc [] ys zs = refl
append_assoc (x ∷ xs) ys zs = ap (λ t. x ∷ t) (append_assoc xs ys zs)

in_a_row-false : (k : ℕ) (cs : List Bool) → in_a_row k ++ false ∷ cs ≡ in_a_row (suc k) ++ cs
unfolding in_a_row
in_a_row-false zero cs = refl
in_a_row-false (suc k) cs = ap (λ t. false ∷ t) (in_a_row-false k cs)

HasRun-zero : (n : ℕ) (cs : List Bool) → HasRun n (in_a_row zero ++ cs) → HasRun n cs
unfolding in_a_row
HasRun-zero n cs h = h

watch-HasRun :
    (n k : ℕ) (cs : List Bool) → k < n → watch n k cs ≡ true → HasRun n (in_a_row k ++ cs)
unfolding watch
watch-HasRun n k [] lt h = absurd (ground arith)
watch-HasRun n k (true ∷ cs) lt h =
    let (before, after, e) = HasRun-zero n cs (watch-HasRun n 0 cs (omega arith) (ground arith)) in
    (
      in_a_row k ++ true ∷ before,
      after,
      ap (λ t. in_a_row k ++ true ∷ t) e
          ∙ sym (append_assoc (in_a_row k) (true ∷ before) (in_a_row n ++ after)),
    )
watch-HasRun n k (false ∷ cs) lt h = elim (Bool-cases (leb n (k + 1))) [
  | inl full ↦
      let e : suc k ≡ n = ground arith in
      ([], cs, in_a_row-false k cs ∙ ap (λ m. in_a_row m ++ cs) e)
  | inr more ↦
      let (before, after, e) = watch-HasRun n (suc k) cs (ground arith) (ground arith) in
      (before, after, in_a_row-false k cs ∙ e)
]

watch-in_a_row :
    (n k m : ℕ) (after : List Bool) → k < n → n ≤ k + m → watch n k (in_a_row m ++ after) ≡ true
unfolding watch in_a_row
watch-in_a_row n k zero after lt le = absurd (omega arith)
watch-in_a_row n k (suc m) after lt le = ground (arith, watch-in_a_row n (suc k) m after)

watch-append :
    (n k : ℕ) (before after : List Bool)
    → k < n
    → watch n k (before ++ (in_a_row n ++ after)) ≡ true
unfolding watch
watch-append n k [] after lt = watch-in_a_row n k n after lt (omega arith)
watch-append n k (true ∷ before) after lt = ground (arith, watch-append n 0 before after)
watch-append n k (false ∷ before) after lt = ground (arith, watch-append n (suc k) before after)

-- For a limit above 0, the process is ended exactly when that many checks in a row have failed.
pub watch-HasRun_iff :
    (n : ℕ) (checks : List Bool) → 0 < n → (watch n 0 checks ≡ true) ↔ HasRun n checks
watch-HasRun_iff n checks lt = (
  λ h. HasRun-zero n checks (watch-HasRun n 0 checks lt h),
  λ (before, after, e). rw e (watch-append n 0 before after lt),
)
