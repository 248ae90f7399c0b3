-- ===== src/Api/Points.antt =====
-- ui/app/main.py: the graph of the traffic gives each point of the series its turn.
use openvpn_server.Base.{
  ℕ, zero, suc, ◌+◌, ◌≡◌, ◌≤◌, ◌<◌, inl, inr, refl, sym, ap, subst, arith, Bool-cases, none, some,
  List, [], ◌∷◌, if◌then◌else◌, ltb, ◌==◌, ==_iff, Member,
}
use openvpn_server.Db.Schema.{Bucket}
use openvpn_server.Db.Series.{Zone, Point, bucket_ts, merged, add_point, point_of, points}
use openvpn_server.Api.Series.{find_point, filled, fill}

-- Every point is later than the time.
abbrev AreAfter : ℕ → List Point → Type 0
AreAfter t ps = (p : Point) → Member p ps → t < p.ts

abbrev pub IsAscending : List Point → Type 0
IsAscending [] = Unit
IsAscending (p ∷ ps) = AreAfter p.ts ps × IsAscending ps

AreAfter-add_point :
    (t : ℕ) (p : Point) (ps : List Point) → t < p.ts → AreAfter t ps → AreAfter t (add_point p ps)
unfolding add_point
AreAfter-add_point t p [] lt after x m = elim m [
  | inl is ↦ omega (arith, ap (λ (q : Point). q.ts) is)
  | inr nowhere ↦ elim nowhere [ ]
]
AreAfter-add_point t p (q ∷ qs) lt after x m = elim (Bool-cases (p.ts == q.ts)) [
  | inl same ↦ elim (rw same at m) [
    | inl is ↦ omega (arith, after q (inl refl), ap (λ (q : Point). q.ts) is)
    | inr later ↦ after x (inr later)
  ]
  | inr other ↦ elim (Bool-cases (ltb p.ts q.ts)) [
    | inl before ↦ elim (rw (other, before) at m) [
      | inl is ↦ omega (arith, ap (λ (q : Point). q.ts) is)
      | inr later ↦ after x later
    ]
    | inr behind ↦ elim (rw (other, behind) at m) [
      | inl is ↦ omega (arith, after q (inl refl), ap (λ (q : Point). q.ts) is)
      | inr later ↦ AreAfter-add_point t p qs lt (λ y n. after y (inr n)) x later
    ]
  ]
]

IsAscending-add_point :
    (p : Point) (ps : List Point) → IsAscending ps → IsAscending (add_point p ps)
unfolding add_point
IsAscending-add_point p [] up = ((λ x m. elim m [ ]), tt)
IsAscending-add_point p (q ∷ qs) (after, up) = elim (Bool-cases (p.ts == q.ts)) [
  | inl same ↦ rw same (after, up)
  | inr other ↦ elim (Bool-cases (ltb p.ts q.ts)) [
    | inl before ↦
        rw (other, before)
          (
            (λ x m. elim m [
              | inl is ↦ ground (arith, ap (λ (q : Point). q.ts) is)
              | inr later ↦ ground (arith, after x later)
            ]),
            (after, up),
          )
    | inr behind ↦
        rw (other, behind)
          (
            AreAfter-add_point q.ts p qs (ground (arith, ==_iff p.ts q.ts)) after,
            IsAscending-add_point p qs up,
          )
  ]
]

pub IsAscending-points :
    (bucket : ℕ) (tz : Zone) (rows : List Bucket) → IsAscending (points bucket tz rows)
unfolding points
IsAscending-points bucket tz [] = tt
IsAscending-points bucket tz (b ∷ rows) =
    IsAscending-add_point (point_of bucket tz b) _ (IsAscending-points bucket tz rows)

find_point-none : (t : ℕ) (ps : List Point) → AreAfter t ps → find_point t ps ≡ none
unfolding find_point
find_point-none t [] after = refl
find_point-none t (p ∷ ps) after =
    ground (arith, after p (inl refl), find_point-none t ps (λ x m. after x (inr m)))

-- The times of the loop.
unfoldable pub stepped : ℕ → ℕ → ℕ → ℕ
stepped bucket t zero = t
stepped bucket t (suc k) = stepped bucket (t + bucket) k

stepped-le : (bucket t k : ℕ) → t ≤ stepped bucket t k
unfolding stepped
stepped-le bucket t zero = omega arith
stepped-le bucket t (suc k) = omega (arith, stepped-le bucket (t + bucket) k)

-- What a value at one time adds to the loop.
hit : ℕ → ℕ → ℕ → ℕ → ℕ → ℕ → ℕ
hit zero x v t end bucket = 0
hit (suc fuel) x v t end bucket =
    if ltb t end then (if x == t then v else 0) + hit fuel x v (t + bucket) end bucket else 0

hit-past : (fuel x v t end bucket : ℕ) → x < t → hit fuel x v t end bucket ≡ 0
unfolding hit
hit-past zero x v t end bucket lt = refl
hit-past (suc fuel) x v t end bucket lt =
    ground (arith, ==_iff x t, hit-past fuel x v (t + bucket) end bucket)

hit-stepped :
    (fuel v t end bucket k : ℕ)
    → 0 < bucket
    → end < fuel + t
    → stepped bucket t k < end
    → hit fuel (stepped bucket t k) v t end bucket ≡ v
unfolding hit stepped
hit-stepped zero v t end bucket k pos enough lt = absurd (omega (arith, stepped-le bucket t k))
hit-stepped (suc fuel) v t end bucket zero pos enough lt =
    ground (arith, ==_iff t t, hit-past fuel t v (t + bucket) end bucket)
hit-stepped (suc fuel) v t end bucket (suc k) pos enough lt =
    let above = stepped-le bucket (t + bucket) k in
    let rest = hit-stepped fuel v (t + bucket) end bucket k pos (omega arith) lt in
    ground (arith, ==_iff (stepped bucket (t + bucket) k) t)

unfoldable pub sum_rows : (Bucket → ℕ) → List Bucket → ℕ
sum_rows row [] = 0
sum_rows row (b ∷ rows) = row b + sum_rows row rows

unfoldable pub sum_points : (Point → ℕ) → List Point → ℕ
sum_points get [] = 0
sum_points get (p ∷ ps) = get p + sum_points get ps

module _ (get : Point → ℕ) (get-merged : (p q : Point) → get (merged p q) ≡ get p + get q)
    (get-filled : (t : ℕ) (p : Point) → get (filled t (some p)) ≡ get p)
    (get-empty : (t : ℕ) → get (filled t none) ≡ 0) where
  value : ℕ → List Point → ℕ
  value t [] = 0
  value t (p ∷ ps) = if p.ts == t then get p else value t ps

  get-find : (t : ℕ) (ps : List Point) → get (filled t (find_point t ps)) ≡ value t ps
  unfolding find_point value
  get-find t [] = get-empty t
  get-find t (p ∷ ps) = ground (arith, get-filled t p, get-find t ps)

  value-after : (t : ℕ) (ps : List Point) → AreAfter t ps → value t ps ≡ 0
  unfolding value
  value-after t [] after = refl
  value-after t (p ∷ ps) after =
      ground (arith, after p (inl refl), ==_iff p.ts t, value-after t ps (λ x m. after x (inr m)))

  value-add :
      (t : ℕ) (p : Point) (ps : List Point)
      → IsAscending ps
      → value t (add_point p ps) ≡ value t ps + (if p.ts == t then get p else 0)
  unfolding value add_point
  value-add t p [] up = ground arith
  value-add t p (q ∷ qs) (after, up) = ground (
    arith,
    get-merged p q,
    value-add t p qs up,
    value-after p.ts qs,
    ==_iff p.ts q.ts,
    ==_iff p.ts t,
    ==_iff q.ts t,
  )

  fill-add :
      (fuel t end bucket : ℕ) (p : Point) (ps : List Point)
      → IsAscending ps
      → sum_points get (fill fuel (add_point p ps) t end bucket)
        ≡ sum_points get (fill fuel ps t end bucket) + hit fuel p.ts (get p) t end bucket
  unfolding fill sum_points hit
  fill-add zero t end bucket p ps up = omega arith
  fill-add (suc fuel) t end bucket p ps up = ground (
    arith,
    get-find t ps,
    get-find t (add_point p ps),
    value-add t p ps up,
    fill-add fuel (t + bucket) end bucket p ps up,
  )

  fill-none : (fuel t end bucket : ℕ) → sum_points get (fill fuel [] t end bucket) ≡ 0
  unfolding fill sum_points find_point
  fill-none zero t end bucket = refl
  fill-none (suc fuel) t end bucket =
      ground (arith, get-empty t, fill-none fuel (t + bucket) end bucket)

  module _ (row : Bucket → ℕ) (bucket : ℕ) (tz : Zone)
      (get-row : (b : Bucket) → get (point_of bucket tz b) ≡ row b) where
    -- A row lies in one of the loop's turns.
    abbrev AreOn : ℕ → ℕ → List Bucket → Type 0
    AreOn t end rows =
        (b : Bucket)
        → Member b rows
        → (k : ℕ) × (bucket_ts bucket tz b.ts ≡ stepped bucket t k)
          × (bucket_ts bucket tz b.ts < end)

    pub fill-points :
        (fuel t end : ℕ) (rows : List Bucket)
        → 0 < bucket
        → end < fuel + t
        → AreOn t end rows
        → sum_points get (fill fuel (points bucket tz rows) t end bucket) ≡ sum_rows row rows
    unfolding points sum_rows
    fill-points fuel t end [] pos enough on = fill-none fuel t end bucket
    fill-points fuel t end (b ∷ rows) pos enough on =
        let (k, at, lt) = on b (inl refl) in
        let v = get (point_of bucket tz b) in
        let hits : hit fuel (bucket_ts bucket tz b.ts) v t end bucket ≡ v =
          subst (λ x. hit fuel x v t end bucket ≡ v) (sym at)
            (hit-stepped fuel v t end bucket k pos enough (subst (λ x. x < end) at lt)) in
        omega (
          arith,
          hits,
          get-row b,
          fill-points fuel t end rows pos enough (λ c m. on c (inr m)),
          fill-add fuel t end bucket (point_of bucket tz b) (points bucket tz rows)
              (IsAscending-points bucket tz rows),
        )
