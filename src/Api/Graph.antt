-- ===== src/Api/Graph.antt =====
-- ui/app/main.py: the graph of the traffic shows all of it.
use openvpn_server.Base.{
  ℕ, zero, suc, ◌+◌, ◌-◌, ◌*◌, ◌/◌, ◌≡◌, ◌≤◌, ◌<◌, inl, inr, refl, sym, ap, ◌∙◌, subst, arith, true,
  Bool-cases, Option, none, some, List, [], ◌∷◌, Text, ltb, select, Member, Member-select,
  Member-append, nonempty,
}
use native.Mathlib.Nat.{div-mul-le_self, le-div_iff_mul-le, lt-div-mul-add}
use openvpn_server.Db.Schema.{Bucket, Db}
use openvpn_server.Db.Traffic.{totals, sum_in, sum_out, where_client, traffic_union, in_range}
use openvpn_server.Db.Series.{Zone, Point, bucket_ts, series}
use openvpn_server.Api.Requests.{ok, ok_eq}
use openvpn_server.Api.Series.{
  bucket_for, find_point, filled, fill, fill_series, range_bounds, is_fine_name, Traffic, traffic,
}
use openvpn_server.Api.Points.{stepped, sum_rows, sum_points, fill-points}

stepped-floor :
    (bucket east west q k : ℕ)
    → east ≤ q * bucket + west
    → stepped bucket (q * bucket + west - east) k ≡ (q + k) * bucket + west - east
unfolding stepped
stepped-floor bucket east west q zero h = ap (λ n. n * bucket + west - east) (omega arith)
stepped-floor bucket east west q (suc k) h =
    let next : suc q * bucket ≡ q * bucket + bucket = omega arith in
    ap (λ t. stepped bucket t k) (omega arith)
    ∙ (stepped-floor bucket east west (suc q) k (omega arith)
        ∙ ap (λ n. n * bucket + west - east) (omega arith))

-- The bucket of a time in the range is one of the loop's turns.
bucket_on :
    (bucket : ℕ) (tz : Zone) (start end t : ℕ)
    → 0 < bucket
    → bucket ≤ start
    → tz.west ≤ start
    → start ≤ t
    → t < end
    → (k : ℕ) × (bucket_ts bucket tz t ≡ stepped bucket (bucket_ts bucket tz start) k)
      × (bucket_ts bucket tz t < end)
unfolding bucket_ts
bucket_on bucket tz start end t pos low west from lt =
    let a = start + tz.east - tz.west in
    let b = t + tz.east - tz.west in
    let below : a / bucket ≤ b / bucket =
      (le-div_iff_mul-le pos).1 (omega (arith, div-mul-le_self a bucket)) in
    let k = b / bucket - a / bucket in
    let more = lt-div-mul-add {a = a} {b = bucket} pos in
    (
      k,
      sym (
          stepped-floor bucket tz.east tz.west (a / bucket) k (omega arith)
          ∙ ap (λ n. n * bucket + tz.west - tz.east) (omega arith)),
      omega (arith, div-mul-le_self b bucket),
    )

sum_rows-in : (rows : List Bucket) → sum_rows (λ b. b.bytes_in) rows ≡ sum_in rows
unfolding sum_rows sum_in
sum_rows-in [] = refl
sum_rows-in (b ∷ rows) = omega (arith, sum_rows-in rows)

sum_rows-out : (rows : List Bucket) → sum_rows (λ b. b.bytes_out) rows ≡ sum_out rows
unfolding sum_rows sum_out
sum_rows-out [] = refl
sum_rows-out (b ∷ rows) = omega (arith, sum_rows-out rows)

Member-where_client :
    (client : Option Text) (b : Bucket) (rows : List Bucket)
    → Member b (where_client client rows)
    → Member b rows
unfolding where_client
Member-where_client none b rows m = m
Member-where_client (some name) b rows m = elim (Bool-cases (nonempty name)) [
  | inl given_ ↦ (Member-select _ b rows (rw given_ at m)).0
  | inr empty ↦ rw empty at m
]

in_union :
    (start end : ℕ) (db : Db) (b : Bucket)
    → Member b (traffic_union start end db)
    → in_range start end b ≡ true
in_union start end db b m =
    elim (Member-append b (select (in_range start end) db.traffic_minute) _ m) [
      | inl minute ↦ (Member-select (in_range start end) b db.traffic_minute minute).1
      | inr more ↦ elim (Member-append b (select (in_range start end) db.traffic_hour) _ more) [
        | inl hour ↦ (Member-select (in_range start end) b db.traffic_hour hour).1
        | inr day ↦ (Member-select (in_range start end) b db.traffic_day day).1
      ]
    ]

module _ (start end bucket : ℕ) (client : Option Text) (tz : Zone) (db : Db) (pos : 0 < bucket)
    (low : bucket ≤ start) (west : tz.west ≤ start) where
  rows_on :
      (b : Bucket)
      → Member b (where_client client (traffic_union start end db))
      → (k : ℕ) × (bucket_ts bucket tz b.ts ≡ stepped bucket (bucket_ts bucket tz start) k)
        × (bucket_ts bucket tz b.ts < end)
  rows_on b m =
      let inside = in_union start end db b (Member-where_client client b _ m) in
      bucket_on bucket tz start end b.ts pos low west (ground arith) (ground arith)

  fill_series-totals :
      let ps = fill_series (series start end bucket client tz db) start end bucket tz in
      (sum_points (λ p. p.bytes_in) ps ≡ (totals start end client db).0)
      × (sum_points (λ p. p.bytes_out) ps ≡ (totals start end client db).1)
  unfolding fill_series series totals
  fill_series-totals = (
    fill-points (λ p. p.bytes_in) (λ p q. refl) (λ t p. refl) (λ t. refl) (λ b. b.bytes_in) bucket
          tz (λ b. refl) (suc end) (bucket_ts bucket tz start) end _ pos (omega arith) rows_on
        ∙ sum_rows-in _,
    fill-points (λ p. p.bytes_out) (λ p q. refl) (λ t p. refl) (λ t. refl) (λ b. b.bytes_out) bucket
          tz (λ b. refl) (suc end) (bucket_ts bucket tz start) end _ pos (omega arith) rows_on
        ∙ sum_rows-out _,
  )

fill-fuel :
    (ps : List Point) (end bucket fuel fuel' t : ℕ)
    → 0 < bucket
    → end < fuel + t
    → end < fuel' + t
    → fill fuel ps t end bucket ≡ fill fuel' ps t end bucket
unfolding fill
fill-fuel ps end bucket zero zero t pos enough enough' = refl
fill-fuel ps end bucket zero (suc fuel') t pos enough enough' = ground arith
fill-fuel ps end bucket (suc fuel) zero t pos enough enough' = ground arith
fill-fuel ps end bucket (suc fuel) (suc fuel') t pos enough enough' =
    elim (Bool-cases (ltb t end)) [
      | inl on ↦ rw on (
          ap (λ rest. filled t (find_point t ps) ∷ rest)
            (fill-fuel ps end bucket fuel fuel' (t + bucket) pos (omega arith) (omega arith)))
      | inr off ↦ rw off refl
    ]

-- The loop of `fill_series` ends: whatever more turns it is given, it adds no point.
pub fill_series_ends :
    (ps : List Point) (start end bucket more : ℕ) (tz : Zone)
    → 0 < bucket
    → fill (suc end + more) ps (bucket_ts bucket tz start) end bucket
      ≡ fill_series ps start end bucket tz
unfolding fill_series
fill_series_ends ps start end bucket more tz pos =
    fill-fuel ps end bucket (suc end + more) (suc end) (bucket_ts bucket tz start) pos (omega arith)
      (omega arith)

bucket_for-bounds : (range : Text) → (0 < bucket_for range) × (bucket_for range ≤ 86400)
unfolding bucket_for
bucket_for-bounds range = (ground arith, ground arith)

-- The answer of /api/traffic adds up: where its range starts a day or more after 1970, the points of
-- its graph sum to the totals that stand beside it, in both directions, for a client and for all.
pub traffic_adds_up :
    (range : Text) (name : Option Text) (tz : Zone) (now start end : ℕ) (db : Db) (t : Traffic)
    → range_bounds range tz now db ≡ ok (start, end)
    → 86400 ≤ start
    → tz.west ≤ 86400
    → traffic range name tz now db ≡ ok t
    → (sum_points (λ p. p.bytes_in) t.series ≡ t.totals.0)
      × (sum_points (λ p. p.bytes_out) t.series ≡ t.totals.1)
unfolding traffic
traffic_adds_up range name tz now start end db t bounds low west h =
    elim (Bool-cases (is_fine_name name)) [
      | inr bad ↦ absurd (ground arith)
      | inl fine ↦
          let (pos, le) = bucket_for-bounds range in
          subst
            (λ (t : Traffic).
              (sum_points (λ p. p.bytes_in) t.series ≡ t.totals.0)
              × (sum_points (λ p. p.bytes_out) t.series ≡ t.totals.1))
            (ok_eq (rw (fine, bounds) at h))
            (fill_series-totals start end (bucket_for range) name tz db pos (omega arith)
              (omega arith))
    ]
