-- ===== src/Db/Series.antt =====
-- ui/app/db.py: series and first_traffic_ts. Times are after 1970, and a time zone is given by the
-- seconds that it lies east or west of UTC.
use openvpn_server.Base.{
  ℕ, ◌+◌, ◌-◌, ◌*◌, ◌/◌, Option, none, some, List, [], ◌∷◌, ◌++◌, Text, if◌then◌else◌, ltb, ◌==◌,
  min,
}
use openvpn_server.Db.Schema.{Bucket, Db}
use openvpn_server.Db.Traffic.{traffic_union, where_client}

-- One of the two is 0.
pub record Zone : Type 0 where
  pub east : ℕ
  pub west : ℕ

pub record Point : Type 0 where
  pub ts : ℕ
  pub bytes_in : ℕ
  pub bytes_out : ℕ

-- ((ts + tz) / bucket) * bucket - tz
unfoldable pub bucket_ts : ℕ → Zone → ℕ → ℕ
bucket_ts bucket tz t = (t + tz.east - tz.west) / bucket * bucket + tz.west - tz.east

abbrev pub merged : Point → Point → Point
merged p q = record q { bytes_in = p.bytes_in + q.bytes_in; bytes_out = p.bytes_out + q.bytes_out }

-- GROUP BY b ORDER BY b: a point joins the sorted groups.
unfoldable pub add_point : Point → List Point → List Point
add_point p [] = p ∷ []
add_point p (q ∷ qs) =
    if p.ts == q.ts
    then merged p q ∷ qs
    else if ltb p.ts q.ts
    then p ∷ q ∷ qs
    else q ∷ add_point p qs

abbrev pub point_of : ℕ → Zone → Bucket → Point
point_of bucket tz b = record {
  ts = bucket_ts bucket tz b.ts;
  bytes_in = b.bytes_in;
  bytes_out = b.bytes_out;
}

unfoldable pub points : ℕ → Zone → List Bucket → List Point
points bucket tz [] = []
points bucket tz (b ∷ rows) = add_point (point_of bucket tz b) (points bucket tz rows)

unfoldable pub series : ℕ → ℕ → ℕ → Option Text → Zone → Db → List Point
series start end bucket client tz db =
    points bucket tz (where_client client (traffic_union start end db))

-- MIN(ts)
abbrev pub first_ts : List Bucket → Option ℕ
first_ts [] = none
first_ts (b ∷ rows) = elim (first_ts rows) [ none ↦ some b.ts | some t ↦ some (min b.ts t) ]

unfoldable pub first_traffic_ts : Db → Option ℕ
first_traffic_ts db = first_ts (db.traffic_minute ++ (db.traffic_hour ++ db.traffic_day))
