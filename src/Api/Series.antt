-- ===== src/Api/Series.antt =====
-- ui/app/main.py: the graphs of the traffic. range_bounds, bucket_for, fill_series and the answer of
-- /api/traffic.
use openvpn_server.Base.{
  ℕ, zero, suc, ◌+◌, ◌-◌, ◌*◌, Bool, true, Option, none, some, List, [], ◌∷◌, Text, codes, text_eq,
  if◌then◌else◌, ltb, ◌==◌,
}
use openvpn_server.Db.Schema.{Db}
use openvpn_server.Db.Traffic.{totals}
use openvpn_server.Db.Series.{Zone, Point, bucket_ts, series, first_traffic_ts}
use openvpn_server.Pki.Names.{is_valid_name}
use openvpn_server.Api.Requests.{Answer, ok, failed}

-- RANGES: the length of a range, 0 for `None`.
unfoldable pub range_length : Text → Option ℕ
range_length name =
    if text_eq name (codes "today")
    then some 0
    else if text_eq name (codes "24h")
    then some 86400
    else if text_eq name (codes "7d")
    then some (7 * 86400)
    else if text_eq name (codes "30d")
    then some (30 * 86400)
    else if text_eq name (codes "90d")
    then some (90 * 86400)
    else if text_eq name (codes "all")
    then some 0
    else none

abbrev pub or_else : Option ℕ → ℕ → ℕ
or_else none other = other
or_else (some n) other = if n == 0 then other else n

abbrev pub bounds : Text → Zone → ℕ → Db → Option ℕ → Answer (ℕ × ℕ)
bounds name tz now db none = failed 400
bounds name tz now db (some back) = ok (
  if text_eq name (codes "today")
      then bucket_ts 86400 tz now
      else if text_eq name (codes "all")
      then or_else (first_traffic_ts db) (now - 86400)
      else now - back,
  now + 1,
)

unfoldable pub range_bounds : Text → Zone → ℕ → Db → Answer (ℕ × ℕ)
range_bounds name tz now db = bounds name tz now db (range_length name)

unfoldable pub bucket_for : Text → ℕ
bucket_for name =
    if text_eq name (codes "today")
    then 600
    else if text_eq name (codes "24h")
    then 600
    else if text_eq name (codes "7d")
    then 3600
    else 86400

-- `by_ts.get(t)`; the points have different times.
unfoldable pub find_point : ℕ → List Point → Option Point
find_point t [] = none
find_point t (p ∷ ps) = if p.ts == t then some p else find_point t ps

abbrev pub filled : ℕ → Option Point → Point
filled t none = record { ts = t; bytes_in = 0; bytes_out = 0 }
filled t (some p) = record { ts = t; bytes_in = p.bytes_in; bytes_out = p.bytes_out }

-- The loop, on fuel.
unfoldable pub fill : ℕ → List Point → ℕ → ℕ → ℕ → List Point
fill zero ps t end bucket = []
fill (suc fuel) ps t end bucket =
    let rest = fill fuel ps (t + bucket) end bucket in
    if ltb t end then filled t (find_point t ps) ∷ rest else []

-- Each turn is a second or more closer to the end.
unfoldable pub fill_series : List Point → ℕ → ℕ → ℕ → Zone → List Point
fill_series ps start end bucket tz = fill (suc end) ps (bucket_ts bucket tz start) end bucket

pub record Traffic : Type 0 where
  pub bucket : ℕ
  pub series : List Point
  pub totals : ℕ × ℕ

abbrev pub traffic_between : Text → Option Text → Zone → Db → Answer (ℕ × ℕ) → Answer Traffic
traffic_between range name tz db (failed status) = failed status
traffic_between range name tz db (ok (start, end)) =
    let bucket = bucket_for range in
    ok (record {
      bucket = bucket;
      series = fill_series (series start end bucket name tz db) start end bucket tz;
      totals = totals start end name db;
    })

-- A client's name is validated if one is given.
abbrev pub is_fine_name : Option Text → Bool
is_fine_name none = true
is_fine_name (some []) = true
is_fine_name (some (c ∷ s)) = is_valid_name (c ∷ s)

unfoldable pub traffic : Text → Option Text → Zone → ℕ → Db → Answer Traffic
traffic range name tz now db =
    if is_fine_name name
    then traffic_between range name tz db (range_bounds range tz now db)
    else failed 400
