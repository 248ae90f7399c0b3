-- ===== src/Db/Traffic.antt =====
-- ui/app/db.py: traffic buckets. `add_traffic` counts into minute buckets, `rollup` folds old
-- minute buckets into hourly and old hourly ones into daily buckets, and the totals sum them.
use openvpn_server.Base.{
  ℕ, ◌+◌, ◌-◌, ◌*◌, ◌/◌, Bool, ◌&&◌, Option, none, some, List, [], ◌∷◌, ◌++◌, Text, text_eq,
  nonempty, if◌then◌else◌, ltb, leb, ◌==◌, select, delete_where, ℤ, is_nonpos, pos_part,
}
use openvpn_server.Db.Schema.{Bucket, Db}

abbrev pub minute_retention : ℕ
minute_retention = 2 * 86400

abbrev pub hour_retention : ℕ
hour_retention = 90 * 86400

abbrev pub event_retention : ℕ
event_retention = 365 * 86400

-- INSERT of one bucket, ON CONFLICT(ts, client_name) added to the row that is there.
unfoldable pub upsert : Bucket → List Bucket → List Bucket
upsert b [] = b ∷ []
upsert b (r ∷ rs) =
    if r.ts == b.ts && text_eq r.client_name b.client_name
    then (record r { bytes_in = r.bytes_in + b.bytes_in; bytes_out = r.bytes_out + b.bytes_out })
      ∷ rs
    else r ∷ upsert b rs

unfoldable pub upsert_all : List Bucket → List Bucket → List Bucket
upsert_all [] table = table
upsert_all (b ∷ bs) table = upsert_all bs (upsert b table)

unfoldable pub add_traffic : Db → ℕ → Text → ℤ → ℤ → Db
add_traffic db ts_minute client_name d_in d_out =
    if is_nonpos d_in && is_nonpos d_out then db else record db {
      traffic_minute =
          upsert
            (record {
              ts = ts_minute;
              client_name = client_name;
              bytes_in = pos_part d_in;
              bytes_out = pos_part d_out;
            })
            db.traffic_minute;
    }

-- (ts / size) * size
abbrev pub floor_to : ℕ → ℕ → ℕ
floor_to size ts = ts / size * size

abbrev pub floored : ℕ → Bucket → Bucket
floored size b = record b { ts = floor_to size b.ts }

-- SELECT (ts / size) * size, client_name, SUM(bytes_in), SUM(bytes_out) ... GROUP BY 1, 2
unfoldable pub grouped : ℕ → List Bucket → List Bucket
grouped size [] = []
grouped size (b ∷ bs) = upsert (floored size b) (grouped size bs)

abbrev pub older : ℕ → Bucket → Bool
older cutoff b = ltb b.ts cutoff

-- Both halves of `rollup` do this: fold the rows of `fine` below the cutoff into `coarse`.
abbrev pub folded : ℕ → ℕ → List Bucket → List Bucket → List Bucket
folded size cutoff fine coarse = upsert_all (grouped size (select (older cutoff) fine)) coarse

-- `now` is the current time, which the code reads from the clock when it is not given.
unfoldable pub rollup : ℕ → Db → Db
rollup now db =
    let minute_cutoff = now - minute_retention in
    let hour_cutoff = now - hour_retention in
    let hours = folded 3600 minute_cutoff db.traffic_minute db.traffic_hour in
    record db {
      traffic_minute = delete_where (older minute_cutoff) db.traffic_minute;
      traffic_day = folded 86400 hour_cutoff hours db.traffic_day;
      traffic_hour = delete_where (older hour_cutoff) hours;
      web_sessions = delete_where (λ s. ltb s.expires_at now) db.web_sessions;
      rejections = delete_where (λ r. ltb r.day (now - hour_retention)) db.rejections;
      share_tokens = delete_where (λ t. ltb t.expires_at now) db.share_tokens;
      events = delete_where (λ e. ltb e.ts (now - event_retention)) db.events;
    }

abbrev pub in_range : ℕ → ℕ → Bucket → Bool
in_range start end b = leb start b.ts && ltb b.ts end

-- _TRAFFIC_UNION
abbrev pub traffic_union : ℕ → ℕ → Db → List Bucket
traffic_union start end db =
    select (in_range start end) db.traffic_minute
    ++ (select (in_range start end) db.traffic_hour ++ select (in_range start end) db.traffic_day)

unfoldable pub sum_in : List Bucket → ℕ
sum_in [] = 0
sum_in (b ∷ bs) = b.bytes_in + sum_in bs

unfoldable pub sum_out : List Bucket → ℕ
sum_out [] = 0
sum_out (b ∷ bs) = b.bytes_out + sum_out bs

abbrev pub is_client : Text → Bucket → Bool
is_client name b = text_eq b.client_name name

-- " WHERE client_name = ?" if a client name is given that is not empty.
unfoldable pub where_client : Option Text → List Bucket → List Bucket
where_client none rows = rows
where_client (some name) rows = if nonempty name then select (is_client name) rows else rows

unfoldable pub totals : ℕ → ℕ → Option Text → Db → ℕ × ℕ
totals start end client db =
    let rows = where_client client (traffic_union start end db) in (sum_in rows, sum_out rows)
