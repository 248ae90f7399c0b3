-- ===== src/Db/Totals.antt =====
-- ui/app/db.py: what the traffic totals say before and after `add_traffic` and `rollup`.
use openvpn_server.Base.{
  ℕ, ◌+◌, ◌-◌, ◌%◌, ◌≡◌, refl, Bool, true, ◌&&◌, Option, none, some, List, [], ◌∷◌, ◌++◌, arith,
  Text, text_eq, nonempty, if◌then◌else◌, ltb, leb, select, ℤ, is_nonpos, pos_part, Bool-cases, inl,
  inr,
}
use openvpn_server.Db.Schema.{Bucket, Db}
use openvpn_server.Db.Traffic.{
  add_traffic, floor_to, folded, rollup, in_range, traffic_union, sum_in, sum_out, is_client,
  where_client, totals, minute_retention, hour_retention,
}
use openvpn_server.Db.Sums.{
  Direction, incoming, outgoing, sum_where, amount, IsAligned, sum_where-upsert, sum_where-folded,
}

total : Direction → List Bucket → ℕ
total incoming = sum_in
total outgoing = sum_out

abbrev pub client_test : Option Text → Text → Bool
client_test none n = true
client_test (some name) n = if nonempty name then text_eq n name else true

-- The rows that `totals` sums.
unfoldable pub keeps : ℕ → ℕ → Option Text → ℕ → Text → Bool
keeps start end client ts n = (leb start ts && ltb ts end) && client_test client n

abbrev pub sum_db : Direction → (ℕ → Text → Bool) → Db → ℕ
sum_db d keep db =
    sum_where d keep db.traffic_minute
    + (sum_where d keep db.traffic_hour + sum_where d keep db.traffic_day)

total-select :
    (d : Direction) (start end : ℕ) (client : Option Text) (bs : List Bucket)
    → total d (where_client client (select (in_range start end) bs))
      ≡ sum_where d (keeps start end client) bs
unfolding total sum_in sum_out where_client sum_where keeps select
total-select incoming start end none [] = refl
total-select outgoing start end none [] = refl
total-select incoming start end (some []) [] = refl
total-select outgoing start end (some []) [] = refl
total-select incoming start end (some (c ∷ n)) [] = refl
total-select outgoing start end (some (c ∷ n)) [] = refl
total-select incoming start end none (b ∷ bs) =
    ground (arith, total-select incoming start end none bs)
total-select outgoing start end none (b ∷ bs) =
    ground (arith, total-select outgoing start end none bs)
total-select incoming start end (some []) (b ∷ bs) =
    ground (arith, total-select incoming start end (some []) bs)
total-select outgoing start end (some []) (b ∷ bs) =
    ground (arith, total-select outgoing start end (some []) bs)
total-select incoming start end (some (c ∷ n)) (b ∷ bs) =
    ground (arith, total-select incoming start end (some (c ∷ n)) bs)
total-select outgoing start end (some (c ∷ n)) (b ∷ bs) =
    ground (arith, total-select outgoing start end (some (c ∷ n)) bs)

total-append : (d : Direction) (xs ys : List Bucket) → total d (xs ++ ys) ≡ total d xs + total d ys
unfolding total sum_in sum_out
total-append incoming [] ys = omega arith
total-append outgoing [] ys = omega arith
total-append incoming (x ∷ xs) ys = omega (arith, total-append incoming xs ys)
total-append outgoing (x ∷ xs) ys = omega (arith, total-append outgoing xs ys)

select-append :
    (test : Bucket → Bool) (xs ys : List Bucket)
    → select test (xs ++ ys) ≡ select test xs ++ select test ys
unfolding select
select-append test [] ys = refl
select-append test (x ∷ xs) ys = ground (arith, select-append test xs ys)

where_client-append :
    (client : Option Text) (xs ys : List Bucket)
    → where_client client (xs ++ ys) ≡ where_client client xs ++ where_client client ys
unfolding where_client
where_client-append none xs ys = refl
where_client-append (some []) xs ys = refl
where_client-append (some (c ∷ n)) xs ys = select-append (is_client (c ∷ n)) xs ys

total-traffic_union :
    (d : Direction) (start end : ℕ) (client : Option Text) (db : Db)
    → total d (where_client client (traffic_union start end db))
      ≡ sum_db d (keeps start end client) db
total-traffic_union d start end client db = simp (where_client-append, total-append, total-select)

pub totals-sum_db :
    (start end : ℕ) (client : Option Text) (db : Db)
    → totals start end client db
      ≡ (sum_db incoming (keeps start end client) db, sum_db outgoing (keeps start end client) db)
unfolding totals total
totals-sum_db start end client db = ground (
  arith,
  total-traffic_union incoming start end client db,
  total-traffic_union outgoing start end client db,
)

sum_db-rollup :
    (d : Direction) (keep : ℕ → Text → Bool) (now : ℕ) (db : Db)
    → IsAligned 3600 keep
    → IsAligned 86400 keep
    → sum_db d keep (rollup now db) ≡ sum_db d keep db
unfolding rollup
sum_db-rollup d keep now db hour day = omega (
  arith,
  sum_where-folded d keep 3600 (now - minute_retention) db.traffic_minute db.traffic_hour hour,
  sum_where-folded d keep 86400 (now - hour_retention)
      (folded 3600 (now - minute_retention) db.traffic_minute db.traffic_hour) db.traffic_day day,
)

leb-floor_to_hour : (a ts : ℕ) → a % 86400 ≡ 0 → leb a (floor_to 3600 ts) ≡ leb a ts
leb-floor_to_hour a ts h = ground arith

leb-floor_to_day : (a ts : ℕ) → a % 86400 ≡ 0 → leb a (floor_to 86400 ts) ≡ leb a ts
leb-floor_to_day a ts h = ground arith

ltb-floor_to_hour : (a ts : ℕ) → a % 86400 ≡ 0 → ltb (floor_to 3600 ts) a ≡ ltb ts a
ltb-floor_to_hour a ts h = ground arith

ltb-floor_to_day : (a ts : ℕ) → a % 86400 ≡ 0 → ltb (floor_to 86400 ts) a ≡ ltb ts a
ltb-floor_to_day a ts h = ground arith

keeps-floor_to_hour :
    (start end : ℕ) (client : Option Text)
    → start % 86400 ≡ 0
    → end % 86400 ≡ 0
    → IsAligned 3600 (keeps start end client)
unfolding keeps
keeps-floor_to_hour start end client hs he ts n =
    rw (leb-floor_to_hour start ts hs, ltb-floor_to_hour end ts he)

keeps-floor_to_day :
    (start end : ℕ) (client : Option Text)
    → start % 86400 ≡ 0
    → end % 86400 ≡ 0
    → IsAligned 86400 (keeps start end client)
unfolding keeps
keeps-floor_to_day start end client hs he ts n =
    rw (leb-floor_to_day start ts hs, ltb-floor_to_day end ts he)

-- For whole days, from a start to an end that are both a multiple of 86400, the totals of all
-- clients and of each client are the same before and after the roll-up, at whatever time it runs.
pub rollup-totals :
    (now start end : ℕ) (client : Option Text) (db : Db)
    → start % 86400 ≡ 0
    → end % 86400 ≡ 0
    → totals start end client (rollup now db) ≡ totals start end client db
rollup-totals now start end client db hs he =
    let hour = keeps-floor_to_hour start end client hs he in
    let day = keeps-floor_to_day start end client hs he in
    rw (
      totals-sum_db start end client (rollup now db),
      totals-sum_db start end client db,
      sum_db-rollup incoming (keeps start end client) now db hour day,
      sum_db-rollup outgoing (keeps start end client) now db hour day,
    )

-- The row that `add_traffic` hands to the minute table.
abbrev minute_row : ℕ → Text → ℤ → ℤ → Bucket
minute_row ts name d_in d_out = record {
  ts = ts;
  client_name = name;
  bytes_in = pos_part d_in;
  bytes_out = pos_part d_out;
}

amount-nonpos :
    (d : Direction) (keep : ℕ → Text → Bool) (ts : ℕ) (name : Text) (d_in d_out : ℤ)
    → (is_nonpos d_in && is_nonpos d_out) ≡ true
    → amount d keep (minute_row ts name d_in d_out) ≡ 0
amount-nonpos incoming keep ts name d_in d_out h = ground arith
amount-nonpos outgoing keep ts name d_in d_out h = ground arith

sum_db-add_traffic :
    (d : Direction) (keep : ℕ → Text → Bool) (db : Db) (ts : ℕ) (name : Text) (d_in d_out : ℤ)
    → sum_db d keep (add_traffic db ts name d_in d_out)
      ≡ sum_db d keep db + amount d keep (minute_row ts name d_in d_out)
unfolding add_traffic
sum_db-add_traffic d keep db ts name d_in d_out =
    elim (Bool-cases (is_nonpos d_in && is_nonpos d_out)) [
      | inl e ↦ rw e (omega (arith, amount-nonpos d keep ts name d_in d_out e))
      | inr e ↦
          rw e (
            omega
              (arith, sum_where-upsert d keep (minute_row ts name d_in d_out) db.traffic_minute))
    ]

-- After `add_traffic` the totals of a period and a client have grown by the two differences, a
-- negative one taken as 0, if the minute lies in the period and the client is the one asked for
-- (or all are), and are the same if not.
add_traffic-totals :
    (db : Db) (ts start end : ℕ) (name : Text) (client : Option Text) (d_in d_out : ℤ)
    → let (in_before, out_before) = totals start end client db in
      let counted = (leb start ts && ltb ts end) && client_test client name in
      totals start end client (add_traffic db ts name d_in d_out) ≡ (
        in_before + (if counted then pos_part d_in else 0),
        out_before + (if counted then pos_part d_out else 0),
      )
unfolding keeps
add_traffic-totals db ts start end name client d_in d_out = rw (
  totals-sum_db start end client (add_traffic db ts name d_in d_out),
  totals-sum_db start end client db,
  sum_db-add_traffic incoming (keeps start end client) db ts name d_in d_out,
  sum_db-add_traffic outgoing (keeps start end client) db ts name d_in d_out,
)
