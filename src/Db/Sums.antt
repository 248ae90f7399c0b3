-- ===== src/Db/Sums.antt =====
-- ui/app/db.py: sums over traffic buckets, one direction at a time, and what upserting and folding
-- do to them.
use openvpn_server.Base.{
  ℕ, ◌+◌, ◌≡◌, refl, Bool, true, ◌&&◌, List, [], ◌∷◌, arith, Text, text_eq, text_eq_iff,
  if◌then◌else◌, ◌==◌, select, delete_where, Bool-cases, inl, inr,
}
use openvpn_server.Db.Schema.{Bucket}
use openvpn_server.Db.Traffic.{upsert, upsert_all, floor_to, floored, grouped, older, folded}

-- The buckets are counted twice, in and out: one direction at a time.
pub data Direction : Type 0 where
  incoming outgoing : Direction

abbrev pub bytes : Direction → Bucket → ℕ
bytes incoming b = b.bytes_in
bytes outgoing b = b.bytes_out

-- The bytes in the rows whose time and client pass the test.
unfoldable pub sum_where : Direction → (ℕ → Text → Bool) → List Bucket → ℕ
sum_where d keep [] = 0
sum_where d keep (b ∷ bs) = (if keep b.ts b.client_name then bytes d b else 0) + sum_where d keep bs

abbrev pub amount : Direction → (ℕ → Text → Bool) → Bucket → ℕ
amount d keep b = if keep b.ts b.client_name then bytes d b else 0

-- The row that `upsert` writes on a conflict.
abbrev joined : Bucket → Bucket → Bucket
joined r b = record r { bytes_in = r.bytes_in + b.bytes_in; bytes_out = r.bytes_out + b.bytes_out }

bytes-joined : (d : Direction) (r b : Bucket) → bytes d (joined r b) ≡ bytes d r + bytes d b
bytes-joined incoming r b = refl
bytes-joined outgoing r b = refl

amount-joined :
    (d : Direction) (keep : ℕ → Text → Bool) (r b : Bucket)
    → r.ts ≡ b.ts
    → r.client_name ≡ b.client_name
    → amount d keep (joined r b) ≡ amount d keep b + amount d keep r
amount-joined d keep r b t n = ground (arith, bytes-joined d r b, t, n)

same_key :
    (r b : Bucket)
    → (r.ts == b.ts && text_eq r.client_name b.client_name) ≡ true
    → (r.ts ≡ b.ts) × (r.client_name ≡ b.client_name)
same_key r b h = ground (arith, text_eq_iff r.client_name b.client_name)

pub sum_where-upsert :
    (d : Direction) (keep : ℕ → Text → Bool) (b : Bucket) (rs : List Bucket)
    → sum_where d keep (upsert b rs) ≡ amount d keep b + sum_where d keep rs
unfolding sum_where upsert
sum_where-upsert d keep b [] = refl
sum_where-upsert d keep b (r ∷ rs) =
    elim (Bool-cases (r.ts == b.ts && text_eq r.client_name b.client_name)) [
      | inl same ↦
          rw same
            (omega (arith, amount-joined d keep r b (same_key r b same).0 (same_key r b same).1))
      | inr other ↦ rw other (omega (arith, sum_where-upsert d keep b rs))
    ]

sum_where-upsert_all :
    (d : Direction) (keep : ℕ → Text → Bool) (bs rs : List Bucket)
    → sum_where d keep (upsert_all bs rs) ≡ sum_where d keep bs + sum_where d keep rs
unfolding upsert_all sum_where
sum_where-upsert_all d keep [] rs = omega arith
sum_where-upsert_all d keep (b ∷ bs) rs =
    omega (arith, sum_where-upsert_all d keep bs (upsert b rs), sum_where-upsert d keep b rs)

sum_where-select :
    (d : Direction) (keep : ℕ → Text → Bool) (test : Bucket → Bool) (bs : List Bucket)
    → sum_where d keep (select test bs) + sum_where d keep (delete_where test bs)
      ≡ sum_where d keep bs
unfolding sum_where select delete_where
sum_where-select d keep test [] = refl
sum_where-select d keep test (b ∷ bs) = elim (Bool-cases (test b)) [
  | inl e ↦ rw e (omega (arith, sum_where-select d keep test bs))
  | inr e ↦ rw e (omega (arith, sum_where-select d keep test bs))
]

-- The test does not tell a time from the start of its bucket.
abbrev pub IsAligned : ℕ → (ℕ → Text → Bool) → Type 0
IsAligned size keep = (ts : ℕ) (n : Text) → keep (floor_to size ts) n ≡ keep ts n

amount-floored :
    (d : Direction) (keep : ℕ → Text → Bool) (size : ℕ) (b : Bucket)
    → IsAligned size keep
    → amount d keep (floored size b) ≡ amount d keep b
amount-floored incoming keep size b h = rw (h b.ts b.client_name)
amount-floored outgoing keep size b h = rw (h b.ts b.client_name)

sum_where-grouped :
    (d : Direction) (keep : ℕ → Text → Bool) (size : ℕ) (bs : List Bucket)
    → IsAligned size keep
    → sum_where d keep (grouped size bs) ≡ sum_where d keep bs
unfolding sum_where grouped
sum_where-grouped d keep size [] h = refl
sum_where-grouped d keep size (b ∷ bs) h = omega (
  arith,
  sum_where-upsert d keep (floored size b) (grouped size bs),
  amount-floored d keep size b h,
  sum_where-grouped d keep size bs h,
)

-- Folding moves the bytes of the old rows and loses none.
pub sum_where-folded :
    (d : Direction) (keep : ℕ → Text → Bool) (size cutoff : ℕ) (fine coarse : List Bucket)
    → IsAligned size keep
    → sum_where d keep (delete_where (older cutoff) fine)
        + sum_where d keep (folded size cutoff fine coarse)
      ≡ sum_where d keep fine + sum_where d keep coarse
sum_where-folded d keep size cutoff fine coarse h = omega (
  arith,
  sum_where-upsert_all d keep (grouped size (select (older cutoff) fine)) coarse,
  sum_where-grouped d keep size (select (older cutoff) fine) h,
  sum_where-select d keep (older cutoff) fine,
)
