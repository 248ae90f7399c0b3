-- ===== src/Db/Traces.antt =====
-- ui/app/db.py: what a client's history is after it was archived or purged, and the laws of the
-- settings and of the counts of rejected attempts.
use openvpn_server.Base.{
  ℕ, ◌+◌, ◌-◌, ◌%◌, ◌≡◌, ◌≢◌, ◌⊎◌, refl, ap, Bool, true, false, ◌&&◌, Option, none, some, List, [],
  ◌∷◌, arith, Text, text_eq, text_eq_iff, text_eq_sound, nonempty, if◌then◌else◌, ◌==◌,
  update_where, delete_where, any, length, length-append, str_of, Bool-cases, inl, inr,
}
use openvpn_server.Db.Schema.{Db, Setting, Rejection, Bucket}
use openvpn_server.Db.Traffic.{totals}
use openvpn_server.Db.Sums.{Direction, incoming, outgoing, sum_where}
use openvpn_server.Db.Totals.{keeps, sum_db, totals-sum_db}
use openvpn_server.Db.History.{
  get_setting_in, get_setting, put_setting, set_setting, upsert_rejection, add_rejection,
  of_session, of_relay, of_bucket, has_history, rename_buckets, archive_key, nothing_to_archive,
  archived_as, unique_violation, archive_client_history, move_history, purge_client, same_rejection,
}

get_setting_in-put_setting :
    (key k value : Text) (rows : List Setting)
    → get_setting_in k (put_setting key value rows)
      ≡ (if text_eq key k then some value else get_setting_in k rows)
unfolding get_setting_in put_setting
get_setting_in-put_setting key k value [] = refl
get_setting_in-put_setting key k value (s ∷ rows) = ground (
  arith,
  text_eq_iff s.key key,
  text_eq_iff s.key k,
  text_eq_iff key k,
  get_setting_in-put_setting key k value rows,
)

-- A setting reads as it was last written, and writing one changes no other.
get_setting-set_setting :
    (key k value : Text) (db : Db)
    → get_setting (set_setting key value db) k
      ≡ (if text_eq key k then some value else get_setting db k)
unfolding set_setting
get_setting-set_setting key k value db = get_setting_in-put_setting key k value db.settings

abbrev pub keyed : ℕ → Text → Text → Text → Rejection → Bool
keyed day client reason address r =
    r.day == day
    && (text_eq r.client_name client && (text_eq r.reason reason && text_eq r.address address))

-- The attempts counted for one day, client, reason and source.
unfoldable pub attempts : ℕ → Text → Text → Text → List Rejection → ℕ
attempts day client reason address [] = 0
attempts day client reason address (r ∷ rows) =
    (if keyed day client reason address r then r.count else 0)
    + attempts day client reason address rows

keyed-same :
    (day : ℕ) (client reason address : Text) (r new : Rejection)
    → same_rejection r new ≡ true
    → keyed day client reason address r ≡ keyed day client reason address new
keyed-same day client reason address r new h =
    let fields : (r.day ≡ new.day)
        × (r.client_name ≡ new.client_name)
        × (r.reason ≡ new.reason)
        × (r.address ≡ new.address) =
      ground (
        arith,
        text_eq_iff r.client_name new.client_name,
        text_eq_iff r.reason new.reason,
        text_eq_iff r.address new.address,
      ) in
    rw (fields.0, fields.1, fields.2, fields.3)

attempts-upsert_rejection :
    (day : ℕ) (client reason address : Text) (new : Rejection) (rows : List Rejection)
    → new.count ≡ 1
    → attempts day client reason address (upsert_rejection new rows)
      ≡ attempts day client reason address rows
        + (if keyed day client reason address new then 1 else 0)
unfolding attempts upsert_rejection
attempts-upsert_rejection day client reason address new [] one = rw one (omega arith)
attempts-upsert_rejection day client reason address new (r ∷ rows) one =
    elim (Bool-cases (same_rejection r new)) [
      | inl e ↦ rw e (
          rw (keyed-same day client reason address r new e)
            (elim (Bool-cases (keyed day client reason address new)) [
              | inl k ↦ rw k (omega arith)
              | inr k ↦ rw k (omega arith)
            ]))
      | inr e ↦
          rw e (omega (arith, attempts-upsert_rejection day client reason address new rows one))
    ]

-- A rejected attempt counts once, for the day that it falls on, its client, reason and source, and
-- changes no other count.
add_rejection-attempts :
    (ts day : ℕ) (client reason address client' reason' address' : Text) (db : Db)
    → attempts day client' reason' address' (add_rejection ts client reason address db).rejections
      ≡ attempts day client' reason' address' db.rejections
        + (if (ts - ts % 86400) == day
              && (text_eq client client' && (text_eq reason reason' && text_eq address address'))
            then 1
            else 0)
unfolding add_rejection
add_rejection-attempts ts day client reason address client' reason' address' db =
    attempts-upsert_rejection day client' reason' address' _ db.rejections refl

module _ {A : Type 0} where
  any-update_where :
      (test : A → Bool) (set : A → A) (xs : List A)
      → ((x : A) → test (set x) ≡ false)
      → any test (update_where test set xs) ≡ false
  unfolding update_where
  any-update_where test set [] h = refl
  any-update_where test set (x ∷ xs) h = ground (arith, h x, any-update_where test set xs h)

  any-delete_where :
      (test drop : A → Bool) (xs : List A)
      → ((x : A) → drop x ≡ false → test x ≡ false)
      → any test (delete_where drop xs) ≡ false
  unfolding delete_where
  any-delete_where test drop [] h = refl
  any-delete_where test drop (x ∷ xs) h = ground (arith, h x, any-delete_where test drop xs h)

archive_key-ne : (name : Text) (now : ℕ) → text_eq (archive_key name now) name ≡ false
archive_key-ne name now = elim (Bool-cases (text_eq (archive_key name now) name)) [
  | inl e ↦ absurd (
      omega (
        arith,
        length-append {0} name (b'#' ∷ str_of now),
        ap length (text_eq_sound (archive_key name now) name e),
      ))
  | inr e ↦ e
]

-- After the moves nothing is left under the old name.
move_history-clears :
    (key : Text) (now : ℕ) (name : Text) (before : Option ℕ) (db : Db)
    → text_eq key name ≡ false
    → has_history name before (move_history key now name before db) ≡ false
unfolding has_history move_history
move_history-clears key now name before db ne = rw (
  any-update_where (of_session name before) (λ s. record s { client_name = key }) db.vpn_sessions
      (λ s. rw ne),
  any-update_where (of_relay name before) (λ r. record r { client_name = key }) db.relay_sessions
      (λ r. rw ne),
  any-update_where (of_bucket name before) (λ b. record b { client_name = key }) db.traffic_minute
      (λ b. rw ne),
  any-update_where (of_bucket name before) (λ b. record b { client_name = key }) db.traffic_hour
      (λ b. rw ne),
  any-update_where (of_bucket name before) (λ b. record b { client_name = key }) db.traffic_day
      (λ b. rw ne),
)

-- The outcomes of `archive_client_history`: it moves nothing where there is nothing to move or the
-- database refuses, and else no session, relay session or bucket (older than `before`, if that is
-- given) is left under the client's name.
pub archive_client_history-clears :
    (now : ℕ) (name : Text) (before : Option ℕ) (db : Db)
    → let (outcome, db') = archive_client_history now name before db in
      ((outcome ≡ archived_as (archive_key name now))
        × (has_history name before db ≡ true)
        × (has_history name before db' ≡ false))
      ⊎ ((outcome ≡ nothing_to_archive) × (has_history name before db ≡ false) × (db' ≡ db))
      ⊎ ((outcome ≡ unique_violation) × (db' ≡ db))
unfolding archive_client_history
archive_client_history-clears now name before db =
    ground (
      arith,
      move_history-clears (archive_key name now) now name before db (archive_key-ne name now),
    )

sum_where-rename :
    (d : Direction) (keep : ℕ → Text → Bool) (key name : Text) (before : Option ℕ)
    (bs : List Bucket)
    → ((ts : ℕ) (a b : Text) → keep ts a ≡ keep ts b)
    → sum_where d keep (rename_buckets key name before bs) ≡ sum_where d keep bs
unfolding sum_where update_where
sum_where-rename d keep key name before [] same = refl
sum_where-rename incoming keep key name before (b ∷ bs) same =
    ground
      (arith, same b.ts key b.client_name, sum_where-rename incoming keep key name before bs same)
sum_where-rename outgoing keep key name before (b ∷ bs) same =
    ground
      (arith, same b.ts key b.client_name, sum_where-rename outgoing keep key name before bs same)

sum_db-move_history :
    (d : Direction) (start end now : ℕ) (key name : Text) (before : Option ℕ) (db : Db)
    → sum_db d (keeps start end none) (move_history key now name before db)
      ≡ sum_db d (keeps start end none) db
unfolding move_history keeps
sum_db-move_history d start end now key name before db =
    let keep : ℕ → Text → Bool = keeps start end none in
    rw (
      sum_where-rename d keep key name before db.traffic_minute (λ ts a b. refl),
      sum_where-rename d keep key name before db.traffic_hour (λ ts a b. refl),
      sum_where-rename d keep key name before db.traffic_day (λ ts a b. refl),
    )

move_history-totals :
    (start end now : ℕ) (key name : Text) (before : Option ℕ) (db : Db)
    → totals start end none (move_history key now name before db) ≡ totals start end none db
move_history-totals start end now key name before db = rw (
  totals-sum_db start end none (move_history key now name before db),
  totals-sum_db start end none db,
  sum_db-move_history incoming start end now key name before db,
  sum_db-move_history outgoing start end now key name before db,
)

-- Archiving a client's history, whatever its outcome, leaves the totals over all clients of every
-- period as they are.
pub archive_client_history-totals :
    (start end now : ℕ) (name : Text) (before : Option ℕ) (db : Db)
    → totals start end none (archive_client_history now name before db).1 ≡ totals start end none db
unfolding archive_client_history
archive_client_history-totals start end now name before db =
    ground (arith, move_history-totals start end now (archive_key name now) name before db)

sum_where-purge :
    (d : Direction) (start end : ℕ) (other name : Text) (bs : List Bucket)
    → nonempty other ≡ true
    → other ≢ name
    → sum_where d (keeps start end (some other)) (delete_where (λ b. text_eq b.client_name name) bs)
      ≡ sum_where d (keeps start end (some other)) bs
unfolding sum_where delete_where keeps
sum_where-purge d start end other name [] n ne = refl
sum_where-purge d start end other name (b ∷ bs) n ne = ground (
  arith,
  text_eq_iff b.client_name name,
  text_eq_iff b.client_name other,
  sum_where-purge d start end other name bs n ne,
)

sum_db-purge :
    (d : Direction) (start end : ℕ) (other name : Text) (db : Db)
    → nonempty other ≡ true
    → other ≢ name
    → sum_db d (keeps start end (some other)) (purge_client name db)
      ≡ sum_db d (keeps start end (some other)) db
unfolding purge_client
sum_db-purge d start end other name db n ne = rw (
  sum_where-purge d start end other name db.traffic_minute n ne,
  sum_where-purge d start end other name db.traffic_hour n ne,
  sum_where-purge d start end other name db.traffic_day n ne,
)

has_history-purge : (name : Text) (db : Db) → has_history name none (purge_client name db) ≡ false
unfolding has_history purge_client
has_history-purge name db = rw (
  any-delete_where (of_session name none) (λ s. text_eq s.client_name name) db.vpn_sessions
      (λ s h. rw h),
  any-delete_where (of_relay name none) (λ r. text_eq r.client_name name) db.relay_sessions
      (λ r h. rw h),
  any-delete_where (of_bucket name none) (λ b. text_eq b.client_name name) db.traffic_minute
      (λ b h. rw h),
  any-delete_where (of_bucket name none) (λ b. text_eq b.client_name name) db.traffic_hour
      (λ b h. rw h),
  any-delete_where (of_bucket name none) (λ b. text_eq b.client_name name) db.traffic_day
      (λ b h. rw h),
)

-- A purged client has no session, relay session or bucket left, and the totals of every other
-- client with a nonempty name stay as they are.
purge_client-clears :
    (start end : ℕ) (name other : Text) (db : Db)
    → nonempty other ≡ true
    → other ≢ name
    → (has_history name none (purge_client name db) ≡ false)
      × (totals start end (some other) (purge_client name db) ≡ totals start end (some other) db)
purge_client-clears start end name other db n ne = (
  has_history-purge name db,
  rw (
    totals-sum_db start end (some other) (purge_client name db),
    totals-sum_db start end (some other) db,
    sum_db-purge incoming start end other name db n ne,
    sum_db-purge outgoing start end other name db n ne,
  ),
)
