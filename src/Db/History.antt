-- ===== src/Db/History.antt =====
-- ui/app/db.py: settings, events, rejected connection attempts, and the history of a client that
-- is archived when its name is given to a new certificate or purged.
use openvpn_server.Base.{
  ℕ, ◌+◌, ◌-◌, ◌%◌, Bool, true, false, not, ◌&&◌, ◌||◌, Option, none, some, List, [], ◌∷◌, ◌++◌,
  Text, text_eq, if◌then◌else◌, ltb, ◌==◌, update_where, delete_where, max, any, str_of,
}
use openvpn_server.Db.Schema.{
  VpnSession, Db, Setting, Rejection, RelaySession, Bucket, ArchivedClient,
}

-- `get_setting(key)`; the default that a caller gives is `coalesce`.
unfoldable pub get_setting_in : Text → List Setting → Option Text
get_setting_in key [] = none
get_setting_in key (s ∷ rows) = if text_eq s.key key then some s.value else get_setting_in key rows

abbrev pub get_setting : Db → Text → Option Text
get_setting db key = get_setting_in key db.settings

-- INSERT ... ON CONFLICT(key) DO UPDATE SET value = excluded.value
unfoldable pub put_setting : Text → Text → List Setting → List Setting
put_setting key value [] = (record { key = key; value = value }) ∷ []
put_setting key value (s ∷ rows) =
    if text_eq s.key key
    then (record s { value = value }) ∷ rows
    else s ∷ put_setting key value rows

unfoldable pub set_setting : Text → Text → Db → Db
set_setting key value db = record db { settings = put_setting key value db.settings }

unfoldable pub add_event : ℕ → Text → Option Text → Option Text → Option Text → Db → Db
add_event now kind client_name actor detail db = record db {
  events =
      db.events
      ++ (record {
        id = db.next_event;
        ts = now;
        kind = kind;
        client_name = client_name;
        actor = actor;
        detail = detail;
      })
        ∷ [];
  next_event = db.next_event + 1;
}

abbrev pub same_rejection : Rejection → Rejection → Bool
same_rejection r s =
    r.day == s.day
    && (text_eq r.client_name s.client_name
        && (text_eq r.reason s.reason && text_eq r.address s.address))

unfoldable pub upsert_rejection : Rejection → List Rejection → List Rejection
upsert_rejection new [] = new ∷ []
upsert_rejection new (r ∷ rows) =
    if same_rejection r new
    then (record r { count = r.count + 1; last_ts = max r.last_ts new.last_ts }) ∷ rows
    else r ∷ upsert_rejection new rows

unfoldable pub add_rejection : ℕ → Text → Text → Text → Db → Db
add_rejection ts client reason address db = record db {
  rejections =
      upsert_rejection
        (record {
          day = ts - ts % 86400;
          client_name = client;
          reason = reason;
          address = address;
          count = 1;
          last_ts = ts;
        })
        db.rejections;
}

-- " AND {col} < ?" if a time is given.
abbrev pub is_before : Option ℕ → ℕ → Bool
is_before none at = true
is_before (some before) at = ltb at before

abbrev pub of_session : Text → Option ℕ → VpnSession → Bool
of_session name before s = text_eq s.client_name name && is_before before s.connected_at

abbrev pub of_relay : Text → Option ℕ → RelaySession → Bool
of_relay name before r = text_eq r.client_name name && is_before before r.started_at

abbrev pub of_bucket : Text → Option ℕ → Bucket → Bool
of_bucket name before b = text_eq b.client_name name && is_before before b.ts

-- A row of one of the five history tables belongs to the client.
unfoldable pub has_history : Text → Option ℕ → Db → Bool
has_history name before db =
    any (of_session name before) db.vpn_sessions
    || (any (of_relay name before) db.relay_sessions
        || (any (of_bucket name before) db.traffic_minute
            || (any (of_bucket name before) db.traffic_hour
                || any (of_bucket name before) db.traffic_day)))

-- UPDATE ... SET client_name = key of one traffic table; PostgreSQL refuses it where a row of that
-- time has the new name already, since (ts, client_name) is the primary key.
unfoldable pub rename_conflicts : Text → Text → Option ℕ → List Bucket → Bool
rename_conflicts key name before table =
    any (λ b. of_bucket name before b && any (λ c. c.ts == b.ts && text_eq c.client_name key) table)
      table

abbrev pub rename_buckets : Text → Text → Option ℕ → List Bucket → List Bucket
rename_buckets key name before =
    update_where (of_bucket name before) (λ b. record b { client_name = key })

unfoldable pub put_archived : ArchivedClient → List ArchivedClient → List ArchivedClient
put_archived new [] = new ∷ []
put_archived new (a ∷ rows) =
    if text_eq a.key new.key then new ∷ rows else a ∷ put_archived new rows

pub data Archived : Type 0 where
  nothing_to_archive : Archived
  archived_as : Text → Archived
  unique_violation : Archived

abbrev pub archive_key : Text → ℕ → Text
archive_key name now = name ++ b'#' ∷ str_of now

-- The UPDATEs of the five tables and the row for the archive.
unfoldable pub move_history : Text → ℕ → Text → Option ℕ → Db → Db
move_history key now name before db = record db {
  vpn_sessions =
      update_where (of_session name before) (λ s. record s { client_name = key }) db.vpn_sessions;
  relay_sessions =
      update_where (of_relay name before) (λ r. record r { client_name = key }) db.relay_sessions;
  traffic_minute = rename_buckets key name before db.traffic_minute;
  traffic_hour = rename_buckets key name before db.traffic_hour;
  traffic_day = rename_buckets key name before db.traffic_day;
  archived_clients =
      put_archived (record { key = key; name = name; archived_at = now }) db.archived_clients;
}

-- The transaction is rolled back on a violation.
unfoldable pub archive_client_history : ℕ → Text → Option ℕ → Db → Archived × Db
archive_client_history now name before db =
    let key = archive_key name now in
    if not (has_history name before db)
    then (nothing_to_archive, db)
    else if rename_conflicts key name before db.traffic_minute
        || (rename_conflicts key name before db.traffic_hour
            || rename_conflicts key name before db.traffic_day)
    then (unique_violation, db)
    else (archived_as key, move_history key now name before db)

abbrev named : Text → Option Text → Bool
named name none = false
named name (some n) = text_eq n name

unfoldable pub purge_client : Text → Db → Db
purge_client name db = record db {
  vpn_sessions = delete_where (λ s. text_eq s.client_name name) db.vpn_sessions;
  relay_sessions = delete_where (λ r. text_eq r.client_name name) db.relay_sessions;
  traffic_minute = delete_where (λ b. text_eq b.client_name name) db.traffic_minute;
  traffic_hour = delete_where (λ b. text_eq b.client_name name) db.traffic_hour;
  traffic_day = delete_where (λ b. text_eq b.client_name name) db.traffic_day;
  events = delete_where (λ e. named name e.client_name) db.events;
}
