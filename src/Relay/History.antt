-- ===== src/Relay/History.antt =====
-- ui/app/relay_history.py: relay sessions and their visits.
use openvpn_server.Base.{
  ℕ, ◌+◌, ◌-◌, ◌*◌, ◌≤◌, ◌≡◌, ◌⊎◌, inl, inr, refl, subst, max, Bool, true, not, ◌&&◌, ◌||◌, Option,
  none, some, List, [], ◌∷◌, ◌++◌, arith, Text, text_eq, text_eq_iff, nonempty, if◌then◌else◌, leb,
  ltb, select, delete_where, update_where, order_by, head?, starts_with, Member, Bool-cases,
  Option-cases, IsOrder, head-order_by,
}
use openvpn_server.Db.Schema.{Db, RelaySession}

abbrev pub idle_seconds : ℕ
idle_seconds = 300

abbrev pub poll_seconds : ℕ
poll_seconds = 5

abbrev pub retention : ℕ
retention = 365 * 86400

-- A session in a snapshot of the relay.
pub record Snapshot : Type 0 where
  pub id : Text
  pub client : Text
  pub credential_id : Text
  pub transport : Text
  pub started_at : ℕ
  pub last_seen : ℕ
  pub active : ℕ
  pub accepted : ℕ
  pub denied : ℕ
  pub failed : ℕ
  pub bytes_up : ℕ
  pub bytes_down : ℕ
  pub uncounted_flows : ℕ

pub record RelayStatus : Type 0 where
  pub ready : Bool
  pub instance_id : Text
  pub sessions : List Snapshot

unfoldable pub find_relay : Text → List RelaySession → Option RelaySession
find_relay id [] = none
find_relay id (r ∷ rows) = if text_eq r.id id then some r else find_relay id rows

abbrev pub latest_seen : RelaySession → RelaySession → Bool
latest_seen a b = leb b.last_seen a.last_seen

-- The session that a new one continues: same client and credential, seen within the idle time.
abbrev pub continues : Snapshot → RelaySession → Bool
continues s r =
    text_eq r.client_name s.client
    && (text_eq r.credential_id s.credential_id
        && (leb (s.started_at - idle_seconds) r.last_seen && leb r.started_at s.started_at))

abbrev pub previous : Snapshot → List RelaySession → Option RelaySession
previous s rows = head? (order_by latest_seen (select (continues s) rows))

-- (existing or previous or {}).get('grp', row['id'])
abbrev pub group_of : Snapshot → Option RelaySession → Option RelaySession → Text
group_of s (some existing) prev = existing.grp
group_of s none (some prev) = prev.grp
group_of s none none = s.id

abbrev pub fresh_row : ℕ → Text → Snapshot → RelaySession
fresh_row now grp s = record {
  id = s.id;
  grp = grp;
  client_name = s.client;
  credential_id = s.credential_id;
  transport = s.transport;
  started_at = s.started_at;
  last_seen = s.last_seen;
  sampled_at = now;
  active = s.active;
  accepted = s.accepted;
  denied = s.denied;
  failed = s.failed;
  bytes_up = s.bytes_up;
  bytes_down = s.bytes_down;
  uncounted = s.uncounted_flows;
}

-- ON CONFLICT (id) DO UPDATE: counters never go back.
abbrev pub merged : ℕ → Snapshot → RelaySession → RelaySession
merged now s r = record r {
  last_seen = max r.last_seen s.last_seen;
  sampled_at = now;
  active = s.active;
  accepted = max r.accepted s.accepted;
  denied = max r.denied s.denied;
  failed = max r.failed s.failed;
  bytes_up = max r.bytes_up s.bytes_up;
  bytes_down = max r.bytes_down s.bytes_down;
  uncounted = max r.uncounted s.uncounted_flows;
}

unfoldable pub put_relay : ℕ → Text → Snapshot → List RelaySession → List RelaySession
put_relay now grp s [] = fresh_row now grp s ∷ []
put_relay now grp s (r ∷ rows) =
    if text_eq r.id s.id then merged now s r ∷ rows else r ∷ put_relay now grp s rows

unfoldable pub record_row : ℕ → Snapshot → List RelaySession → List RelaySession
record_row now s rows =
    if not (nonempty s.client) || not (nonempty s.credential_id)
    then rows
    else put_relay now (group_of s (find_relay s.id rows) (previous s rows)) s rows

unfoldable pub record_rows : ℕ → List Snapshot → List RelaySession → List RelaySession
record_rows now [] rows = rows
record_rows now (s ∷ ss) rows = record_rows now ss (record_row now s rows)

-- UPDATE ... SET active = 0 WHERE active > 0 AND id NOT LIKE '<instance>:%'. The instance is the
-- relay's random id, without the wildcards of LIKE.
abbrev pub of_other_instance : Text → RelaySession → Bool
of_other_instance instance_id r =
    ltb 0 r.active && not (starts_with r.id (instance_id ++ b':' ∷ []))

abbrev pub stop_others : Text → List RelaySession → List RelaySession
stop_others [] rows = rows
stop_others (c ∷ instance_id) rows =
    update_where (of_other_instance (c ∷ instance_id)) (λ r. record r { active = 0 }) rows

unfoldable pub record_status : ℕ → RelayStatus → Db → Db
record_status now status db = if not status.ready then db else record db {
  relay_sessions =
      delete_where (λ r. ltb r.last_seen (now - retention))
        (record_rows now status.sessions (stop_others status.instance_id db.relay_sessions));
}

-- The state that `sessions` shows of a visit.
pub data VisitState : Type 0 where
  active idle ended : VisitState

unfoldable pub visit_state : ℕ → ℕ → ℕ → VisitState
visit_state now active_flows last_seen =
    if ltb 0 active_flows
    then active
    else if leb (now - last_seen) idle_seconds
    then idle
    else ended

-- SUM(CASE WHEN sampled_at >= now - 15 THEN active ELSE 0 END)
unfoldable pub active_flows : ℕ → List RelaySession → ℕ
active_flows now [] = 0
active_flows now (r ∷ rows) =
    (if leb (now - 3 * poll_seconds) r.sampled_at then r.active else 0) + active_flows now rows

find_relay-put_relay :
    (now : ℕ) (grp id : Text) (s : Snapshot) (rows : List RelaySession)
    → find_relay id (put_relay now grp s rows) ≡ (
        if text_eq s.id id
        then (elim (find_relay s.id rows) [
          | none ↦ some (fresh_row now grp s)
          | some r ↦ some (merged now s r)
        ])
        else find_relay id rows)
unfolding find_relay put_relay
find_relay-put_relay now grp id s [] = ground (arith, text_eq_iff s.id id)
find_relay-put_relay now grp id s (r ∷ rows) = ground (
  arith,
  text_eq_iff s.id id,
  text_eq_iff r.id s.id,
  text_eq_iff r.id id,
  find_relay-put_relay now grp id s rows,
)

-- The counts of a stored session that a later snapshot may only raise, and what it never changes.
abbrev pub Continues : RelaySession → RelaySession → Type 0
Continues r r' =
    (r'.grp ≡ r.grp)
    × (r'.client_name ≡ r.client_name)
    × (r'.credential_id ≡ r.credential_id)
    × (r'.started_at ≡ r.started_at)
    × (r.last_seen ≤ r'.last_seen)
    × (r.accepted ≤ r'.accepted)
    × (r.denied ≤ r'.denied)
    × (r.failed ≤ r'.failed)
    × (r.bytes_up ≤ r'.bytes_up)
    × (r.bytes_down ≤ r'.bytes_down)
    × (r.uncounted ≤ r'.uncounted)

Continues-refl : (r : RelaySession) → Continues r r
Continues-refl r = (
  refl,
  refl,
  refl,
  refl,
  omega arith,
  omega arith,
  omega arith,
  omega arith,
  omega arith,
  omega arith,
  omega arith,
)

Continues-trans : (a b c : RelaySession) → Continues a b → Continues b c → Continues a c
Continues-trans a b c h k = ground (arith, h, k)

Continues-merged : (now : ℕ) (s : Snapshot) (r : RelaySession) → Continues r (merged now s r)
Continues-merged now s r = (
  refl,
  refl,
  refl,
  refl,
  omega arith,
  omega arith,
  omega arith,
  omega arith,
  omega arith,
  omega arith,
  omega arith,
)

put_relay-Continues :
    (now : ℕ) (grp id : Text) (s : Snapshot) (rows : List RelaySession) (r : RelaySession)
    → find_relay id rows ≡ some r
    → (r' : RelaySession) × (find_relay id (put_relay now grp s rows) ≡ some r') × Continues r r'
unfolding find_relay put_relay
put_relay-Continues now grp id s [] r h = absurd (ground arith)
put_relay-Continues now grp id s (x ∷ rows) r h = elim (Bool-cases (text_eq x.id id)) [
  | inl same ↦
      let e : x ≡ r = ground arith in
      (elim (Bool-cases (text_eq x.id s.id)) [
        | inl hit ↦ rw hit (
          merged now s x,
          ground arith,
          subst (λ y. Continues y (merged now s x)) e (Continues-merged now s x),
        )
        | inr miss ↦ rw miss (x, ground arith, subst (λ y. Continues y x) e (Continues-refl x))
      ])
  | inr other ↦ (elim (Bool-cases (text_eq x.id s.id)) [
    | inl hit ↦ rw hit (r, ground arith, Continues-refl r)
    | inr miss ↦
        let (r', found, c) = put_relay-Continues now grp id s rows r (ground arith) in
        rw miss (r', ground arith, c)
  ])
]

record_row-Continues :
    (now : ℕ) (id : Text) (s : Snapshot) (rows : List RelaySession) (r : RelaySession)
    → find_relay id rows ≡ some r
    → (r' : RelaySession) × (find_relay id (record_row now s rows) ≡ some r') × Continues r r'
unfolding record_row
record_row-Continues now id s rows r h =
    elim (Bool-cases (not (nonempty s.client) || not (nonempty s.credential_id))) [
      | inl skip ↦ rw skip (r, h, Continues-refl r)
      | inr use_it ↦ rw use_it (put_relay-Continues now _ id s rows r h)
    ]

-- Whatever snapshots are recorded, a stored relay session keeps its visit, client, credential and
-- start, and its time and counters never go back.
pub record_rows-Continues :
    (now : ℕ) (id : Text) (ss : List Snapshot) (rows : List RelaySession) (r : RelaySession)
    → find_relay id rows ≡ some r
    → (r' : RelaySession) × (find_relay id (record_rows now ss rows) ≡ some r') × Continues r r'
unfolding record_rows
record_rows-Continues now id [] rows r h = (r, h, Continues-refl r)
record_rows-Continues now id (s ∷ ss) rows r h =
    let (a, found, c) = record_row-Continues now id s rows r h in
    let (b, found', d) = record_rows-Continues now id ss (record_row now s rows) a found in
    (b, found', Continues-trans r a b c d)

latest_seen-IsOrder : IsOrder latest_seen
latest_seen-IsOrder = record { total = λ a b h. ground arith; trans = λ a b c h k. ground arith }

continues-fields :
    (s : Snapshot) (r : RelaySession)
    → continues s r ≡ true
    → (r.client_name ≡ s.client)
      × (r.credential_id ≡ s.credential_id)
      × (s.started_at ≤ r.last_seen + idle_seconds)
      × (r.started_at ≤ s.started_at)
continues-fields s r h =
    ground (arith, text_eq_iff r.client_name s.client, text_eq_iff r.credential_id s.credential_id)

-- A session that is new to the store joins the visit of a stored session only if that one is of the
-- same client and credential, started no later and was seen at most 300 seconds before the new one
-- started; no other such session was seen later. Else it starts a visit of its own.
group_of-visit :
    (s : Snapshot) (rows : List RelaySession)
    → (group_of s none (previous s rows) ≡ s.id)
      ⊎ ((r : RelaySession) × Member r rows
          × (group_of s none (previous s rows) ≡ r.grp)
          × (r.client_name ≡ s.client)
          × (r.credential_id ≡ s.credential_id)
          × (s.started_at ≤ r.last_seen + idle_seconds)
          × (r.started_at ≤ s.started_at)
          × ((t : RelaySession) → Member t rows → continues s t ≡ true → t.last_seen ≤ r.last_seen))
group_of-visit s rows = elim (Option-cases (previous s rows)) [
  | inl e ↦ rw e (inl refl)
  | inr (r, e) ↦
      let (found, passes, first) =
        head-order_by latest_seen latest_seen-IsOrder (continues s) r rows e in
      let (client, credential, near, before) = continues-fields s r passes in
      rw e (
        inr (
          r,
          found,
          refl,
          client,
          credential,
          near,
          before,
          λ t m c. let le = first t m c in ground arith,
        ))
]
