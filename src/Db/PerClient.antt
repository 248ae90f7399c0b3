-- ===== src/Db/PerClient.antt =====
-- ui/app/db.py: what the reports say of each client, and which sessions have a visit.
use openvpn_server.Base.{
  ℕ, ◌≡◌, refl, sym, ap, ◌∙◌, subst, Bool, true, false, Bool-cases, inl, inr, ◌⊎◌, some, is_some,
  is_none, List, [], ◌∷◌, map, Text, text_eq, text_eq_iff, nonempty, if◌then◌else◌, ◌==◌,
  update_where, Member, Member-select_of, Member-order_by_of, arith,
}
use openvpn_server.Db.Schema.{Bucket, VpnSession, Db}
use openvpn_server.Db.Traffic.{traffic_union, sum_in, sum_out, where_client, totals}
use openvpn_server.Db.Grouping.{group_by, group_at, group_at-group_by}
use openvpn_server.Db.Reports.{
  client_of, client_sums, totals_by_client, has_id, Last, last_for, row_last, set_grp, assign,
  ungrouped, oldest_first, group_sessions,
}

-- `d.get(name, (0, 0))`
abbrev pub traffic_at : Text → List (Text × ℕ × ℕ) → ℕ × ℕ
traffic_at name [] = (0, 0)
traffic_at name ((k, i, o) ∷ rest) = if text_eq k name then (i, o) else traffic_at name rest

traffic_at-map :
    (name : Text) (groups : List (Text × List Bucket))
    → traffic_at name (map client_sums groups) ≡ (
      sum_in (group_at text_eq client_of name groups),
      sum_out (group_at text_eq client_of name groups),
    )
unfolding group_at sum_in sum_out
traffic_at-map name [] = refl
traffic_at-map name ((k, rows) ∷ groups) = elim (Bool-cases (text_eq k name)) [
  | inl here ↦ rw here refl
  | inr later ↦ rw later (traffic_at-map name groups)
]

-- The table of all clients' traffic has the totals of each client, and nothing of a client without
-- traffic.
pub totals_by_client-totals :
    (start end : ℕ) (name : Text) (db : Db)
    → nonempty name ≡ true
    → traffic_at name (totals_by_client start end db) ≡ totals start end (some name) db
unfolding totals_by_client totals where_client
totals_by_client-totals start end name db h =
    let rows = traffic_union start end db in
    rw h (
      traffic_at-map name (group_by text_eq client_of rows)
      ∙ ap (λ bs. (sum_in bs, sum_out bs))
          (group_at-group_by text_eq client_of text_eq_iff name rows))

-- A row has a group, or is still to be given one.
abbrev IsGrouping : List VpnSession → VpnSession → Type 0
IsGrouping rows s = (is_some s.grp ≡ true) ⊎ ((r : VpnSession) × Member r rows × (r.id ≡ s.id))

update_where-Member :
    (test : VpnSession → Bool) (set : VpnSession → VpnSession) (x : VpnSession)
    (xs : List VpnSession)
    → Member x (update_where test set xs)
    → (y : VpnSession) × Member y xs × (x ≡ (if test y then set y else y))
unfolding update_where
update_where-Member test set x [] m = elim m [ ]
update_where-Member test set x (y ∷ ys) (inl e) = (y, inl refl, e)
update_where-Member test set x (y ∷ ys) (inr m) =
    let (z, found, e) = update_where-Member test set x ys m in (z, inr found, e)

apart : (a b : ℕ) → (b == a) ≡ false → ¬ (a ≡ b)
apart a b h e = ground arith

given_one :
    (r : VpnSession) (rows : List VpnSession) (g : ℕ) (y : VpnSession)
    → IsGrouping (r ∷ rows) y
    → IsGrouping rows (if has_id r.id y then set_grp g r y else y)
given_one r rows g y h = elim (Bool-cases (has_id r.id y)) [
  | inl given ↦ rw given (inl refl)
  | inr other ↦ rw other (elim h [
    | inl grouped ↦ inl grouped
    | inr (s, inl e, same) ↦
        absurd (apart r.id y.id other (ap (λ (v : VpnSession). v.id) (sym e) ∙ same))
    | inr (s, inr m, same) ↦ inr (s, m, same)
  ])
]

assign-grouped :
    (rows : List VpnSession) (last : List Last) (table : List VpnSession)
    → ((s : VpnSession) → Member s table → IsGrouping rows s)
    → (s : VpnSession) → Member s (assign rows last table)
    → is_some s.grp ≡ true
unfolding assign
assign-grouped [] last table h s m = elim (h s m) [
  | inl grouped ↦ grouped
  | inr (r, found, e) ↦ elim found [ ]
]
assign-grouped (r ∷ rows) last table h s m =
    assign-grouped rows (last_for r (row_last r last) ∷ last) _
      (λ x n.
        let (y, found, e) = update_where-Member (has_id r.id) _ x table n in
        subst (IsGrouping rows) (sym e) (given_one r rows _ y (h y found)))
      s m

listed : (db : Db) (x : VpnSession) → Member x db.vpn_sessions → IsGrouping (ungrouped db) x
listed db x m = elim (Bool-cases (is_none x.grp)) [
  | inl none_yet ↦ inr (
    x,
    Member-order_by_of oldest_first x _
        (Member-select_of (λ (s : VpnSession). is_none s.grp) x db.vpn_sessions m none_yet),
    refl,
  )
  | inr has ↦ inl (ground (arith, has))
]

-- After group_sessions every session belongs to a visit.
pub group_sessions-grouped :
    (db : Db) (s : VpnSession) → Member s (group_sessions db).1.vpn_sessions → is_some s.grp ≡ true
unfolding group_sessions
group_sessions-grouped db s m =
    assign-grouped (ungrouped db) [] db.vpn_sessions (λ x n. listed db x n) s m
