-- ===== src/Db/Groups.antt =====
-- ui/app/db.py: `insert_session` and `close_stale_sessions` keep the sessions table well formed.
use openvpn_server.Base.{
  ℕ, ◌+◌, ◌≡◌, ◌<◌, inl, inr, refl, sym, ap, ◌∙◌, Bool, true, Option, none, some, List, [], ◌∷◌,
  ◌++◌, arith, Text, if◌then◌else◌, ◌==◌, update_where, coalesce, Member, Member-snoc,
  Member-append_left, Member-snoc_self, Bool-cases, Option-cases,
}
use openvpn_server.Db.Schema.{VpnSession, Db}
use openvpn_server.Db.Address.{real_ip}
use openvpn_server.Db.Sessions.{
  is_open, close_stale_sessions, session_group, Fields, new_session, set_session, insert_session,
}
use openvpn_server.Db.Visits.{session_group_sound}

-- `root` is the first session of the visit that `s` belongs to.
abbrev pub IsRoot : VpnSession → VpnSession → Type 0
IsRoot s root =
    (s.grp ≡ some root.id)
    × (root.client_name ≡ s.client_name)
    × (real_ip root.real_address ≡ real_ip s.real_address)

-- Ids come from the identity column and are not used twice, and every session belongs to a visit,
-- whose first session is one of the same client from the same IP address.
pub record IsGrouped (db : Db) : Type 0 where
  pub below : (s : VpnSession) → Member s db.vpn_sessions → s.id < db.next_session
  pub visit :
      (s : VpnSession)
      → Member s db.vpn_sessions
      → (root : VpnSession) × Member root db.vpn_sessions × IsRoot s root

-- An update by id reaches the last row alone if the others have smaller ids.
update_where-snoc :
    (id : ℕ) (set : VpnSession → VpnSession) (t : VpnSession) (xs : List VpnSession)
    → t.id ≡ id
    → ((s : VpnSession) → Member s xs → s.id < id)
    → update_where (λ s. s.id == id) set (xs ++ t ∷ []) ≡ xs ++ set t ∷ []
unfolding update_where
update_where-snoc id set t [] e h = ground arith
update_where-snoc id set t (x ∷ xs) e h =
    ground (arith, h x (inl refl), update_where-snoc id set t xs e (λ s m. h s (inr m)))

-- Where all ids are below the next one, `insert_session` adds one row at the end, with the next id;
-- its visit is the one that it continues, or else its own.
insert_session_lem :
    (db : Db) (name address : Text) (at : ℕ) (fields : Fields)
    → ((s : VpnSession) → Member s db.vpn_sessions → s.id < db.next_session)
    → insert_session db name address at fields ≡ (
      db.next_session,
      record db {
        vpn_sessions =
            db.vpn_sessions
            ++ new_session db.next_session name address at fields
                (some (coalesce (session_group db name address at) db.next_session))
              ∷ [];
        next_session = db.next_session + 1;
      },
    )
unfolding insert_session set_session
insert_session_lem db name address at fields below =
    elim (Option-cases (session_group db name address at)) [
      | inl fresh ↦ rw fresh (
          ground (
            arith,
            update_where-snoc db.next_session (λ s. record s { grp = some db.next_session })
                (new_session db.next_session name address at fields none) db.vpn_sessions refl
                below,
          ))
      | inr (g, old) ↦ rw old
    ]

-- The visit of the row that `insert_session` adds.
IsRoot-of_new :
    (db : Db) (name address : Text) (at : ℕ) (new : VpnSession)
    → IsGrouped db
    → new.grp ≡ some (coalesce (session_group db name address at) db.next_session)
    → new.id ≡ db.next_session
    → new.client_name ≡ name
    → new.real_address ≡ some address
    → (root : VpnSession) × Member root (db.vpn_sessions ++ new ∷ []) × IsRoot new root
IsRoot-of_new db name address at new valid e i n a =
    elim (Option-cases (session_group db name address at)) [
      | inl fresh ↦ (
        new,
        Member-snoc_self new db.vpn_sessions,
        (e ∙ ap some (ap (λ o. coalesce o db.next_session) fresh ∙ sym i), refl, refl),
      )
      | inr (g, old) ↦
          let (s, found, client, ip, grp, gap) = session_group_sound db name address at g old in
          let (root, m, r) = valid.visit s found in
          (
            root,
            Member-append_left root db.vpn_sessions (new ∷ []) m,
            (
              e ∙ ap some (ap (λ o. coalesce o db.next_session) old) ∙ sym grp ∙ r.0,
              r.1 ∙ client ∙ sym n,
              r.2 ∙ ip ∙ sym (ap real_ip a),
            ),
          )
    ]

-- `insert_session` keeps the table well formed.
pub insert_session-IsGrouped :
    (db : Db) (name address : Text) (at : ℕ) (fields : Fields)
    → IsGrouped db
    → IsGrouped (insert_session db name address at fields).1
insert_session-IsGrouped db name address at fields valid =
    let new =
      new_session db.next_session name address at fields
        (some (coalesce (session_group db name address at) db.next_session)) in
    let rows = db.vpn_sessions ++ new ∷ [] in
    rw (insert_session_lem db name address at fields valid.below) (record {
      below = λ s m. elim (Member-snoc s new db.vpn_sessions m) [
        | inl old ↦ omega (arith, valid.below s old)
        | inr e ↦ rw e (omega arith)
      ];
      visit = λ s m. elim (Member-snoc s new db.vpn_sessions m) [
        | inl old ↦
            let (root, found, r) = valid.visit s old in
            (root, Member-append_left root db.vpn_sessions (new ∷ []) found, r)
        | inr e ↦ rw e (IsRoot-of_new db name address at new valid refl refl refl refl)
      ];
    })

-- An update that keeps the id, client, address and visit of each row that it changes.
abbrev pub KeepsVisit : (VpnSession → Bool) → (VpnSession → VpnSession) → Type 0
KeepsVisit test set =
    (s : VpnSession)
    → test s ≡ true
    → ((set s).id ≡ s.id)
      × ((set s).client_name ≡ s.client_name)
      × ((set s).real_address ≡ s.real_address)
      × ((set s).grp ≡ s.grp)

-- What `update_where` makes of one row.
abbrev updated : (VpnSession → Bool) → (VpnSession → VpnSession) → VpnSession → VpnSession
updated test set s = if test s then set s else s

Member-update_where :
    (test : VpnSession → Bool) (set : VpnSession → VpnSession) (s : VpnSession)
    (xs : List VpnSession)
    → Member s (update_where test set xs)
    → (t : VpnSession) × Member t xs × (s ≡ updated test set t)
unfolding update_where
Member-update_where test set s [] m = elim m [ ]
Member-update_where test set s (x ∷ xs) (inl e) = (x, inl refl, e)
Member-update_where test set s (x ∷ xs) (inr m) =
    let (t, found, e) = Member-update_where test set s xs m in (t, inr found, e)

Member-update_where_of :
    (test : VpnSession → Bool) (set : VpnSession → VpnSession) (t : VpnSession)
    (xs : List VpnSession)
    → Member t xs
    → Member (updated test set t) (update_where test set xs)
unfolding update_where
Member-update_where_of test set t [] m = elim m [ ]
Member-update_where_of test set t (x ∷ xs) (inl e) = inl (ap (updated test set) e)
Member-update_where_of test set t (x ∷ xs) (inr m) = inr (Member-update_where_of test set t xs m)

updated_same :
    (test : VpnSession → Bool) (set : VpnSession → VpnSession) (s : VpnSession)
    → KeepsVisit test set
    → ((updated test set s).id ≡ s.id)
      × ((updated test set s).client_name ≡ s.client_name)
      × ((updated test set s).real_address ≡ s.real_address)
      × ((updated test set s).grp ≡ s.grp)
updated_same test set s k = elim (Bool-cases (test s)) [
  | inl e ↦ rw e (k s e)
  | inr e ↦ rw e (refl, refl, refl, refl)
]

-- So does every UPDATE of `vpn_sessions` that leaves those columns alone.
pub update_where-IsGrouped :
    (test : VpnSession → Bool) (set : VpnSession → VpnSession) (db : Db)
    → KeepsVisit test set
    → IsGrouped db
    → IsGrouped (record db { vpn_sessions = update_where test set db.vpn_sessions })
update_where-IsGrouped test set db k valid = record {
  below = λ s m.
      let (t, found, e) = Member-update_where test set s db.vpn_sessions m in
      let (i, n, a, g) = updated_same test set t k in rw (e, i) (valid.below t found);
  visit = λ s m.
      let (t, found, e) = Member-update_where test set s db.vpn_sessions m in
      let (root, r, (rg, rn, ra)) = valid.visit t found in
      let (i, n, a, g) = updated_same test set t k in
      let (i', n', a', g') = updated_same test set root k in
      (
        updated test set root,
        Member-update_where_of test set root db.vpn_sessions r,
        rw e (g ∙ rg ∙ ap some (sym i'), n' ∙ rn ∙ sym n, ap real_ip a' ∙ ra ∙ ap real_ip (sym a)),
      );
}

close_stale_sessions-IsGrouped :
    (at : Option ℕ) (db : Db) → IsGrouped db → IsGrouped (close_stale_sessions at db).1
unfolding close_stale_sessions
close_stale_sessions-IsGrouped at db valid =
    update_where-IsGrouped is_open
      (λ s. record s { disconnected_at = some (coalesce at s.last_seen) }) db
      (λ s h. (refl, refl, refl, refl)) valid
