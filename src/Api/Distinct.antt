-- ===== src/Api/Distinct.antt =====
-- ui/app/main.py: the table of the accounts, its unique columns and the account of a client.
use openvpn_server.Base.{
  ℕ, ◌≡◌, ◌<◌, inl, inr, refl, sym, ap, ◌∙◌, Bool, true, false, ◌||◌, Option, none, some, List, [],
  ◌∷◌, ◌++◌, arith, Text, text_eq, text_eq_iff, text_eq_sound, if◌then◌else◌, Member, Member-snoc,
  Bool-cases, update_where, subst, some_eq, ◌==◌, ==_iff,
}
use openvpn_server.Db.Schema.{User, WebSession, Db}
use openvpn_server.Api.Login.{find_username}
use openvpn_server.Api.Accounts.{is_client_name, is_account_of, find_account, is_taken}

-- The UNIQUE columns of `users`.
abbrev pub have_same_client : Option Text → User → Bool
have_same_client none v = false
have_same_client (some name) v = is_account_of name v

abbrev pub clash : User → User → Bool
clash u v = u.id == v.id || (text_eq u.username v.username || have_same_client u.client_name v)

abbrev pub IsDistinct : List User → Type 0
IsDistinct [] = Unit
IsDistinct (u ∷ users) = ((v : User) → Member v users → clash u v ≡ false) × IsDistinct users

abbrev pub IsAccounts : Db → Type 0
IsAccounts db =
    IsDistinct db.users
    × ((u : User) → Member u db.users → u.id < db.next_user)
    × ((s : WebSession) → Member s db.web_sessions → s.user_id < db.next_user)

is_client_name_sound :
    (name : Text) (o : Option Text) → is_client_name name o ≡ true → o ≡ some name
is_client_name_sound name none h = absurd (ground arith)
is_client_name_sound name (some n) h = ap some (text_eq_sound n name h)

clash_client :
    (name : Text) (u v : User)
    → is_account_of name u ≡ true
    → is_account_of name v ≡ true
    → clash u v ≡ true
clash_client name u v a b = rw (is_client_name_sound name u.client_name a, b) (ground arith)

clash_username :
    (username : Text) (u v : User)
    → text_eq u.username username ≡ true
    → text_eq v.username username ≡ true
    → clash u v ≡ true
clash_username username u v a b = ground (
  arith,
  text_eq_iff u.username v.username,
  text_eq_sound u.username username a,
  text_eq_sound v.username username b,
)

pub clash_none :
    (name : Text) (o : Option Text) (r : User)
    → r.client_name ≡ some name
    → is_client_name name o ≡ false
    → have_same_client o r ≡ false
clash_none name none r e h = refl
clash_none name (some n) r e h = rw e (ground (arith, text_eq_iff n name, text_eq_iff name n))

-- Whoever has the user name that is asked for is the client's own account.
pub untaken :
    (name username : Text) (users : List User)
    → IsDistinct users
    → is_taken name (find_username username users) ≡ false
    → (v : User) → Member v users
    → text_eq v.username username ≡ true
    → is_account_of name v ≡ true
unfolding find_username
untaken name username [] d h v m e = elim m [ ]
untaken name username (x ∷ xs) (d, ds) h v m e = elim (Bool-cases (text_eq x.username username)) [
  | inr other ↦ elim m [
    | inl is ↦ absurd (ground (arith, ap (λ u. text_eq u.username username) is))
    | inr later ↦ untaken name username xs ds (rw other at h) v later e
  ]
  | inl same ↦ elim m [
    | inl is ↦ subst (λ u. is_account_of name u ≡ true) (sym is) (ground (arith, rw same at h))
    | inr later ↦ absurd (ground (arith, d v later, clash_username username x v same e))
  ]
]

pub ==_refl : (n : ℕ) → (n == n) ≡ true
==_refl n = (==_iff n n).1 refl

-- Exactly the account of the client has its id.
abbrev pub OnlyOne : Text → User → User → Type 0
OnlyOne name row v = (v.id == row.id) ≡ is_account_of name v

account_first :
    (name : Text) (x v : User) (xs : List User)
    → is_account_of name x ≡ true
    → ((v : User) → Member v xs → clash x v ≡ false)
    → Member v (x ∷ xs)
    → OnlyOne name x v
account_first name x v xs own d m = elim m [
  | inl is ↦ subst (OnlyOne name x) (sym is) (==_refl x.id ∙ sym own)
  | inr later ↦ elim (Bool-cases (is_account_of name v)) [
    | inl two ↦ absurd (ground (arith, d v later, clash_client name x v own two))
    | inr other ↦ ground (arith, d v later, ==_iff v.id x.id, ==_iff x.id v.id)
  ]
]

pub find_account_sound :
    (name : Text) (users : List User) (row : User)
    → IsDistinct users
    → find_account name users ≡ some row
    → Member row users
      × (is_account_of name row ≡ true)
      × ((v : User) → Member v users → OnlyOne name row v)
unfolding find_account
find_account_sound name [] row d h = absurd (ground arith)
find_account_sound name (x ∷ xs) row (d, ds) h = elim (Bool-cases (is_account_of name x)) [
  | inl own ↦
      subst
        (λ (r : User).
          Member r (x ∷ xs)
          × (is_account_of name r ≡ true)
          × ((v : User) → Member v (x ∷ xs) → OnlyOne name r v))
        (some_eq (rw own at h)) (inl refl, own, λ v m. account_first name x v xs own d m)
  | inr other ↦
      let (m, own, only) = find_account_sound name xs row ds (rw other at h) in
      (
        inr m,
        own,
        λ v n. elim n [
          | inl is ↦
              subst (OnlyOne name row) (sym is) (ground (arith, other, d row m, ==_iff x.id row.id))
          | inr later ↦ only v later
        ],
      )
]

pub find_account-none :
    (name : Text) (users : List User) (v : User)
    → find_account name users ≡ none
    → Member v users
    → is_account_of name v ≡ false
unfolding find_account
find_account-none name [] v h m = elim m [ ]
find_account-none name (x ∷ xs) v h m = elim (Bool-cases (is_account_of name x)) [
  | inl own ↦ absurd (ground arith)
  | inr other ↦ elim m [
    | inl is ↦ ap (is_account_of name) is ∙ other
    | inr later ↦ find_account-none name xs v (rw other at h) later
  ]
]

module _ (name username hash serial : Text) (row : User) where
  -- The row after `put_account`.
  abbrev pub renamed : User → User
  renamed u = record u { username = username; password_hash = hash; client_serial = some serial }

  abbrev pub put_row : User → User
  put_row u = if u.id == row.id then renamed u else u

  -- What is known of each row before it.
  abbrev pub IsReady : User → Type 0
  IsReady v =
      OnlyOne name row v × (text_eq v.username username ≡ true → is_account_of name v ≡ true)

  clash-put_row :
      (u v : User)
      → IsReady u
      → IsReady v
      → clash u v ≡ false
      → clash (put_row u) (put_row v) ≡ false
  clash-put_row u v (a, f) (b, g) c = elim (Bool-cases (u.id == row.id)) [
    | inl own ↦ elim (Bool-cases (v.id == row.id)) [
      | inl two ↦ absurd (ground (arith, clash_client name u v))
      | inr other ↦
          rw (own, other)
            (ground (arith, text_eq_iff v.username username, text_eq_iff username v.username))
    ]
    | inr other ↦ elim (Bool-cases (v.id == row.id)) [
      | inl own ↦
          rw (own, other)
            (ground (arith, text_eq_iff u.username username, text_eq_iff username u.username))
      | inr too ↦ rw (too, other) c
    ]
  ]

  pub Member-put_row :
      (v : User) (users : List User)
      → Member v (update_where (λ u. u.id == row.id) renamed users)
      → (u : User) × Member u users × (v ≡ put_row u)
  unfolding update_where
  Member-put_row v [] m = elim m [ ]
  Member-put_row v (x ∷ xs) m = elim m [
    | inl is ↦ (x, inl refl, is)
    | inr later ↦ let (u, n, e) = Member-put_row v xs later in (u, inr n, e)
  ]

  pub IsDistinct-put :
      (users : List User)
      → ((v : User) → Member v users → IsReady v)
      → IsDistinct users
      → IsDistinct (update_where (λ u. u.id == row.id) renamed users)
  unfolding update_where
  IsDistinct-put [] ready d = d
  IsDistinct-put (x ∷ xs) ready (d, ds) = (
    λ v m.
        let (u, n, e) = Member-put_row v xs m in
        subst (λ (w : User). clash (put_row x) w ≡ false) (sym e)
          (clash-put_row x u (ready x (inl refl)) (ready u (inr n)) (d u n)),
    IsDistinct-put xs (λ v m. ready v (inr m)) ds,
  )

pub IsDistinct-append :
    (users : List User) (r : User)
    → IsDistinct users
    → ((v : User) → Member v users → clash v r ≡ false)
    → IsDistinct (users ++ r ∷ [])
IsDistinct-append [] r d h = ((λ v m. elim m [ ]), tt)
IsDistinct-append (x ∷ xs) r (d, ds) h = (
  λ v m. elim (Member-snoc v r xs m) [
    | inl n ↦ d v n
    | inr is ↦ subst (λ (w : User). clash x w ≡ false) (sym is) (h x (inl refl))
  ],
  IsDistinct-append xs r ds (λ v m. h v (inr m)),
)
