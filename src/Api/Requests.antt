-- ===== src/Api/Requests.antt =====
-- ui/app/main.py: requests, answers, and who a request comes from. A handler's answer stands beside
-- the database that it leaves; what it wrote before it fails is kept.
use openvpn_server.Base.{
  ◌≡◌, refl, ◌⊎◌, inl, inr, ℕ, Bool, true, false, not, ◌&&◌, Option, none, some, [], Text, codes,
  text_eq, nonempty, if◌then◌else◌, coalesce,
}
use openvpn_server.Db.Schema.{Db}
use openvpn_server.Auth.WebSessions.{SessionUser, get_session_user, delete_session}
use openvpn_server.Auth.Passwords.{Crypto}
use openvpn_server.Relay.Authorize.{World, Cert, Outcome, returned, unavailable, refused, eligible}

-- The value that a handler returns, or the status of the error that it answers.
pub data Answer {ℓ} (A : Type ℓ) : Type ℓ where
  ok : A → Answer A
  failed : ℕ → Answer A

pub record Request : Type 0 where
  pub ip : Text
  pub cookie : Option Text
  -- x-openvpn-portal-only
  pub portal_header : Option Text
  -- x-requested-with
  pub requested_with : Option Text
  pub origin : Option Text
  pub host : Text
  pub user_agent : Option Text

-- What the handlers call outside of the repository: the hash of a token, the password functions,
-- `str.lower`, and `urlsplit(...).netloc`.
pub record Env : Type 0 where
  pub crypto : Crypto
  pub token_hash : Text → Text
  pub lowercase : Text → Text
  pub netloc : Text → Text
  pub session_ttl : ℕ

abbrev pub portal_only : Request → Bool
portal_only r = text_eq (coalesce r.portal_header []) (codes "1")

-- `not cert or cert["serial"] != serial`
abbrev pub is_own_cert : Option Cert → Option Text → Bool
is_own_cert (some cert) (some serial) = text_eq cert.serial serial
is_own_cert _ _ = false

-- A client's certificate decides whether its session still counts; else the session is deleted.
unfoldable pub check_client :
    Env → Option Text → SessionUser → Db → Outcome (Option Cert) → Answer SessionUser × Db
check_client env cookie user db unavailable = (failed 500, db)
check_client env cookie user db refused = (failed 400, db)
check_client env cookie user db (returned cert) =
    if is_own_cert cert user.client_serial
    then (ok user, db)
    else (failed 401, delete_session env.token_hash db cookie)

-- The role is the account's: an administrator's has no client name.
unfoldable pub check_role :
    Env → World → Request → SessionUser → Db → Option Text → Answer SessionUser × Db
check_role env w r user db none = if portal_only r then (failed 401, db) else (ok user, db)
check_role env w r user db (some name) = check_client env r.cookie user db (eligible w name)

unfoldable pub check_user :
    Env → World → Request → Option SessionUser → Db → Answer SessionUser × Db
check_user env w r none db = (failed 401, db)
check_user env w r (some user) db = check_role env w r user db user.client_name

unfoldable pub signed_in_user : Env → World → Request → ℕ → Db → Answer SessionUser × Db
signed_in_user env w r now db =
    let (user, db') = get_session_user env.token_hash db r.cookie env.session_ttl true now in
    check_user env w r user db'

unfoldable pub check_admin : Answer SessionUser × Db → Answer SessionUser × Db
check_admin (failed status, db) = (failed status, db)
check_admin (ok user, db) = elim user.client_name [
  | none ↦ (ok user, db)
  | some name ↦ (failed 403, db)
]

unfoldable pub current_user : Env → World → Request → ℕ → Db → Answer SessionUser × Db
current_user env w r now db = check_admin (signed_in_user env w r now db)

-- The handler is called if `none`.
unfoldable pub csrf_check : Env → Request → Option ℕ
csrf_check env r =
    if not (text_eq (coalesce r.requested_with []) (codes "fetch"))
    then some 403
    else (let origin = coalesce r.origin [] in
        if nonempty origin
          && (not (text_eq origin (codes "null"))
              && not (text_eq (env.lowercase (env.netloc origin)) (env.lowercase r.host)))
        then some 403
        else none)

pub Answer-cases {ℓ} :
    {A : Type ℓ} (a : Answer A) → ((status : ℕ) × (a ≡ failed status)) ⊎ ((x : A) × (a ≡ ok x))
Answer-cases (failed status) = inl (status, refl)
Answer-cases (ok x) = inr (x, refl)

pub ok_eq {ℓ} : {A : Type ℓ} {x y : A} → ok x ≡ ok y → x ≡ y
ok_eq h = cc
