-- ===== src/Api/Links.antt =====
-- ui/app/main.py: one-time download links of profiles.
use openvpn_server.Base.{
  ℕ, ◌+◌, ◌*◌, Bool, true, false, ◌&&◌, Option, none, some, List, [], ◌∷◌, ◌++◌, Text, codes,
  text_eq, if◌then◌else◌, ltb, any, is_none, delete_where, update_where,
}
use openvpn_server.Db.Schema.{ShareToken, Db}
use openvpn_server.Db.History.{add_event}
use openvpn_server.Auth.Limiter.{attempt_key, success}
use openvpn_server.Api.Requests.{Answer, ok, failed, Request, Env}
use openvpn_server.Api.Login.{App}

-- `WHERE token_hash = ? AND used_at IS NULL`
abbrev pub is_unused : Text → ShareToken → Bool
is_unused hash t = text_eq t.token_hash hash && is_none t.used_at

abbrev pub is_usable : Text → ℕ → ShareToken → Bool
is_usable hash now t = is_unused hash t && ltb now t.expires_at

unfoldable pub find_link : Text → ℕ → List ShareToken → Option ShareToken
find_link hash now [] = none
find_link hash now (t ∷ rows) = if is_usable hash now t then some t else find_link hash now rows

abbrev pub drop_share_links : Text → Db → Db
drop_share_links name db = record db {
  share_tokens = delete_where (λ t. text_eq t.client_name name) db.share_tokens;
}

-- The INSERT of `share_profile`; `none` where the hash is taken.
unfoldable pub add_link : Text → Text → ℕ → ℕ → Text → Db → Option Db
add_link hash name now hours user db =
    if any (λ t. text_eq t.token_hash hash) db.share_tokens
    then none
    else some (record db {
      share_tokens =
          db.share_tokens
          ++ (record {
            token_hash = hash;
            client_name = name;
            created_at = now;
            expires_at = now + hours * 3600;
            used_at = none;
            created_by = some user;
          })
            ∷ [];
    })

abbrev pub share_key : Request → Text
share_key r = codes "share|" ++ r.ip

-- The client of the link that was found; `has_cert` tells whether issued/<name>.crt exists.
unfoldable pub linked_client : (Text → Bool) → Request → Option ShareToken → App → Answer Text × App
linked_client has_cert r none app = (failed 404, app)
linked_client has_cert r (some t) app =
    if has_cert t.client_name
    then (ok t.client_name, record app { limiter = success (share_key r) app.limiter })
    else (failed 404, app)

unfoldable pub shared_client :
    Env → (Text → Bool) → Request → ℕ → ℕ → Text → App → Answer Text × App
shared_client env has_cert r now clock token app =
    let (wait, limiter) = attempt_key app.limiter clock (share_key r) in
    let counted = record app { limiter = limiter } in
    if ltb 0 wait
    then (failed 429, counted)
    else linked_client has_cert r (find_link (env.token_hash token) now app.db.share_tokens) counted

-- The transaction of `shared_profile`: whether the link was spent, with the trace that it leaves.
unfoldable pub spend : Text → Text → Request → ℕ → Db → Bool × Db
spend hash name r now db =
    if any (is_unused hash) db.share_tokens
    then (
      true,
      add_event now (codes "profile_link_used") (some name) none (some r.ip) (record db {
        share_tokens =
            update_where (is_unused hash) (λ t. record t { used_at = some now }) db.share_tokens;
      }),
    )
    else (false, db)

-- The part of `shared_profile` after `build_profile`, whose text is `content`.
unfoldable pub deliver : Env → Text → Text → Text → Request → ℕ → Db → Answer Text × Db
deliver env token name content r now db =
    let (spent, db') = spend (env.token_hash token) name r now db in
    (if spent then ok content else failed 404, db')

-- `content` is what `build_profile` gives for the client; `none` is a PkiError.
unfoldable pub build_and_deliver :
    Env → (Text → Option Text) → Text → Request → ℕ → Answer Text × App → Answer Text × App
build_and_deliver env content token r now (failed status, app) = (failed status, app)
build_and_deliver env content token r now (ok name, app) = elim (content name) [
  | none ↦ (failed 400, app)
  | some text ↦
      let (answer, db) = deliver env token name text r now app.db in
      (answer, record app { db = db })
]

unfoldable pub shared_profile :
    Env → (Text → Bool) → (Text → Option Text) → Request → ℕ → ℕ → Text → App → Answer Text × App
shared_profile env has_cert content r now clock token app =
    build_and_deliver env content token r now (shared_client env has_cert r now clock token app)
