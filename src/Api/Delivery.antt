-- ===== src/Api/Delivery.antt =====
-- ui/app/main.py: requests for one-time links that run at the same time. The look at a link and its
-- use are two steps, with any others in between.
use openvpn_server.Base.{
  ℕ, ◌+◌, ◌≡◌, ◌≤◌, inl, inr, refl, Bool, true, false, Option, none, some, List, [], ◌∷◌, ◌++◌,
  arith, Text, codes, text_eq, text_eq_sound, text_eq_refl, suc, ltb, ◌-◌, if◌then◌else◌, ◌==◌, any,
  length, Bool-cases, delete_where, update_where,
}
use openvpn_server.Db.Schema.{ShareToken, Event, Db}
use openvpn_server.Db.History.{add_event}
use openvpn_server.Auth.Limiter.{attempt_key}
use openvpn_server.Api.Requests.{Answer, ok, failed, Request, Env}
use openvpn_server.Api.Login.{App}
use openvpn_server.Api.Links.{
  is_unused, find_link, share_key, drop_share_links, linked_client, shared_client, spend, deliver,
}

-- A request for a link.
pub record Job : Type 0 where
  pub token : Text
  pub name : Text

-- The requests that have looked at their link and not yet used it, and the tokens whose profile was
-- sent.
pub record Server : Type 0 where
  pub app : App
  pub jobs : List Job
  pub delivered : List Text

pub data Step : Type 0 where
  looks : (Text → Bool) → Request → ℕ → ℕ → Text → Step
  sends : ℕ → Text → Request → ℕ → Step
  drops : Text → Step

unfoldable pub looked : Text → Server → Answer Text × App → Server
looked token s (failed status, app) = record s { app = app }
looked token s (ok name, app) = record s {
  app = app;
  jobs = s.jobs ++ (record { token = token; name = name }) ∷ [];
}

unfoldable pub sent : Text → Server → Answer Text × Db → Server
sent token s (failed status, db) = record s { app = record (s.app) { db = db } }
sent token s (ok content, db) = record s {
  app = record (s.app) { db = db };
  delivered = token ∷ s.delivered;
}

-- The request at a position of the list.
unfoldable pub job_at : ℕ → List Job → Option Job
job_at n [] = none
job_at n (j ∷ js) = if n == 0 then some j else job_at (n - 1) js

unfoldable pub send_job : Env → Text → Request → ℕ → Server → Option Job → Server
send_job env content r now s none = s
send_job env content r now s (some j) =
    sent j.token s (deliver env j.token j.name content r now s.app.db)

-- `sends` takes one of the requests that have looked; `drops` is `drop_share_links`.
unfoldable pub step : Env → Step → Server → Server
step env (looks has_cert r now clock token) s =
    looked token s (shared_client env has_cert r now clock token s.app)
step env (sends n content r now) s = send_job env content r now s (job_at n s.jobs)
step env (drops name) s = record s { app = record (s.app) { db = drop_share_links name s.app.db } }

unfoldable pub run : Env → List Step → Server → Server
run env [] s = s
run env (x ∷ xs) s = run env xs (step env x s)

-- How often a profile was sent for a link, and its rows that are not spent.
unfoldable pub times : Env → Text → List Text → ℕ
times env hash [] = 0
times env hash (t ∷ ts) = (if text_eq (env.token_hash t) hash then 1 else 0) + times env hash ts

unfoldable pub unused : Text → List ShareToken → ℕ
unused hash [] = 0
unused hash (t ∷ rows) = (if is_unused hash t then 1 else 0) + unused hash rows

-- The traces of links that were used.
unfoldable pub traces : List Event → ℕ
traces [] = 0
traces (e ∷ events) = (if text_eq e.kind (codes "profile_link_used") then 1 else 0) + traces events

unused-spent :
    (h hash : Text) (set : ShareToken → ShareToken) (rows : List ShareToken)
    → ((t : ShareToken) → is_unused h (set t) ≡ false)
    → ((t : ShareToken) → (set t).token_hash ≡ t.token_hash)
    → unused h (update_where (is_unused hash) set rows) ≤ unused h rows
unfolding unused update_where
unused-spent h hash set [] off same = omega arith
unused-spent h hash set (t ∷ rows) off same =
    ground (arith, off t, unused-spent h hash set rows off same)

unused-spent_self :
    (h : Text) (set : ShareToken → ShareToken) (rows : List ShareToken)
    → ((t : ShareToken) → is_unused h (set t) ≡ false)
    → unused h (update_where (is_unused h) set rows) ≡ 0
unfolding unused update_where
unused-spent_self h set [] off = refl
unused-spent_self h set (t ∷ rows) off = ground (arith, off t, unused-spent_self h set rows off)

unused_pos : (h : Text) (rows : List ShareToken) → any (is_unused h) rows ≡ true → 1 ≤ unused h rows
unfolding unused
unused_pos h [] found = absurd (ground arith)
unused_pos h (t ∷ rows) found = ground (arith, unused_pos h rows)

unused-dropped :
    (h name : Text) (rows : List ShareToken)
    → unused h (delete_where (λ t. text_eq t.client_name name) rows) ≤ unused h rows
unfolding unused delete_where
unused-dropped h name [] = omega arith
unused-dropped h name (t ∷ rows) = ground (arith, unused-dropped h name rows)

linked_client-db :
    (has_cert : Text → Bool) (r : Request) (o : Option ShareToken) (app : App)
    → (linked_client has_cert r o app).1.db ≡ app.db
unfolding linked_client
linked_client-db has_cert r none app = refl
linked_client-db has_cert r (some t) app = ground arith

shared_client-db :
    (env : Env) (has_cert : Text → Bool) (r : Request) (now clock : ℕ) (token : Text) (app : App)
    → (shared_client env has_cert r now clock token app).1.db ≡ app.db
unfolding shared_client
shared_client-db env has_cert r now clock token app =
    let (wait, limiter) = attempt_key app.limiter clock (share_key r) in
    elim (Bool-cases (ltb 0 wait)) [
      | inl e ↦ rw e refl
      | inr e ↦ rw e (
          linked_client-db has_cert r (find_link (env.token_hash token) now app.db.share_tokens)
            (record app { limiter = limiter }))
    ]

-- What one link has been worth: the profiles sent for it and the rows that still can be.
abbrev worth : Env → Text → Server → ℕ
worth env h s = times env h s.delivered + unused h s.app.db.share_tokens

looked-same :
    (env : Env) (h token : Text) (s : Server) (a : Answer Text × App)
    → a.1.db ≡ s.app.db
    → (worth env h (looked token s a) ≡ worth env h s)
      × (length (looked token s a).delivered + traces s.app.db.events
          ≡ length s.delivered + traces (looked token s a).app.db.events)
unfolding looked
looked-same env h token s (failed status, app) e = (rw e refl, rw e refl)
looked-same env h token s (ok name, app) e = (rw e refl, rw e refl)

sent-worth :
    (env : Env) (h : Text) (j : Job) (content : Text) (r : Request) (now : ℕ) (s : Server)
    → worth env h (sent j.token s (deliver env j.token j.name content r now s.app.db))
      ≤ worth env h s
unfolding sent deliver spend times add_event
sent-worth env h j content r now s =
    let hash = env.token_hash j.token in
    let rows = s.app.db.share_tokens in
    let set = λ (t : ShareToken). record t { used_at = some now } in
    elim (Bool-cases (any (is_unused hash) rows)) [
      | inr none_left ↦ rw none_left (omega arith)
      | inl found ↦ rw found (elim (Bool-cases (text_eq hash h)) [
        | inr other ↦
            rw other (omega (arith, unused-spent h hash set rows (λ t. ground arith) (λ t. refl)))
        | inl same ↦ rw same (
            ground (
              arith,
              unused-spent_self hash set rows (λ t. ground arith),
              unused_pos hash rows found,
              text_eq_sound hash h same,
            ))
      ])
    ]

traces-snoc :
    (es : List Event) (e : Event)
    → text_eq e.kind (codes "profile_link_used") ≡ true
    → traces (es ++ e ∷ []) ≡ suc (traces es)
unfolding traces
traces-snoc [] e h = rw h refl
traces-snoc (x ∷ es) e h = omega (arith, traces-snoc es e h)

sent-traces :
    (env : Env) (j : Job) (content : Text) (r : Request) (now : ℕ) (s : Server)
    → let s' = sent j.token s (deliver env j.token j.name content r now s.app.db) in
      length s'.delivered + traces s.app.db.events ≡ length s.delivered + traces s'.app.db.events
unfolding sent deliver spend add_event
sent-traces env j content r now s =
    elim (Bool-cases (any (is_unused (env.token_hash j.token)) s.app.db.share_tokens)) [
      | inr none_left ↦ rw none_left refl
      | inl found ↦
          rw found (
            omega (arith, traces-snoc s.app.db.events _ (text_eq_refl (codes "profile_link_used"))))
    ]

send_job-worth :
    (env : Env) (h content : Text) (r : Request) (now : ℕ) (s : Server) (o : Option Job)
    → (worth env h (send_job env content r now s o) ≤ worth env h s)
      × (length (send_job env content r now s o).delivered + traces s.app.db.events
          ≡ length s.delivered + traces (send_job env content r now s o).app.db.events)
unfolding send_job
send_job-worth env h content r now s none = (omega arith, refl)
send_job-worth env h content r now s (some j) =
    (sent-worth env h j content r now s, sent-traces env j content r now s)

step-worth :
    (env : Env) (h : Text) (x : Step) (s : Server)
    → (worth env h (step env x s) ≤ worth env h s)
      × (length (step env x s).delivered + traces s.app.db.events
          ≡ length s.delivered + traces (step env x s).app.db.events)
unfolding step
step-worth env h (looks has_cert r now clock token) s =
    let (w, t) =
      looked-same env h token s (shared_client env has_cert r now clock token s.app)
        (shared_client-db env has_cert r now clock token s.app) in
    (omega (arith, w), t)
step-worth env h (sends n content r now) s = send_job-worth env h content r now s (job_at n s.jobs)
step-worth env h (drops name) s = (omega (arith, unused-dropped h name s.app.db.share_tokens), refl)

run-worth :
    (env : Env) (h : Text) (xs : List Step) (s : Server)
    → (worth env h (run env xs s) ≤ worth env h s)
      × (length (run env xs s).delivered + traces s.app.db.events
          ≡ length s.delivered + traces (run env xs s).app.db.events)
unfolding run
run-worth env h [] s = (omega arith, refl)
run-worth env h (x ∷ xs) s =
    let (w, t) = step-worth env h x s in
    let (w', t') = run-worth env h xs (step env x s) in (omega arith, omega arith)

-- Whatever requests look at links and use them, in any order and at the same time, a link whose hash
-- stands in one unspent row gives its profile at most once, and each profile that is sent leaves one
-- trace in the audit log.
pub run-delivers_once :
    (env : Env) (hash : Text) (xs : List Step) (app : App)
    → unused hash app.db.share_tokens ≤ 1
    → let s = run env xs (record { app = app; jobs = []; delivered = [] }) in
      (times env hash s.delivered ≤ 1)
      × (length s.delivered + traces app.db.events ≡ traces s.app.db.events)
unfolding times
run-delivers_once env hash xs app one =
    let (w, t) = run-worth env hash xs (record { app = app; jobs = []; delivered = [] }) in
    (omega arith, omega arith)
