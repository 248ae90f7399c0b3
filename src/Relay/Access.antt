-- ===== src/Relay/Access.antt =====
-- ui/app/relay.py: whom `authorize` lets in.
use openvpn_server.Base.{
  ℕ, ◌≤◌, ◌<◌, ◌≡◌, refl, ap, sym, ◌∙◌, Bool, true, false, Option, none, some, List, [], ◌∷◌, ◌++◌,
  arith, Text, text_eq, text_eq_iff, codes, ◌==◌, length, drop, starts_with, partition,
  delete_where, coalesce, Bool-cases, Option-cases, inl, inr, contains_code,
}
use openvpn_server.Db.Schema.{Db, Setting}
use openvpn_server.Db.History.{get_setting, get_setting_in}
use openvpn_server.Relay.Authorize.{
  Grant, Config, Cert, World, Outcome, returned, unavailable, refused, eligible_cert, eligible,
  grant_key, revoke, get_config, Policy, admit, after_config, after_cert, after_grant,
  after_setting, authorize_client, authorize,
}

-- The index can be read and lists the serial as valid.
abbrev pub IsListed : World → Text → Type 0
IsListed w serial =
    (entry : Text → Option Text) × (w.index ≡ some entry) × (entry serial ≡ some (codes "V"))

-- A certificate that is the client's own, valid in the index and in time.
abbrev pub IsCurrent : World → Text → Cert → Type 0
IsCurrent w name cert =
    (w.cert_info name ≡ some cert)
    × (cert.cn ≡ name)
    × (w.now < coalesce cert.not_after 0)
    × (coalesce cert.not_before 0 ≤ w.now)
    × IsListed w cert.serial

-- Why `p` was admitted for the credential: the grant that is stored, and the certificate that it is
-- bound to.
pub record IsEntitled (w : World) (db : Db) (name secret : Text) (p : Policy) : Type 0 where
  pub grant : Grant
  pub raw : Text
  pub cert : Cert
  pub config : Config
  pub stored : get_setting db (grant_key name) ≡ some raw
  pub parsed : w.parse_grant raw ≡ some grant
  pub same_secret : secret ≡ grant.secret
  pub bound : cert.serial ≡ grant.serial
  pub current : IsCurrent w name cert
  pub configured : get_config w db ≡ some config
  pub enabled : config.enabled ≡ true
  pub named : p.client ≡ name
  pub guest : p.guest ≡ w.is_guest name

eligible_cert_sound :
    (w : World) (name : Text) (found : Option Cert) (cert : Cert)
    → eligible_cert w name found ≡ some cert
    → (found ≡ some cert)
      × (cert.cn ≡ name)
      × (w.now < coalesce cert.not_after 0)
      × (coalesce cert.not_before 0 ≤ w.now)
unfolding eligible_cert
eligible_cert_sound w name none cert h = cc
eligible_cert_sound w name (some found) cert h = ground (arith, text_eq_iff found.cn name)

eligible_cert-IsListed :
    (w : World) (name : Text) (found : Option Cert) (cert : Cert)
    → eligible_cert w name found ≡ some cert
    → IsListed w cert.serial
unfolding eligible_cert
eligible_cert-IsListed w name none cert h = absurd (ground arith)
eligible_cert-IsListed w name (some found) cert h = elim (Option-cases w.index) [
  | inl unread ↦ absurd (ground arith)
  | inr (entry, e) ↦ elim (Option-cases (entry found.serial)) [
    | inl unlisted ↦ absurd (ground arith)
    | inr (status, l) ↦
        let same : found ≡ cert = ground arith in
        let valid : status ≡ codes "V" = ground (arith, text_eq_iff status (codes "V")) in
        (entry, e, ap (λ (x : Cert). entry x.serial) (sym same) ∙ l ∙ ap some valid)
  ]
]

eligible_sound :
    (w : World) (name : Text) (cert : Cert)
    → eligible w name ≡ returned (some cert)
    → IsCurrent w name cert
unfolding eligible
eligible_sound w name cert h =
    let e : eligible_cert w name (w.cert_info name) ≡ some cert = ground arith in
    let (found, cn, after, before) = eligible_cert_sound w name (w.cert_info name) cert e in
    (found, cn, after, before, eligible_cert-IsListed w name (w.cert_info name) cert e)

admit_sound :
    (w : World) (strict : Bool) (name : Text) (grant : Grant) (config : Config) (cert : Cert)
    (p : Policy)
    → admit w strict name grant config (some cert) ≡ returned (some p)
    → (config.enabled ≡ true)
      × (cert.serial ≡ grant.serial)
      × (p.client ≡ name)
      × (p.guest ≡ w.is_guest name)
unfolding admit
admit_sound w strict name grant config cert p h =
    ground (arith, text_eq_iff cert.serial grant.serial)

after_config_sound :
    (w : World) (strict : Bool) (name : Text) (grant : Grant) (cert : Option Cert)
    (config : Option Config) (p : Policy)
    → after_config w strict name grant cert config ≡ returned (some p)
    → (c : Cert) × (f : Config) × (cert ≡ some c)
      × (config ≡ some f)
      × (admit w strict name grant f (some c) ≡ returned (some p))
unfolding after_config admit
after_config_sound w strict name grant cert none p h = absurd (ground arith)
after_config_sound w strict name grant none (some f) p h = absurd (ground arith)
after_config_sound w strict name grant (some c) (some f) p h = (c, f, refl, refl, h)

after_cert_sound :
    (w : World) (db : Db) (strict : Bool) (name : Text) (grant : Grant)
    (cert : Outcome (Option Cert)) (p : Policy)
    → after_cert w db strict name grant cert ≡ returned (some p)
    → (c : Cert) × (f : Config) × (cert ≡ returned (some c))
      × (get_config w db ≡ some f)
      × (admit w strict name grant f (some c) ≡ returned (some p))
unfolding after_cert
after_cert_sound w db strict name grant unavailable p h = absurd (ground arith)
after_cert_sound w db strict name grant refused p h = absurd (ground arith)
after_cert_sound w db strict name grant (returned cert) p h =
    let (c, f, ec, ef, a) = after_config_sound w strict name grant cert (get_config w db) p h in
    (c, f, ap returned ec, ef, a)

after_grant_sound :
    (w : World) (db : Db) (strict : Bool) (name secret : Text) (grant : Option Grant) (p : Policy)
    → after_grant w db strict name secret grant ≡ returned (some p)
    → (g : Grant) × (grant ≡ some g)
      × (secret ≡ g.secret)
      × (after_cert w db strict name g (eligible w name) ≡ returned (some p))
unfolding after_grant
after_grant_sound w db strict name secret none p h = absurd (ground arith)
after_grant_sound w db strict name secret (some g) p h =
    (g, refl, ground (arith, text_eq_iff secret g.secret), ground arith)

after_setting_sound :
    (w : World) (db : Db) (strict : Bool) (name secret : Text) (setting : Option Text) (p : Policy)
    → after_setting w db strict name secret setting ≡ returned (some p)
    → (raw : Text) × (setting ≡ some raw)
      × (after_grant w db strict name secret (w.parse_grant raw) ≡ returned (some p))
unfolding after_setting
after_setting_sound w db strict name secret none p h = absurd (ground arith)
after_setting_sound w db strict name secret (some raw) p h = (raw, refl, ground arith)

authorize_client_sound :
    (w : World) (db : Db) (strict : Bool) (name secret : Text) (p : Policy)
    → authorize_client w db strict name secret ≡ returned (some p)
    → IsEntitled w db name secret p
unfolding authorize_client
authorize_client_sound w db strict name secret p h =
    let (raw, stored, g) = after_setting_sound w db strict name secret _ p h in
    let (grant, parsed, same, c) = after_grant_sound w db strict name secret _ p g in
    let (cert, config, eligible_now, configured, a) =
      after_cert_sound w db strict name grant (eligible w name) p c in
    let (enabled, bound, named, guest) = admit_sound w strict name grant config cert p a in
    record {
      grant = grant;
      raw = raw;
      cert = cert;
      config = config;
      stored = stored;
      parsed = parsed;
      same_secret = same;
      bound = bound;
      current = eligible_sound w name cert eligible_now;
      configured = configured;
      enabled = enabled;
      named = named;
      guest = guest;
    }

partition_sound :
    (s : Text) (sep : ℕ)
    → let (a, found, b) = partition s sep in
      found ≡ true → (s ≡ a ++ sep ∷ b) × (contains_code a sep ≡ false)
unfolding partition contains_code
partition_sound [] sep = λ h. absurd (ground arith)
partition_sound (c ∷ s) sep = elim (Bool-cases (c == sep)) [
  | inl e ↦ rw e (λ h. (ground arith, refl))
  | inr e ↦ rw e (λ h.
      let (whole, before) = partition_sound s sep h in
      (ap (◌∷◌ c) whole, ground (arith, before, e)))
]

starts_with_sound : (s p : Text) → starts_with s p ≡ true → s ≡ p ++ drop (length p) s
unfolding starts_with
starts_with_sound s [] h = refl
starts_with_sound [] (d ∷ p) h = absurd (ground arith)
starts_with_sound (c ∷ s) (d ∷ p) h = ground (arith, starts_with_sound s p)

-- A policy is given only for a bearer token "<name>:<secret>" whose secret is the one stored for
-- that name, while relaying is enabled, and while the certificate that the credential is bound to is
-- the client's own: it carries the client's name, the index lists it as valid, and it is in its
-- validity period. The policy is for that client and tells a guest from a full-access client.
pub authorize_sound :
    (w : World) (db : Db) (authorization : Text) (strict : Bool) (p : Policy)
    → authorize w db authorization strict ≡ returned (some p)
    → (name : Text) × (secret : Text) × (authorization ≡ codes "Bearer " ++ (name ++ b':' ∷ secret))
      × IsEntitled w db name secret p
unfolding authorize
authorize_sound w db authorization strict p h =
    let rest = drop 7 authorization in
    let prefixed : starts_with authorization (codes "Bearer ") ≡ true = ground arith in
    let found : (partition rest b':').1 ≡ true = ground arith in
    let admitted : authorize_client w db strict (partition rest b':').0 (partition rest b':').2
        ≡ returned (some p) =
      ground arith in
    let (whole, before) = partition_sound rest b':' found in
    (
      (partition rest b':').0,
      (partition rest b':').2,
      starts_with_sound authorization (codes "Bearer ") prefixed
          ∙ ap (λ (t : Text). codes "Bearer " ++ t) whole,
      authorize_client_sound w db strict (partition rest b':').0 (partition rest b':').2 p admitted,
    )

pub get_setting_in-delete :
    (key : Text) (rows : List Setting)
    → get_setting_in key (delete_where (λ s. text_eq s.key key) rows) ≡ none
unfolding get_setting_in delete_where
get_setting_in-delete key [] = refl
get_setting_in-delete key (s ∷ rows) = ground (arith, get_setting_in-delete key rows)

-- After `revoke` no secret is accepted for the name.
revoke_denies :
    (w : World) (db : Db) (strict : Bool) (name secret : Text)
    → authorize_client w (revoke name db) strict name secret ≡ returned none
unfolding authorize_client after_setting revoke
revoke_denies w db strict name secret = rw (get_setting_in-delete (grant_key name) db.settings)
