-- ===== src/Relay/Authorize.antt =====
-- ui/app/relay.py: eligible, authorize, revoke and renewed. The JSON texts of the settings, the
-- certificate files, the PKI index, the guest markers and the network settings are read through a
-- `World`, which also gives the time.
use openvpn_server.Base.{
  ℕ, Bool, true, false, not, ◌&&◌, ◌||◌, Option, none, some, List, [], ◌∷◌, ◌++◌, Text, text_eq,
  codes, nonempty, if◌then◌else◌, leb, ltb, length, drop, starts_with, partition, delete_where,
  coalesce,
}
use openvpn_server.Db.Schema.{Db}
use openvpn_server.Db.History.{get_setting, set_setting}
use openvpn_server.Pki.Names.{is_valid_name}

-- The value of a setting "relay_client:<name>".
pub record Grant : Type 0 where
  pub serial : Text
  pub secret : Text

-- The value of the setting "apple_relay".
pub record Config : Type 0 where
  pub enabled : Bool
  pub url : Text

-- `cert_info` of an issued certificate.
pub record Cert : Type 0 where
  pub cn : Text
  pub serial : Text
  pub not_before : Option ℕ
  pub not_after : Option ℕ

-- The portal of the guests, and the routes that guests may not use.
pub record Portal : Type 0 where
  pub host : Text
  pub target : Text
  pub hosts : List Text

-- JSON reading fails with ValueError, KeyError or TypeError, which is `none`.
pub record World : Type 0 where
  pub parse_grant : Text → Option Grant
  pub show_grant : Grant → Text
  pub parse_config : Text → Option Config
  pub secret_hash : Text → Text
  -- `cert_info` of issued/<name>.crt
  pub cert_info : Text → Option Cert
  -- the status of a serial in index.txt, or `none` where the index cannot be read
  pub index : Option (Text → Option Text)
  pub is_guest : Text → Bool
  -- `guest_portal()` and the saved routes, or `none` where they cannot be read
  pub network : Option (Option Portal × List Text)
  pub now : ℕ

pub data Outcome {ℓ} (A : Type ℓ) : Type ℓ where
  returned : A → Outcome A
  -- an exception that the policy service answers with 503
  unavailable : Outcome A
  -- PkiError
  refused : Outcome A

-- The part of `eligible` after the certificate is read, with the entry of the index.
abbrev pub is_current : World → Cert → Option Text → Bool
is_current w cert none = false
is_current w cert (some status) =
    text_eq status (codes "V")
    && (ltb w.now (coalesce cert.not_after 0) && leb (coalesce cert.not_before 0) w.now)

unfoldable pub eligible_cert : World → Text → Option Cert → Option Cert
eligible_cert w name none = none
eligible_cert w name (some cert) = if not (text_eq cert.cn name) then none else (elim w.index [
  | none ↦ none
  | some entry ↦ if is_current w cert (entry cert.serial) then some cert else none
])

unfoldable pub eligible : World → Text → Outcome (Option Cert)
eligible w name =
    if is_valid_name name then returned (eligible_cert w name (w.cert_info name)) else refused

abbrev pub grant_key : Text → Text
grant_key name = codes "relay_client:" ++ name

unfoldable pub revoke : Text → Db → Db
revoke name db = record db {
  settings = delete_where (λ s. text_eq s.key (grant_key name)) db.settings;
}

-- `get_settings(db)`: the saved configuration, or the defaults.
abbrev pub get_config : World → Db → Option Config
get_config w db = elim (get_setting db (codes "apple_relay")) [
  | none ↦ some (record { enabled = false; url = [] })
  | some raw ↦ w.parse_config raw
]

pub record Policy : Type 0 where
  pub client : Text
  pub credential_id : Text
  pub guest : Bool
  pub url : Text
  pub allowed_cidrs : List Text
  pub blocked_cidrs : List Text
  pub portal : Option Portal

abbrev pub policy_of : World → Text → Grant → Config → Bool → Option Portal → List Text → Policy
policy_of w name grant config guest portal routes = record {
  client = name;
  credential_id = w.secret_hash grant.secret;
  guest = guest;
  url = config.url;
  allowed_cidrs = codes "0.0.0.0/0" ∷ codes "::/0" ∷ [];
  blocked_cidrs = routes;
  portal = portal;
}

-- What a guest is limited by; a full-access client has no portal and no blocked routes.
unfoldable pub limits : World → Bool → Bool → Outcome (Option (Option Portal × List Text))
limits w strict false = returned (some (none, []))
limits w strict true = elim w.network [
  | none ↦ (if strict then unavailable else returned none)
  | some found ↦ returned (some found)
]

-- `authorize` from the reading of the certificate on.
unfoldable pub admit : World → Bool → Text → Grant → Config → Option Cert → Outcome (Option Policy)
admit w strict name grant config none = returned none
admit w strict name grant config (some cert) =
    if config.enabled && text_eq cert.serial grant.serial
    then (elim (limits w strict (w.is_guest name)) [
      | unavailable ↦ unavailable
      | refused ↦ refused
      | returned none ↦ returned none
      | returned (some (portal, routes)) ↦
          returned (some (policy_of w name grant config (w.is_guest name) portal routes))
    ])
    else returned none

-- The steps of `authorize`, each from what the step before has read.
unfoldable pub after_config :
    World → Bool → Text → Grant → Option Cert → Option Config → Outcome (Option Policy)
after_config w strict name grant cert none = unavailable
after_config w strict name grant cert (some config) = admit w strict name grant config cert

unfoldable pub after_cert :
    World → Db → Bool → Text → Grant → Outcome (Option Cert) → Outcome (Option Policy)
after_cert w db strict name grant unavailable = unavailable
after_cert w db strict name grant refused = refused
after_cert w db strict name grant (returned cert) =
    after_config w strict name grant cert (get_config w db)

unfoldable pub after_grant :
    World → Db → Bool → Text → Text → Option Grant → Outcome (Option Policy)
after_grant w db strict name secret none = unavailable
after_grant w db strict name secret (some grant) =
    if not (text_eq secret grant.secret)
    then returned none
    else after_cert w db strict name grant (eligible w name)

unfoldable pub after_setting :
    World → Db → Bool → Text → Text → Option Text → Outcome (Option Policy)
after_setting w db strict name secret none = returned none
after_setting w db strict name secret (some raw) =
    if not (nonempty raw)
    then returned none
    else after_grant w db strict name secret (w.parse_grant raw)

unfoldable pub authorize_client : World → Db → Bool → Text → Text → Outcome (Option Policy)
authorize_client w db strict name secret =
    after_setting w db strict name secret (get_setting db (grant_key name))

unfoldable pub authorize : World → Db → Text → Bool → Outcome (Option Policy)
authorize w db authorization strict =
    if not (starts_with authorization (codes "Bearer ")) || ltb 512 (length authorization)
    then returned none
    else (let (name, sep, secret) = partition (drop 7 authorization) b':' in
        if not sep then returned none else authorize_client w db strict name secret)

-- The credential of a renewed certificate: the grant moves on if it was bound to the previous one.
unfoldable pub rebind : World → Text → Text → Cert → Option Text → Db → Outcome Db
rebind w name previous_serial cert none db = returned db
rebind w name previous_serial cert (some raw) db = elim (w.parse_grant raw) [
  | none ↦ unavailable
  | some grant ↦ returned (
      if text_eq grant.serial previous_serial
      then set_setting (grant_key name) (w.show_grant (record grant { serial = cert.serial })) db
      else db)
]

unfoldable pub renewed : World → Db → Text → Text → Outcome Db
renewed w db name previous_serial = elim (eligible w name) [
  | unavailable ↦ unavailable
  | refused ↦ refused
  | returned none ↦ returned db
  | returned (some cert) ↦ rebind w name previous_serial cert (get_setting db (grant_key name)) db
]

-- The credential part of `profile`: the stored grant, or a new one with the secret that `secrets`
-- draws if there is none or it is bound to another certificate.
unfoldable pub grant_for : World → Text → Text → Cert → Option Text → Db → Outcome (Grant × Db)
grant_for w new_secret name cert none db =
    let grant : Grant = record { serial = cert.serial; secret = new_secret } in
    returned (grant, set_setting (grant_key name) (w.show_grant grant) db)
grant_for w new_secret name cert (some raw) db = elim (w.parse_grant raw) [
  | none ↦ unavailable
  | some grant ↦
      if text_eq grant.serial cert.serial
      then returned (grant, db)
      else (let fresh : Grant = record { serial = cert.serial; secret = new_secret } in
          returned (fresh, set_setting (grant_key name) (w.show_grant fresh) db))
]

unfoldable pub profile_grant : World → Db → Text → Text → Outcome (Grant × Db)
profile_grant w db new_secret name = elim (eligible w name) [
  | unavailable ↦ unavailable
  | refused ↦ refused
  | returned none ↦ refused
  | returned (some cert) ↦ grant_for w new_secret name cert (get_setting db (grant_key name)) db
]
