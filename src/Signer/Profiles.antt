-- ===== src/Signer/Profiles.antt =====
-- signer/service.py, Signer.sign: which profiles are signed. What plistlib and openssl do are
-- parameters; the keys of a dict are texts, and a value that no check of the code tells from another
-- is `other`.
use openvpn_server.Base.{
  ℕ, Bool, true, false, not, ◌&&◌, ◌||◌, Option, none, some, List, [], ◌∷◌, ◌++◌, Text, codes,
  text_eq, starts_with, if◌then◌else◌, ltb, length, and_then, given,
}

-- What `plistlib.loads` returns.
mutual
  pub data Plist : Type 0 where
    dict : Entries → Plist
    array : Items → Plist
    string : Text → Plist
    other : Plist

  pub data Items : Type 0 where
    no_items : Items
    item : Plist → Items → Items

  pub data Entries : Type 0 where
    no_entries : Entries
    entry : Text → Plist → Entries → Entries

abbrev pub max_profile : ℕ
max_profile = 131072

unfoldable pub entry_at : Entries → Text → Option Plist
entry_at no_entries key = none
entry_at (entry k v rest) key = if text_eq k key then some v else entry_at rest key

-- `d.get(key, default)`; an AttributeError on a value that is no dict.
abbrev pub get_or : Plist → Text → Plist → Option Plist
get_or (dict es) key default = some (elim (entry_at es key) [ none ↦ default | some v ↦ v ])
get_or _ key default = none

-- The only value of a list; the code fails on all else, here or where it reads the value.
abbrev pub only_item : Plist → Option Plist
only_item (array (item v no_items)) = some v
only_item _ = none

abbrev pub is_text : Plist → Text → Bool
is_text (string s) t = text_eq s t
is_text _ t = false

abbrev pub is_prefixed : Plist → Text → Bool
is_prefixed (string s) p = starts_with s p
is_prefixed _ p = false

abbrev pub is_url_key : Text → Bool
is_url_key k = text_eq k (codes "HTTP2RelayURL") || text_eq k (codes "HTTP3RelayURL")

-- `urls`, in the order of the dict.
unfoldable pub urls_of : Entries → List Plist
urls_of no_entries = []
urls_of (entry k v rest) = if is_url_key k then v ∷ urls_of rest else urls_of rest

unfoldable pub all_urls : Text → List Plist → Bool
all_urls expected [] = true
all_urls expected (u ∷ us) = is_text u expected && all_urls expected us

abbrev pub some_urls : List Plist → Bool
some_urls [] = false
some_urls (u ∷ us) = true

abbrev pub url_template : Text
url_template = codes "/.well-known/masque/udp/{target_host}/{target_port}/"

-- The check of the relay's addresses.
abbrev pub relay_accepted : Text → Plist → Bool
relay_accepted relay_url (dict es) =
    some_urls (urls_of es) && all_urls (relay_url ++ url_template) (urls_of es)
relay_accepted relay_url _ = false

abbrev pub empty_array : Plist
empty_array = array no_items

abbrev pub check_relays : Text → Plist → Option Bool
check_relays relay_url relays =
    and_then (only_item relays) (λ relay. some (relay_accepted relay_url relay))

abbrev pub is_managed : Plist → Plist → Bool
is_managed kind identifier =
    is_text kind (codes "com.apple.relay.managed")
    && is_prefixed identifier (codes "org.openvpn.apple-relay.")

abbrev pub check_managed : Text → Plist → Plist → Plist → Option Bool
check_managed relay_url payload kind identifier =
    given (is_managed kind identifier)
      (and_then (get_or payload (codes "Relays") empty_array) (check_relays relay_url))

abbrev pub check_payload : Text → Plist → Plist → Plist → Option Bool
check_payload relay_url profile payload kind =
    and_then (get_or profile (codes "PayloadIdentifier") (string []))
      (check_managed relay_url payload kind)

-- The checks on the only payload.
unfoldable pub payload_accepted : Text → Plist → Plist → Option Bool
payload_accepted relay_url profile payload =
    and_then (get_or payload (codes "PayloadType") other) (check_payload relay_url profile payload)

abbrev pub check_kind : Text → Plist → Plist → Plist → Option Bool
check_kind relay_url profile payloads kind =
    given (is_text kind (codes "Configuration"))
      (and_then (only_item payloads) (payload_accepted relay_url profile))

abbrev pub check_payloads : Text → Plist → Plist → Option Bool
check_payloads relay_url profile payloads =
    and_then (get_or profile (codes "PayloadType") other) (check_kind relay_url profile payloads)

-- The checks on the profile; `none` and `some false` are errors.
unfoldable pub profile_accepted : Text → Plist → Option Bool
profile_accepted relay_url profile =
    and_then (get_or profile (codes "PayloadContent") empty_array)
      (check_payloads relay_url profile)

module _ (loads : Text → Option Plist) (dumps : Plist → Text) where
  -- Only the canonical print of a profile is signed.
  abbrev pub check_canonical : Text → Text → Plist → Option Bool
  check_canonical relay_url content profile =
      given (text_eq (dumps profile) content) (profile_accepted relay_url profile)

  -- The checks of `sign` on what came in: `some true` if none fails.
  unfoldable pub accepts : Text → Text → Option Bool
  accepts relay_url content =
      given (not (ltb max_profile (length content)))
        (and_then (loads content) (check_canonical relay_url content))
