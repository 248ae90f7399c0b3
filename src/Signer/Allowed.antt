-- ===== src/Signer/Allowed.antt =====
-- signer/service.py, Signer.sign: what a profile is that passes its checks.
use openvpn_server.Base.{
  ◌≤◌, ◌≡◌, refl, sym, ap, ◌∙◌, subst, true, false, not, Option, some, some_eq, Option-cases,
  Bool-cases, ◌++◌, [], Text, codes, text_eq, text_eq_sound, starts_with, ltb, length,
  and_then-some, given-some, &&-eq-true, arith, ◌⊎◌, inl, inr,
}
use openvpn_server.Signer.Profiles.{
  Plist, dict, array, string, other, no_items, item, Entries, no_entries, entry, max_profile,
  entry_at, get_or, only_item, is_text, is_prefixed, is_url_key, urls_of, all_urls, some_urls,
  url_template, relay_accepted, empty_array, payload_accepted, profile_accepted, accepts,
  check_relays, is_managed, check_managed, check_payload, check_kind, check_payloads,
  check_canonical,
}

-- A dict has this value under this key.
abbrev pub Holds : Text → Plist → Entries → Type 0
Holds k v no_entries = ⊥
Holds k v (entry l w es) = ((k ≡ l) × (v ≡ w)) ⊎ Holds k v es

-- The payload of a relay that is reached at these addresses only.
pub record IsRelayPayload (relay_url : Text) (payload : Entries) : Type 0 where
  pub relay : Entries
  pub managed :
      entry_at payload (codes "PayloadType") ≡ some (string (codes "com.apple.relay.managed"))
  pub one_relay : entry_at payload (codes "Relays") ≡ some (array (item (dict relay) no_items))
  pub has_url : (k : Text) × (v : Plist) × Holds k v relay × (is_url_key k ≡ true)
  pub urls :
      (k : Text) (v : Plist)
      → Holds k v relay
      → is_url_key k ≡ true
      → v ≡ string (relay_url ++ url_template)

abbrev pub IsNamed : Entries → Type 0
IsNamed profile =
    (identifier : Text) × (entry_at profile (codes "PayloadIdentifier") ≡ some (string identifier))
    × (starts_with identifier (codes "org.openvpn.apple-relay.") ≡ true)

-- The profile of a relay with these addresses only.
pub record IsRelayProfile (relay_url : Text) (profile : Entries) : Type 0 where
  pub kind : entry_at profile (codes "PayloadType") ≡ some (string (codes "Configuration"))
  pub named : IsNamed profile
  pub payload : Entries
  pub one_payload :
      entry_at profile (codes "PayloadContent") ≡ some (array (item (dict payload) no_items))
  pub relay_payload : IsRelayPayload relay_url payload

is_text_sound : (v : Plist) (t : Text) → is_text v t ≡ true → v ≡ string t
is_text_sound (string s) t h = ap string (text_eq_sound s t h)
is_text_sound (dict es) t h = absurd (ground arith)
is_text_sound (array vs) t h = absurd (ground arith)
is_text_sound other t h = absurd (ground arith)

only_item_sound : (v w : Plist) → only_item v ≡ some w → v ≡ array (item w no_items)
only_item_sound (array (item u no_items)) w h = ap (λ x. array (item x no_items)) (some_eq h)
only_item_sound (array (item u (item x vs))) w h = absurd (ground arith)
only_item_sound (array no_items) w h = absurd (ground arith)
only_item_sound (dict es) w h = absurd (ground arith)
only_item_sound (string s) w h = absurd (ground arith)
only_item_sound other w h = absurd (ground arith)

-- The value that `get` finds, where the default would not do.
entry_found :
    (es : Entries) (key : Text) (default v : Plist) (Q : Plist → Type 0)
    → get_or (dict es) key default ≡ some v
    → Q v
    → ¬ (Q default)
    → entry_at es key ≡ some v
entry_found es key default v Q h q refuted = elim (Option-cases (entry_at es key)) [
  | inl e ↦ absurd (refuted (subst Q (sym (some_eq (rw e at h))) q))
  | inr (w, e) ↦ e ∙ rw e at h
]

differs : (l : Text) → is_url_key l ≡ true → is_url_key l ≡ false → ⊥
differs l h k = ground arith

all_urls_sound :
    (expected : Text) (es : Entries)
    → all_urls expected (urls_of es) ≡ true
    → (k : Text) (v : Plist) → Holds k v es
    → is_url_key k ≡ true
    → v ≡ string expected
unfolding urls_of all_urls
all_urls_sound expected no_entries h k v m u = elim m [ ]
all_urls_sound expected (entry l w es) h k v m u = elim (Bool-cases (is_url_key l)) [
  | inl is ↦
      let (first, rest) = &&-eq-true (is_text w expected) _ (rw is at h) in
      elim m [
        | inl (_, e) ↦ e ∙ is_text_sound w expected first
        | inr later ↦ all_urls_sound expected es rest k v later u
      ]
  | inr not_one ↦ elim m [
    | inl (e, _) ↦ absurd (differs l (subst (λ t. is_url_key t ≡ true) e u) not_one)
    | inr later ↦ all_urls_sound expected es (rw not_one at h) k v later u
  ]
]

some_urls_sound :
    (es : Entries)
    → some_urls (urls_of es) ≡ true
    → (k : Text) × (v : Plist) × Holds k v es × (is_url_key k ≡ true)
unfolding urls_of
some_urls_sound no_entries h = absurd (ground arith)
some_urls_sound (entry l w es) h = elim (Bool-cases (is_url_key l)) [
  | inl is ↦ (l, w, inl (refl, refl), is)
  | inr not_one ↦ let (k, v, m, u) = some_urls_sound es (rw not_one at h) in (k, v, inr m, u)
]

relay_accepted_sound :
    (relay_url : Text) (v : Plist)
    → relay_accepted relay_url v ≡ true
    → (es : Entries) × (v ≡ dict es)
      × (some_urls (urls_of es) ≡ true)
      × (all_urls (relay_url ++ url_template) (urls_of es) ≡ true)
relay_accepted_sound u (dict es) h =
    let (a, b) = &&-eq-true (some_urls (urls_of es)) _ h in (es, refl, a, b)
relay_accepted_sound u (array vs) h = absurd (ground arith)
relay_accepted_sound u (string s) h = absurd (ground arith)
relay_accepted_sound u other h = absurd (ground arith)

is_prefixed_sound :
    (v : Plist) (p : Text)
    → is_prefixed v p ≡ true
    → (s : Text) × (v ≡ string s) × (starts_with s p ≡ true)
is_prefixed_sound (string s) p h = (s, refl, h)
is_prefixed_sound (dict es) p h = absurd (ground arith)
is_prefixed_sound (array vs) p h = absurd (ground arith)
is_prefixed_sound other p h = absurd (ground arith)

no_array : (v : Plist) → ¬ (empty_array ≡ array (item v no_items))
no_array v h = cc

-- The parts that `payload_accepted` read.
payload_parts :
    (u : Text) (profile payload : Entries) (relays : Plist)
    → get_or (dict payload) (codes "Relays") empty_array ≡ some relays
    → check_relays u relays ≡ some true
    → entry_at payload (codes "PayloadType") ≡ some (string (codes "com.apple.relay.managed"))
    → IsRelayPayload u payload
payload_parts u profile payload relays found h managed =
    let (relay, one, ok) =
      and_then-some (only_item relays) (λ relay. some (relay_accepted u relay)) true h in
    let (es, is, some_url, all) = relay_accepted_sound u relay (some_eq ok) in
    let listed = only_item_sound relays relay one ∙ ap (λ v. array (item v no_items)) is in
    record {
      relay = es;
      managed = managed;
      one_relay =
          entry_found payload (codes "Relays") empty_array relays
            (λ v. v ≡ array (item (dict es) no_items)) found listed (no_array (dict es))
          ∙ ap some listed;
      has_url = some_urls_sound es some_url;
      urls = all_urls_sound (u ++ url_template) es all;
    }

payload_accepted_sound :
    (u : Text) (profile : Entries) (payload : Plist)
    → payload_accepted u (dict profile) payload ≡ some true
    → (es : Entries) × (payload ≡ dict es) × IsRelayPayload u es × IsNamed profile
unfolding payload_accepted starts_with
payload_accepted_sound u profile (array vs) h = absurd (ground arith)
payload_accepted_sound u profile (string s) h = absurd (ground arith)
payload_accepted_sound u profile other h = absurd (ground arith)
payload_accepted_sound u profile (dict es) h =
    let (kind, found, h1) =
      and_then-some (get_or (dict es) (codes "PayloadType") other)
        (check_payload u (dict profile) (dict es)) true h in
    let (name, named, h2) =
      and_then-some (get_or (dict profile) (codes "PayloadIdentifier") (string []))
        (check_managed u (dict es) kind) true h1 in
    let (both, h3) = given-some (is_managed kind name) _ true h2 in
    let (managed, prefixed) = &&-eq-true (is_text kind (codes "com.apple.relay.managed")) _ both in
    let (relays, listed, h4) =
      and_then-some (get_or (dict es) (codes "Relays") empty_array) (check_relays u) true h3 in
    let (identifier, is, p) = is_prefixed_sound name (codes "org.openvpn.apple-relay.") prefixed in
    (
      es,
      refl,
      payload_parts u profile es relays listed h4 (
          entry_found es (codes "PayloadType") other kind
            (λ v. is_text v (codes "com.apple.relay.managed") ≡ true) found managed
            (λ e. ground arith)
          ∙ ap some (is_text_sound kind _ managed)),
      (
        identifier,
        entry_found profile (codes "PayloadIdentifier") (string []) name
              (λ v. is_prefixed v (codes "org.openvpn.apple-relay.") ≡ true) named prefixed
              (λ e. ground arith)
            ∙ ap some is,
        p,
      ),
    )

profile_accepted_sound :
    (u : Text) (profile : Plist)
    → profile_accepted u profile ≡ some true
    → (es : Entries) × (profile ≡ dict es) × IsRelayProfile u es
unfolding profile_accepted
profile_accepted_sound u (array vs) h = absurd (ground arith)
profile_accepted_sound u (string s) h = absurd (ground arith)
profile_accepted_sound u other h = absurd (ground arith)
profile_accepted_sound u (dict es) h =
    let (payloads, found, h1) =
      and_then-some (get_or (dict es) (codes "PayloadContent") empty_array)
        (check_payloads u (dict es)) true h in
    let (kind, typed, h2) =
      and_then-some (get_or (dict es) (codes "PayloadType") other) (check_kind u (dict es) payloads)
        true h1 in
    let (configuration, h3) = given-some (is_text kind (codes "Configuration")) _ true h2 in
    let (payload, one, h4) =
      and_then-some (only_item payloads) (payload_accepted u (dict es)) true h3 in
    let (ps, is, relay, named) = payload_accepted_sound u es payload h4 in
    let listed = only_item_sound payloads payload one ∙ ap (λ v. array (item v no_items)) is in
    (
      es,
      refl,
      record {
        kind =
            entry_found es (codes "PayloadType") other kind
              (λ v. is_text v (codes "Configuration") ≡ true) typed configuration
              (λ e. ground arith)
            ∙ ap some (is_text_sound kind _ configuration);
        named = named;
        payload = ps;
        one_payload =
            entry_found es (codes "PayloadContent") empty_array payloads
              (λ v. v ≡ array (item (dict ps) no_items)) found listed (no_array (dict ps))
            ∙ ap some listed;
        relay_payload = relay;
      },
    )

-- What passes the checks of `sign` is at most 128 KiB long and is the canonical print of the profile
-- that is read from it, a configuration with one payload: a managed relay with an identifier of this
-- application, which has an address, and no other than those below the configured one.
pub accepts_sound :
    (loads : Text → Option Plist) (dumps : Plist → Text) (relay_url content : Text)
    → accepts loads dumps relay_url content ≡ some true
    → (length content ≤ max_profile)
      × ((profile : Entries) × (loads content ≡ some (dict profile))
          × (dumps (dict profile) ≡ content)
          × IsRelayProfile relay_url profile)
unfolding accepts
accepts_sound loads dumps u content h =
    let (short, h1) = given-some (not (ltb max_profile (length content))) _ true h in
    let (profile, loaded, h2) =
      and_then-some (loads content) (check_canonical loads dumps u content) true h1 in
    let (same, h3) = given-some (text_eq (dumps profile) content) _ true h2 in
    let (es, is, ok) = profile_accepted_sound u profile h3 in
    (
      ground arith,
      (es, loaded ∙ ap some is, ap dumps (sym is) ∙ text_eq_sound (dumps profile) content same, ok),
    )
