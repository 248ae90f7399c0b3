-- ===== src/Network/Sites.antt =====
-- ui/app/network.py: what an accepted gateway guarantees about its services and the guests' links.
use openvpn_server.Base.{
  ◌≡◌, inl, inr, sym, ap, ◌∙◌, subst, true, false, not, ◌&&◌, ◌||◌, Option, some, some_eq, List, [],
  ◌∷◌, arith, Text, codes, text_eq, nonempty, any, Member, given-some, and_then-some, each,
  coalesce, strip, is_space,
}
use openvpn_server.Network.Settings.{
  Service, GuestLink, Gateway, Parsers, hostname, cidrs, host_port, portal_listener, backend_url,
  validate_url,
}
use openvpn_server.Network.Checks.{
  checked, is_linkable, is_plain_https, validate_guest_link, is_service_name, all_paths,
  validate_services, validate_hosts, validate_targets, reserved_hosts, validate_sites, has_services,
  validate_gateway,
}

-- A link of the guests leads over HTTPS to a site below the domain that is not reserved.
abbrev pub IsLinked : Parsers → Text → List Text → GuestLink → Type 0
IsLinked py domain reserved link =
    (host : Text) × (path : Text) × (query : Text) × (fragment : Text) × (link.url
      ≡ py.urlunsplit (codes "https") host path query fragment)
    × (is_linkable py domain reserved host ≡ true)

guest_link_sound :
    (py : Parsers) (domain : Text) (reserved : List Text) (link link' : GuestLink)
    → validate_guest_link py domain reserved link ≡ some link'
    → IsLinked py domain reserved link'
unfolding validate_guest_link
guest_link_sound py domain reserved link link' h =
    let (url, read, h1) = and_then-some (py.urlsplit (strip is_space link.url)) _ link' h in
    let (host, named, h2) = and_then-some (hostname py (coalesce url.hostname [])) _ link' h1 in
    let (port, at, h3) = and_then-some url.port _ link' h2 in
    let (plain, h4) =
      given-some (is_plain_https py (strip is_space link.url) url port) _ link' h3 in
    let (fine, h5) = given-some (is_linkable py domain reserved host) _ link' h4 in
    (host, _, _, _, ap (λ l. l.url) (sym (some_eq h5)), fine)

Member-each :
    {A : Type 0} {B : Type 0} (f : A → Option B) (xs : List A) (ys : List B) (y : B)
    → each f xs ≡ some ys
    → Member y ys
    → (x : A) × (f x ≡ some y)
unfolding each
Member-each f [] ys y h m = elim (subst (Member y) (sym (some_eq h)) m) [ ]
Member-each f (x ∷ xs) ys y h m =
    let (b, first, h1) = and_then-some (f x) _ ys h in
    let (bs, rest, h2) = and_then-some (each f xs) _ ys h1 in
    elim (subst (Member y) (sym (some_eq h2)) m) [
      | inl is ↦ (x, first ∙ ap some (sym is))
      | inr later ↦ Member-each f xs bs y rest later
    ]

-- A service has a name of its own and a host that is not reserved.
abbrev pub AreServed : List Text → List Text → List Service → Type 0
AreServed reserved names [] = Unit
AreServed reserved names (s ∷ services) =
    (any (λ n. text_eq n s.name) names ≡ false)
    × (any (λ h. text_eq h s.host) reserved ≡ false)
    × AreServed reserved (s.name ∷ names) services

services_sound :
    (py : Parsers) (reserved names : List Text) (services checked_ : List Service)
    → validate_services py reserved names services ≡ some checked_
    → AreServed reserved names checked_
unfolding validate_services
services_sound py reserved names [] out h = subst (AreServed reserved names) (some_eq h) tt
services_sound py reserved names (s ∷ services) out h =
    let (named, h1) =
      given-some (is_service_name py s.name && not (any (λ n. text_eq n s.name) names)) _ out h in
    let (host, hosted, h2) = and_then-some (hostname py s.host) _ out h1 in
    let (url, reached, h3) = and_then-some (backend_url py s.url) _ out h2 in
    let (away, h4) =
      given-some (not (any (λ h. text_eq h host) reserved) && all_paths py s.paths) _ out h3 in
    let (rest, others, h5) =
      and_then-some (validate_services py reserved (s.name ∷ names) services) _ out h4 in
    subst (AreServed reserved names) (some_eq h5)
      (ground arith, ground arith, services_sound py reserved (s.name ∷ names) services rest others)

-- What holds of an accepted gateway.
abbrev pub IsGateway : Parsers → Gateway → Type 0
IsGateway py g =
    ((nonempty g.portal_listener ≡ true) → (nonempty g.openvpn_host ≡ true))
    × ((link : GuestLink)
        → Member link g.guest_links
        → IsLinked py g.domain (g.relay_host ∷ reserved_hosts py g) link)
    × AreServed (reserved_hosts py g) [] g.services
    × ((has_services py g.services ≡ true) → (g.replace_services ≡ true))

sites_sound :
    (py : Parsers) (g g' : Gateway)
    → validate_sites py g ≡ some g'
    → ((nonempty g.portal_listener ≡ true) → (nonempty g.openvpn_host ≡ true))
    → IsGateway py g'
unfolding validate_sites
sites_sound py g g' h listens =
    let (links, linked, h1) =
      and_then-some
        (each (validate_guest_link py g.domain (g.relay_host ∷ reserved_hosts py g)) g.guest_links)
        _ g' h in
    let (services, served, h2) =
      and_then-some (validate_services py (reserved_hosts py g) [] g.services) _ g' h1 in
    subst (IsGateway py) (some_eq h2) (
      listens,
      λ link m.
          let (old, e) = Member-each _ g.guest_links links link linked m in
          guest_link_sound py g.domain (g.relay_host ∷ reserved_hosts py g) old link e,
      services_sound py (reserved_hosts py g) [] g.services services served,
      λ e. ap (λ b. b || g.replace_services) e,
    )

targets_listen :
    (py : Parsers) (g g' : Gateway)
    → validate_targets py g ≡ some g'
    → nonempty g'.portal_listener ≡ true
    → nonempty g'.openvpn_host ≡ true
unfolding validate_targets
targets_listen py g g' h =
    let (backend, e1, h1) = and_then-some (checked py (backend_url py) g.openvpn_backend) _ g' h in
    let (relay, e2, h2) = and_then-some (checked py host_port g.relay_backend) _ g' h1 in
    let (url, e3, h3) = and_then-some (checked py (validate_url py) g.relay_public_url) _ g' h2 in
    let (listener, e4, h4) =
      and_then-some (checked py (portal_listener py) g.portal_listener) _ g' h3 in
    let (named, h5) = given-some (not (nonempty listener) || nonempty g.openvpn_host) _ g' h4 in
    let (trusted, e5, h6) = and_then-some (cidrs py false g.trusted_cidrs) _ g' h5 in
    subst (λ (x : Gateway). nonempty x.portal_listener ≡ true → nonempty x.openvpn_host ≡ true)
      (some_eq h6) (λ e. ground arith)

-- In an accepted gateway the guests' listener comes with a website, each link of the guests leads over
-- HTTPS to a site below the domain that is neither the website, the dashboard nor the relay, and each
-- service has a name of its own and a host that is neither the website nor the dashboard; the
-- services then replace those of the gateway.
pub validate_gateway_sound :
    (py : Parsers) (g g' : Gateway) → validate_gateway py g ≡ some g' → IsGateway py g'
unfolding validate_gateway
validate_gateway_sound py g g' h =
    let (hosts, e1, h1) = and_then-some (validate_hosts py g) _ g' h in
    let (targets, e2, h2) = and_then-some (validate_targets py hosts) _ g' h1 in
    sites_sound py targets g' h2 (targets_listen py hosts targets e2)
