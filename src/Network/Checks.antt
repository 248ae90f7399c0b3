-- ===== src/Network/Checks.antt =====
-- ui/app/network.py: validate_addressing, validate_gateway and validate_guest_link. `none` is a
-- PkiError, or the ValueError of a static address that cannot be read.
use openvpn_server.Base.{
  ℕ, ◌+◌, Bool, true, false, not, ◌&&◌, ◌||◌, Option, none, some, List, [], ◌∷◌, ◌++◌, map, Text,
  codes, text_eq, nonempty, if◌then◌else◌, ltb, leb, ◌==◌, any, length, is_digit, strip, is_space,
  starts_with, coalesce, given, and_then, each,
}
use openvpn_server.Pki.Addresses.{Net, broadcast, in_net, is_reserved_in}
use openvpn_server.Network.Settings.{
  Service, GuestLink, Gateway, NetworkSettings, Url, Parsers, is_unsafe, search, is_set, all,
  ends_with, unique, hostname, cidrs, host_port, portal_listener, backend_url, validate_url,
}

-- The addresses that were read.
pub record Plan : Type 0 where
  pub net : Net
  pub guest : Net
  pub first : ℕ
  pub last : ℕ

-- `a.subnet_of(b)`
abbrev pub subnet_of : Net → Net → Bool
subnet_of a b = leb b.base a.base && leb (broadcast a) (broadcast b)

-- The tests of `validate_addressing`, each the negation of one that raises.
unfoldable pub is_plan : Plan → Bool
is_plan p =
    (leb p.net.prefix 28
      && (subnet_of p.guest p.net && (ltb p.net.prefix p.guest.prefix && leb p.guest.prefix 30)))
    && ((ltb (p.net.base + 1) p.first && (leb p.first p.last && ltb p.last (broadcast p.net)))
        && (not (leb p.first (broadcast p.guest) && leb p.guest.base p.last)
            && not (in_net (p.net.base + 1) p.guest)))

-- A static address that the networks leave usable.
unfoldable pub fits : Plan → ℕ → Bool
fits p a = not (
    not (in_net a p.net)
    || (in_net a p.guest || ((leb p.first a && leb a p.last) || is_reserved_in a p.net)))

-- `not xs`
abbrev pub is_empty : List Text → Bool
is_empty [] = true
is_empty (x ∷ xs) = false

module _ (py : Parsers) where
  unfoldable pub read_plan : NetworkSettings → Option Plan
  read_plan d = and_then (py.read_net d.vpn_subnet) (λ net.
      and_then (py.read_net d.guest_subnet) (λ guest. and_then (py.read_ip d.pool_first) (λ first.
        and_then (py.read_ip d.pool_last)
          (λ last. some (record { net = net; guest = guest; first = first; last = last })))))

  -- The loop over the static addresses.
  unfoldable pub check_static : Plan → List Text → Bool
  check_static p [] = true
  check_static p (ip ∷ ips) = elim (py.read_ip ip) [
    | none ↦ false
    | some a ↦ fits p a && check_static p ips
  ]

  abbrev pub with_plan : Plan → List ℕ → NetworkSettings → NetworkSettings
  with_plan p dns d = record d {
    vpn_subnet = py.show_net p.net;
    guest_subnet = py.show_net p.guest;
    pool_first = py.show_ip p.first;
    pool_last = py.show_ip p.last;
    dns_servers = unique (map py.show_ip dns);
  }

  unfoldable pub validate_addressing : List Text → NetworkSettings → Option NetworkSettings
  validate_addressing static_ips d = and_then (read_plan d) (λ p. given (is_plan p) (
      and_then (each py.read_ip d.dns_servers) (λ dns. given (check_static p static_ips) (
        and_then (cidrs py true d.routes) (λ routes.
          and_then (cidrs py false d.proxy_cidrs) (λ proxies.
            given (not (is_empty proxies))
              (some (record (with_plan p dns d) { routes = routes; proxy_cidrs = proxies }))))))))

  -- A setting that is checked only where it is set.
  abbrev pub checked : (Text → Option Text) → Text → Option Text
  checked check value = if nonempty value then check value else some value

  -- A name that guests may be sent to: below the domain, and not one of the reserved.
  abbrev pub is_linkable : Text → List Text → Text → Bool
  is_linkable domain reserved host =
      (nonempty domain && ends_with host (b'.' ∷ domain))
      && not (any (λ h. text_eq h host) reserved)

  abbrev pub is_plain_https : Text → Url → Option ℕ → Bool
  is_plain_https raw url port =
      text_eq url.scheme (codes "https")
      && ((elim port [ none ↦ true | some n ↦ n == 443 ])
          && (not (is_set url.username)
              && (not (is_set url.password) && not (search is_unsafe raw))))

  unfoldable pub validate_guest_link : Text → List Text → GuestLink → Option GuestLink
  validate_guest_link domain reserved link =
      let raw = strip is_space link.url in
      and_then (py.urlsplit raw) (λ url. and_then (hostname py (coalesce url.hostname [])) (λ host.
        and_then url.port (λ port. given (is_plain_https raw url port) (
          given (is_linkable domain reserved host) (
            some (record link {
              url =
                  py.urlunsplit (codes "https") host
                    (if nonempty url.path then url.path else codes "/") url.query url.fragment;
            }))))))

  -- [a-z][a-z0-9-]{0,39}
  abbrev pub is_service_name : Text → Bool
  is_service_name [] = false
  is_service_name (c ∷ s) =
      (leb b'a' c && leb c b'z')
      && (leb (length s) 39 && all (λ d. (leb b'a' d && leb d b'z') || (is_digit d || d == b'-')) s)

  abbrev pub is_path : Text → Bool
  is_path p = starts_with p (codes "/") && not (search is_unsafe p)

  abbrev pub all_paths : List Text → Bool
  all_paths [] = true
  all_paths (p ∷ ps) = is_path p && all_paths ps

  -- The loop over the services, with the names that it has seen.
  unfoldable pub validate_services : List Text → List Text → List Service → Option (List Service)
  validate_services reserved names [] = some []
  validate_services reserved names (s ∷ services) =
      given (is_service_name s.name && not (any (λ n. text_eq n s.name) names)) (
        and_then (hostname py s.host) (λ host. and_then (backend_url py s.url) (λ url.
          given (not (any (λ h. text_eq h host) reserved) && all_paths s.paths) (
            and_then (validate_services reserved (s.name ∷ names) services)
              (λ rest. some (record s { host = host; url = url } ∷ rest))))))

  unfoldable pub validate_hosts : Gateway → Option Gateway
  validate_hosts g = and_then (checked (hostname py) g.domain) (λ domain.
      and_then (checked (hostname py) g.openvpn_host) (λ openvpn_host.
        and_then (checked (hostname py) g.relay_host) (λ relay_host.
          some
            (record g { domain = domain; openvpn_host = openvpn_host; relay_host = relay_host }))))

  unfoldable pub validate_targets : Gateway → Option Gateway
  validate_targets g = and_then (checked (backend_url py) g.openvpn_backend) (λ openvpn_backend.
      and_then (checked host_port g.relay_backend) (λ relay_backend.
        and_then (checked (validate_url py) g.relay_public_url) (λ relay_public_url.
          and_then (checked (portal_listener py) g.portal_listener) (λ listener.
            given (not (nonempty listener) || nonempty g.openvpn_host) (
              and_then (cidrs py false g.trusted_cidrs) (λ trusted. some (record g {
                openvpn_backend = openvpn_backend;
                relay_backend = relay_backend;
                relay_public_url = relay_public_url;
                portal_listener = listener;
                trusted_cidrs = trusted;
              })))))))

  -- The website and the dashboard.
  abbrev pub reserved_hosts : Gateway → List Text
  reserved_hosts g = g.openvpn_host ∷ (codes "dashboard." ++ g.domain) ∷ []

  abbrev pub has_services : List Service → Bool
  has_services [] = false
  has_services (s ∷ services) = true

  unfoldable pub validate_sites : Gateway → Option Gateway
  validate_sites g =
      and_then (each (validate_guest_link g.domain (g.relay_host ∷ reserved_hosts g)) g.guest_links)
        (λ links. and_then (validate_services (reserved_hosts g) [] g.services) (λ services.
          some (record g {
            guest_links = links;
            services = services;
            replace_services = has_services services || g.replace_services;
          })))

  unfoldable pub validate_gateway : Gateway → Option Gateway
  validate_gateway g =
      and_then (validate_hosts g) (λ hosts. and_then (validate_targets hosts) validate_sites)

  unfoldable pub validate : List Text → NetworkSettings → Option NetworkSettings
  validate static_ips body = and_then (validate_addressing static_ips body) (λ settings.
      and_then (validate_gateway settings.gateway)
        (λ gateway. some (record settings { gateway = gateway })))
