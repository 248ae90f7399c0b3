-- ===== src/Tests/Networks.antt =====
-- ui/app/network.py: settings that are accepted, and the theorems about them.
use openvpn_server.Base.{
  ℕ, refl, true, false, none, some, [], ◌∷◌, ◌++◌, Text, codes, text_eq, Option, if◌then◌else◌,
  each, split, lstrip, rstrip, strip,
}
use openvpn_server.Pki.Addresses.{Net}
use openvpn_server.Network.Settings.{
  Service, Gateway, NetworkSettings, Parsers, is_hostname, unique, hostname, cidrs, backend_url,
}
use openvpn_server.Network.Checks.{
  validate_guest_link, validate_services, validate_hosts, validate_targets, validate_sites,
  validate_gateway,
}
use openvpn_server.Network.Sites.{IsGateway, validate_gateway_sound}

-- Addresses and networks by a letter each.
abbrev read_ip : Text → Option ℕ
read_ip t =
    if text_eq t (codes "f")
    then some 100
    else if text_eq t (codes "l")
    then some 150
    else if text_eq t (codes "s")
    then some 200
    else none

abbrev show_ip : ℕ → Text
show_ip n = if text_eq (n ∷ []) (100 ∷ []) then codes "f" else codes "l"

abbrev read_net : Text → Option Net
read_net t =
    if text_eq t (codes "v")
    then some (record { base = 0; prefix = 24 })
    else if text_eq t (codes "g")
    then some (record { base = 240; prefix = 28 })
    else none

abbrev py : Parsers
py = record {
  read_ip = read_ip;
  show_ip = show_ip;
  read_net = read_net;
  show_net = λ n. if text_eq (n.prefix ∷ []) (24 ∷ []) then codes "v" else codes "g";
  network = λ t. some (record { version = 4; prefixlen = 8; text = t });
  urlsplit = λ t. some (record {
    scheme = codes "https";
    hostname = some (codes "wiki.a.de");
    port = some none;
    username = none;
    password = none;
    path = [];
    query = [];
    fragment = [];
  });
  urlunsplit = λ scheme host path query fragment. scheme ++ codes "://" ++ host ++ path;
  lower = λ t. t;
  first_byte = λ n. 192;
  is_special = λ n. false;
}

abbrev service : Service
service = record {
  name = codes "git";
  host = codes "git.a.de";
  url = codes "https://x";
  public_ = false;
  paths = [];
  insecure_tls = false;
}

abbrev gateway : Gateway
gateway = record {
  domain = codes "a.de";
  openvpn_host = codes "vpn.a.de";
  openvpn_backend = [];
  relay_host = [];
  relay_backend = [];
  relay_public_url = [];
  portal_listener = [];
  trusted_cidrs = [];
  guest_links = (record { url = codes "https://wiki.a.de"; whole_site = true }) ∷ [];
  replace_services = false;
  services = service ∷ [];
}

abbrev gateway_after : Gateway
gateway_after = record gateway {
  guest_links = (record { url = codes "https://wiki.a.de/"; whole_site = true }) ∷ [];
  replace_services = true;
}

abbrev settings : NetworkSettings
settings = record {
  vpn_subnet = codes "v";
  pool_first = codes "f";
  pool_last = codes "l";
  guest_subnet = codes "g";
  dns_servers = [];
  routes = [];
  proxy_cidrs = codes "p" ∷ [];
  gateway = gateway;
}

validate_gateway_sound_example : IsGateway py gateway_after
unfolding validate_gateway validate_hosts validate_targets validate_sites validate_services
    validate_guest_link each hostname is_hostname cidrs unique backend_url split text_eq strip
    lstrip rstrip
validate_gateway_sound_example = validate_gateway_sound py gateway gateway_after refl
