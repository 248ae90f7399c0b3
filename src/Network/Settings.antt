-- ===== src/Network/Settings.antt =====
-- ui/app/network.py: the settings' data, and the helpers that check one value. Python's `ipaddress`
-- and `urllib.parse` are parameters.
use openvpn_server.Base.{
  ℕ, ◌-◌, Bool, true, false, not, ◌&&◌, ◌||◌, Option, none, some, List, [], ◌∷◌, ◌++◌, Text, codes,
  text_eq, nonempty, leb, ◌==◌, any, length, drop, is_space, is_digit, isdigit, digits_value, strip,
  rstrip, rpartition, split, str_of, coalesce, is_some, given, and_then, each, delete_where,
}
use openvpn_server.Pki.Addresses.{Net}

pub record Service : Type 0 where
  pub name : Text
  pub host : Text
  pub url : Text
  pub public_ : Bool
  pub paths : List Text
  pub insecure_tls : Bool

pub record GuestLink : Type 0 where
  pub url : Text
  pub whole_site : Bool

pub record Gateway : Type 0 where
  pub domain : Text
  pub openvpn_host : Text
  pub openvpn_backend : Text
  pub relay_host : Text
  pub relay_backend : Text
  pub relay_public_url : Text
  pub portal_listener : Text
  pub trusted_cidrs : List Text
  pub guest_links : List GuestLink
  pub replace_services : Bool
  pub services : List Service

pub record NetworkSettings : Type 0 where
  pub vpn_subnet : Text
  pub pool_first : Text
  pub pool_last : Text
  pub guest_subnet : Text
  pub dns_servers : List Text
  pub routes : List Text
  pub proxy_cidrs : List Text
  pub gateway : Gateway

-- A network of either IP version.
pub record AnyNet : Type 0 where
  pub version : ℕ
  pub prefixlen : ℕ
  pub text : Text

-- The parts of a URL. A port is `none` where reading it is a ValueError.
pub record Url : Type 0 where
  pub scheme : Text
  pub hostname : Option Text
  pub port : Option (Option ℕ)
  pub username : Option Text
  pub password : Option Text
  pub path : Text
  pub query : Text
  pub fragment : Text

-- What the standard library reads and writes; `none` is a ValueError.
pub record Parsers : Type 0 where
  pub read_ip : Text → Option ℕ
  pub show_ip : ℕ → Text
  pub read_net : Text → Option Net
  pub show_net : Net → Text
  pub network : Text → Option AnyNet
  pub urlsplit : Text → Option Url
  pub urlunsplit : Text → Text → Text → Text → Text → Text
  pub lower : Text → Text
  -- the first byte, and is_loopback, is_link_local, is_multicast or is_reserved
  pub first_byte : ℕ → ℕ
  pub is_special : ℕ → Bool

abbrev pub is_alnum : ℕ → Bool
is_alnum c = (leb b'a' c && leb c b'z') || is_digit c

abbrev pub is_label_code : ℕ → Bool
is_label_code c = is_alnum c || c == b'-'

abbrev pub all : (ℕ → Bool) → Text → Bool
all test [] = true
all test (c ∷ s) = test c && all test s

abbrev pub ends_alnum : Text → Bool
ends_alnum [] = false
ends_alnum (c ∷ []) = is_alnum c
ends_alnum (c ∷ d ∷ s) = ends_alnum (d ∷ s)

-- [a-z0-9](?:[a-z0-9-]{0,61}[a-z0-9])?
abbrev pub is_label : Text → Bool
is_label [] = false
is_label (c ∷ s) = is_alnum c && (leb (length s) 62 && (all is_label_code s && ends_alnum (c ∷ s)))

abbrev pub all_labels : List Text → Bool
all_labels [] = true
all_labels (l ∷ ls) = is_label l && all_labels ls

-- HOSTNAME.fullmatch: two labels or more.
unfoldable pub is_hostname : Text → Bool
is_hostname s = leb 2 (length (split s b'.')) && all_labels (split s b'.')

-- UNSAFE
abbrev pub is_unsafe : ℕ → Bool
is_unsafe c = is_space c || (c == b'`' || (c == b'{' || (c == b'}' || c == b'\\')))

abbrev pub search : (ℕ → Bool) → Text → Bool
search test s = any test s

abbrev pub is_set : Option Text → Bool
is_set o = nonempty (coalesce o [])

-- `host.endswith(suffix)`
abbrev pub ends_with : Text → Text → Bool
ends_with s suffix =
    leb (length suffix) (length s) && text_eq (drop (length s - length suffix) s) suffix

-- `dict.fromkeys`
unfoldable pub unique : List Text → List Text
unique [] = []
unique (x ∷ xs) = x ∷ delete_where (λ y. text_eq y x) (unique xs)

-- [\s{}\\]
abbrev pub is_brace : ℕ → Bool
is_brace c = is_space c || (c == b'{' || (c == b'}' || c == b'\\'))

abbrev pub is_zero_port : Option ℕ → Bool
is_zero_port none = false
is_zero_port (some n) = n == 0

module _ (py : Parsers) where
  unfoldable pub hostname : Text → Option Text
  hostname value =
      let host = rstrip (λ c. c == b'.') (py.lower (strip is_space value)) in
      given (leb (length host) 253 && is_hostname host) (some host)

  -- One network of `cidrs`.
  unfoldable pub cidr : Bool → Text → Option Text
  cidr ipv4 value =
      and_then (py.network (strip is_space value)) (λ net.
        given (not (net.prefixlen == 0 || (ipv4 && not (net.version == 4)))) (some net.text))

  unfoldable pub cidrs : Bool → List Text → Option (List Text)
  cidrs ipv4 values = and_then (each (cidr ipv4) values) (λ nets. some (unique nets))

-- The number of a port; `int` of digits.
abbrev pub port_of : Text → ℕ
port_of port = coalesce (digits_value false 0 port) 0

abbrev pub is_not_host : ℕ → Bool
is_not_host c = is_unsafe c || (c == b'/' || (c == b'@' || (c == b'?' || c == b'#')))

unfoldable pub host_port : Text → Option Text
host_port value =
    let (host, found, port) = rpartition value b':' in
    given
      (nonempty host
        && (isdigit port
            && (leb 1 (port_of port)
                && (leb (port_of port) 65535 && not (search is_not_host host)))))
      (some (host ++ b':' ∷ str_of (port_of port)))

module _ (py : Parsers) where
  unfoldable pub portal_listener : Text → Option Text
  portal_listener value =
      let (host, found, port) = rpartition value b':' in
      and_then (py.read_ip host) (λ ip.
        given
          (isdigit port
            && (leb 1024 (port_of port)
                && (leb (port_of port) 65535 && not (py.first_byte ip == 0 || py.is_special ip))))
          (some (py.show_ip ip ++ b':' ∷ str_of (port_of port))))

  unfoldable pub backend_url : Text → Option Text
  backend_url value = and_then (py.urlsplit value) (λ url.
      given
        ((text_eq url.scheme (codes "http") || text_eq url.scheme (codes "https"))
          && (is_set url.hostname
              && (not (is_set url.username)
                  && (not (is_set url.password)
                      && (not (search is_unsafe value) && is_some url.port)))))
        (some value))

  -- relay.py: `validate_url`
  unfoldable pub validate_url : Text → Option Text
  validate_url value =
      let url = rstrip (λ c. c == b'/') (strip is_space value) in
      and_then (py.urlsplit url) (λ parsed. and_then parsed.port (λ port.
        given
          (text_eq parsed.scheme (codes "https")
            && (is_set parsed.hostname
                && (not (is_some parsed.username)
                    && (not (is_some parsed.password)
                        && (not (nonempty parsed.query)
                            && (not (nonempty parsed.fragment)
                                && (not (nonempty parsed.path)
                                    && (not (is_zero_port port) && not (search is_brace url)))))))))
          (some url)))
