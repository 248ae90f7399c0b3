-- ===== src/Pki/Addresses.antt =====
-- ui/app/pki.py: static addresses and guests. Python's `ipaddress` is a parameter that reads
-- addresses as numbers and networks as their first address and prefix length.
use openvpn_server.Base.{
  ℕ, ◌+◌, ◌-◌, ◌^◌, Bool, false, not, ◌&&◌, ◌||◌, Option, none, some, List, [], ◌∷◌, Text, text_eq,
  nonempty, if◌then◌else◌, ◌==◌, leb, any, delete_where,
}
use openvpn_server.Pki.Names.{is_valid_name}

pub record Net : Type 0 where
  pub base : ℕ
  pub prefix : ℕ

abbrev pub broadcast : Net → ℕ
broadcast n = n.base + 2 ^ (32 - n.prefix) - 1

-- `addr in net`
abbrev pub in_net : ℕ → Net → Bool
in_net a n = leb n.base a && leb a (broadcast n)

-- The network's first address, the server's own, and the broadcast address.
abbrev pub is_reserved_in : ℕ → Net → Bool
is_reserved_in a n = a == n.base || (a == n.base + 1 || a == broadcast n)

-- `vpn_subnet()`: the server network and its pool; no pool is (0, -1) in the code.
pub record Subnet : Type 0 where
  pub net : Net
  pub pool : Option (ℕ × ℕ)

abbrev pub in_pool : ℕ → Option (ℕ × ℕ) → Bool
in_pool a none = false
in_pool a (some (first, last)) = leb first a && leb a last

-- The files below staticclients/ and guests/, and what the address checks read of the settings.
pub record Files : Type 0 where
  -- the address in each file of staticclients/
  pub static_ips : List (Text × Text)
  pub guests : List Text
  pub subnet : Option Subnet
  pub guest_net : Option Net

pub data Problem : Type 0 where
  invalid_address not_in_subnet in_dynamic_pool in_guest_range_problem : Problem
  assigned_to : Text → Problem

module _ (read_ip : Text → Option ℕ) where
  unfoldable pub in_guest_range : Files → Text → Bool
  in_guest_range f ip = nonempty ip && (elim (read_ip ip) [
    | none ↦ false
    | some a ↦ (elim f.guest_net [ none ↦ false | some n ↦ in_net a n ])
  ])

-- next((n for n, a in static_ips().items() if a == ip and n != name), None)
unfoldable pub other_owner : Text → Text → List (Text × Text) → Option Text
other_owner name ip [] = none
other_owner name ip ((n, a) ∷ rest) =
    if text_eq a ip && not (text_eq n name) then some n else other_owner name ip rest

unfoldable pub subnet_problem : ℕ → Option Subnet → Option Problem
subnet_problem a none = none
subnet_problem a (some s) =
    if not (in_net a s.net) || is_reserved_in a s.net
    then some not_in_subnet
    else if in_pool a s.pool
    then some in_dynamic_pool
    else none

abbrev pub first_problem : Option Problem → Option Problem → Option Problem
first_problem none p = p
first_problem (some q) p = some q

abbrev owner_problem : Option Text → Option Problem
owner_problem none = none
owner_problem (some n) = some (assigned_to n)

module _ (read_ip : Text → Option ℕ) where
  unfoldable pub address_problem : Files → Text → Text → Option ℕ → Option Problem
  unfolding other_owner
  address_problem f name ip none = some invalid_address
  address_problem f name ip (some a) = first_problem (subnet_problem a f.subnet) (
      if in_guest_range read_ip f ip
      then some in_guest_range_problem
      else owner_problem (other_owner name ip f.static_ips))

  unfoldable pub static_ip_problem : Files → Text → Text → Option Problem
  static_ip_problem f name ip = address_problem f name ip (read_ip ip)

-- Writes staticclients/<name>.
unfoldable pub put_static : Text → Text → List (Text × Text) → List (Text × Text)
put_static name ip [] = (name, ip) ∷ []
put_static name ip ((n, a) ∷ rest) =
    if text_eq n name then (n, ip) ∷ rest else (n, a) ∷ put_static name ip rest

abbrev pub remove_static : Text → List (Text × Text) → List (Text × Text)
remove_static name = delete_where (λ e. text_eq e.0 name)

abbrev pub is_listed : Text → List Text → Bool
is_listed name = any (λ g. text_eq g name)

-- What `set_static_ip` and `set_guest` do; `none` is a PkiError.
module _ (read_ip : Text → Option ℕ) where
  -- A missing or empty address removes the static one.
  unfoldable pub set_static_ip : Text → Text → Files → Option Files
  set_static_ip name ip f =
      if not (is_valid_name name)
      then none
      else if nonempty ip && is_listed name f.guests
      then none
      else if not (nonempty ip)
      then some (record f { static_ips = remove_static name f.static_ips })
      else (elim (static_ip_problem read_ip f name ip) [
        | some problem ↦ none
        | none ↦ some (record f { static_ips = put_static name ip f.static_ips })
      ])

unfoldable pub set_guest : Text → Bool → Files → Option Files
set_guest name guest f =
    if not (is_valid_name name)
    then none
    else if guest
    then some (record f {
      static_ips = remove_static name f.static_ips;
      guests = if is_listed name f.guests then f.guests else name ∷ f.guests;
    })
    else some (record f { guests = delete_where (λ g. text_eq g name) f.guests })
