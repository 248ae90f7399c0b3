-- ===== src/Network/Addressing.antt =====
-- ui/app/network.py: what accepted network settings guarantee about addresses.
use openvpn_server.Base.{
  ℕ, ◌+◌, ◌≡◌, ◌≢◌, ◌≤◌, ◌<◌, ◌⊎◌, true, false, some, List, [], arith, Text, leb, Member,
}
use openvpn_server.Pki.Addresses.{in_net, is_reserved_in}
use openvpn_server.Network.Settings.{NetworkSettings, Parsers}
use openvpn_server.Network.Checks.{Plan, read_plan}

-- The pool, the guests' range, and the server's own and reserved addresses have none in common.
abbrev pub IsApart : Plan → Type 0
IsApart p =
    ((a : ℕ)
      → p.first ≤ a
      → a ≤ p.last
      → (in_net a p.net ≡ true) × (in_net a p.guest ≡ false) × (is_reserved_in a p.net ≡ false))
    × ((a : ℕ) → in_net a p.guest ≡ true → (in_net a p.net ≡ true) × (a ≢ p.net.base + 1))
    × (p.first ≤ p.last)

-- A client's static address is in the network, and neither a guest's nor one of the pool's nor reserved.
abbrev pub IsFree : Plan → ℕ → Type 0
IsFree p a =
    (in_net a p.net ≡ true)
    × (in_net a p.guest ≡ false)
    × (is_reserved_in a p.net ≡ false)
    × ((a < p.first) ⊎ (p.last < a))

leb_of : (a b : ℕ) → a ≤ b → leb a b ≡ true
leb_of a b h = ground arith

-- What accepted settings hold of the plan that was read.
abbrev pub IsAddressed : Parsers → List Text → NetworkSettings → NetworkSettings → Type 0
IsAddressed py static_ips d d' =
    (p : Plan) × (read_plan py d ≡ some p)
    × (d'.vpn_subnet ≡ py.show_net p.net)
    × (d'.guest_subnet ≡ py.show_net p.guest)
    × (d'.pool_first ≡ py.show_ip p.first)
    × (d'.pool_last ≡ py.show_ip p.last)
    × IsApart p
    × ((ip : Text) → Member ip static_ips → (a : ℕ) × (py.read_ip ip ≡ some a) × IsFree p a)
    × (d'.proxy_cidrs ≢ [])
