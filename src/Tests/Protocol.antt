-- ===== src/Tests/Protocol.antt =====
-- ui/app/mgmt.py: a command on a connection that ends too early, and the theorems about it.
use openvpn_server.Base.{
  true, ◌≡◌, ℕ, pos, arith, contains_code, refl, some, [], ◌∷◌, ◌++◌, List, Text, codes,
  starts_with, text_eq,
}
use openvpn_server.Collector.State.{Client}
use openvpn_server.Mgmt.Wire.{Wire, received}
use openvpn_server.Mgmt.Framing.{AgreesAfter, wire_answer-lines}
use openvpn_server.Mgmt.Status.{put_named, parse_status}
use openvpn_server.Mgmt.Fields.{stats_of, Route, tabs, print_status, row_of}
use openvpn_server.Mgmt.Printed.{parse_status-print_status}
use openvpn_server.Mgmt.Command.{Management, command}
use openvpn_server.Mgmt.Answers.{Woven, done, notified, answered, command-Woven}

abbrev lines : List Text
lines = codes ">CLIENT:x" ∷ codes "TITLE" ∷ []

woven : Woven (codes "TITLE" ∷ []) lines
unfolding starts_with text_eq
woven = notified refl (answered refl done)

abbrev after : Management
after = record { socket = some (codes "next" ∷ []); connections = [] }

command-Woven_example :
    (command (record { socket = some (lines ++ codes "END" ∷ codes "next" ∷ []); connections = [] })
      ≡ (some (codes "TITLE" ∷ []), after))
    × (command (record {
      socket = some lines;
      connections = some (lines ++ codes "END" ∷ codes "next" ∷ []) ∷ [];
    })
        ≡ (some (codes "TITLE" ∷ []), after))
command-Woven_example = command-Woven (codes "next" ∷ []) [] woven woven

abbrev decode : Text → Text
decode t = t

-- An answer that comes in with its lines broken.
abbrev chunks : Wire
chunks = record {
  buffer = codes "TIT";
  receptions =
      received (codes "LE" ++ 10 ∷ codes "EN") ∷ received (codes "D" ++ 10 ∷ codes "x") ∷ [];
}

wire_answer-lines_example : AgreesAfter decode 20 [] chunks
wire_answer-lines_example = wire_answer-lines decode 20 [] chunks tt (omega arith)

abbrev alice : Client
alice = record {
  cn = codes "alice";
  real_address = codes "1.2.3.4:5555";
  vpn_ip = codes "10.8.0.2";
  vpn_ipv6 = [];
  bytes_in = 1234;
  bytes_out = 5678;
  connected_since = 1788598800;
  username = codes "UNDEF";
  cid = 0;
  peer_id = 0;
  cipher = codes "AES-256-GCM";
}

abbrev date : ℕ → Text
date time = codes "2026-09-05"

abbrev route : Route
route = record {
  virtual = codes "10.8.0.2";
  cn = codes "alice";
  real_address = codes "1.2.3.4:5555";
  last_ref = 1788602340;
}

parse_status-print_status_example :
    parse_status (pos 7) (
      print_status tabs date 0
        (codes "x")
        (alice ∷ [])
        (route ∷ [])
        ((codes "a", codes "0") ∷ [])
        true)
    ≡ record { time = pos 7; clients = row_of alice ∷ []; stats = (codes "a", codes "0") ∷ [] }
unfolding contains_code stats_of put_named text_eq
parse_status-print_status_example =
    parse_status-print_status tabs date (pos 7) 0 (codes "x") (alice ∷ []) (route ∷ [])
      ((codes "a", codes "0") ∷ []) true (refl, refl) (refl, refl)
      (
        (
          (refl, refl),
          (refl, refl),
          (refl, refl),
          (refl, refl),
          (refl, refl),
          (refl, refl),
          (refl, refl),
        ),
        tt,
      )
      (((refl, refl), (refl, refl), (refl, refl), (refl, refl)), tt)
      (((refl, refl), (refl, refl)), tt)
