-- ===== src/Collector/State.antt =====
-- ui/app/collector.py: what the collector keeps, and the clients that OpenVPN reports
-- (ui/app/mgmt.py, _normalise_client). A rate is an exact fraction in place of a float.
use openvpn_server.Base.{
  ℕ, ◌+◌, ◌*◌, Bool, true, false, ◌&&◌, Option, none, some, List, [], ◌∷◌, Text, text_eq,
  if◌then◌else◌, ◌==◌, ltb,
}

-- A client of the status output.
pub record Client : Type 0 where
  pub cn : Text
  pub real_address : Text
  pub vpn_ip : Text
  pub vpn_ipv6 : Text
  pub bytes_in : ℕ
  pub bytes_out : ℕ
  pub connected_since : ℕ
  pub username : Text
  pub cid : ℕ
  pub peer_id : ℕ
  pub cipher : Text

-- What `parse_status` returns, with the mark of `_status` for the status file.
pub record Status : Type 0 where
  pub time : ℕ
  pub clients : List Client
  pub stats : List (Text × Text)
  pub from_file : Bool

-- bytes / seconds
pub record Rate : Type 0 where
  pub bytes : ℕ
  pub seconds : ℕ

abbrev pub no_rate : Rate
no_rate = record { bytes = 0; seconds = 1 }

abbrev pub add_rate : Rate → Rate → Rate
add_rate a b = record {
  bytes = a.bytes * b.seconds + b.bytes * a.seconds;
  seconds = a.seconds * b.seconds;
}

-- The key of a connection: (cid, connected_since, cn).
pub record Key : Type 0 where
  pub cid : ℕ
  pub since : ℕ
  pub cn : Text

unfoldable pub key_eq : Key → Key → Bool
key_eq a b = a.cid == b.cid && (a.since == b.since && text_eq a.cn b.cn)

abbrev pub key_of : Client → Key
key_of cl = record { cid = cl.cid; since = cl.connected_since; cn = cl.cn }

-- A value of `_active`, beside its key.
pub record Active : Type 0 where
  pub key : Key
  pub session_id : ℕ
  pub bytes_in : ℕ
  pub bytes_out : ℕ
  pub ts : ℕ
  pub rate_in : Rate
  pub rate_out : Rate

-- A handshake of `_pending`, beside its address; `plat`, `gui_ver` and `ver` are the peer infos.
pub record Pending : Type 0 where
  pub address : Text
  pub ts : ℕ
  pub cn : Option Text
  pub plat : Option Text
  pub gui_ver : Option Text
  pub ver : Option Text

pub record LiveClient : Type 0 where
  pub client : Client
  pub session_id : ℕ
  pub rate_in : Rate
  pub rate_out : Rate

pub record Live : Type 0 where
  pub connected : Bool
  pub error : Option Text
  pub version : Option Text
  pub server_time : Option ℕ
  pub updated_at : Option ℕ
  pub connected_since : Option ℕ
  pub clients : List LiveClient
  pub load : List (Text × ℕ)
  pub stats : List (Text × Text)
  pub rate_in : Rate
  pub rate_out : Rate

pub record Collector : Type 0 where
  pub status_time : Option ℕ
  pub active : List Active
  pub pending : List Pending
  pub resync : Bool
  pub live : Live
  -- the snapshots handed to `_publish`, latest first
  pub published : List Live

-- `self._active.get(key)`
unfoldable pub find_active : Key → List Active → Option Active
find_active k [] = none
find_active k (a ∷ rest) = if key_eq a.key k then some a else find_active k rest

-- `self._active[key] = entry`: in its place, or at the end if the key is new.
unfoldable pub put_active : Active → List Active → List Active
put_active e [] = e ∷ []
put_active e (a ∷ rest) = if key_eq a.key e.key then e ∷ rest else a ∷ put_active e rest

-- Code point order of Python's strings.
unfoldable pub text_le : Text → Text → Bool
text_le [] t = true
text_le (c ∷ s) [] = false
text_le (c ∷ s) (d ∷ t) = if c == d then text_le s t else ltb c d
