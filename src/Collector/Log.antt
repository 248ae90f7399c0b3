-- ===== src/Collector/Log.antt =====
-- ui/app/collector.py: what `read_logs` does with the lines it reads: rejected attempts, and for each
-- session its device and the way it ended. The lines come parsed; the patterns that parse them are
-- not modelled.
use openvpn_server.Base.{
  ℕ, ◌+◌, ◌-◌, Bool, ◌&&◌, ◌||◌, Option, none, some, List, [], ◌∷◌, Text, text_eq, nonempty,
  if◌then◌else◌, ltb, is_some, coalesce, delete_where,
}
use openvpn_server.Db.Schema.{VpnSession, Db}
use openvpn_server.Db.Address.{split_address}
use openvpn_server.Db.Sessions.{Fields, latest_session, set_session, insert_session}
use openvpn_server.Db.History.{add_rejection}
use openvpn_server.Collector.State.{Pending}

abbrev pub pending_max_age : ℕ
pending_max_age = 600

-- The names IV_PLAT, IV_VER and IV_GUI_VER of a peer info.
pub data Info : Type 0 where
  plat ver gui_ver : Info

-- A line about a connection: ("info", ...), ("open", ...) and ("end", ...), and a rejected attempt.
pub data Line : Type 0 where
  info : ℕ → Text → Info → Text → Line
  opened : ℕ → Text → Text → Line
  ended : ℕ → Text → Option Text → Text → Line
  rejected : ℕ → Text → Text → Text → Line

-- `_pending` and the database within the transaction.
pub record Log : Type 0 where
  pub pending : List Pending
  pub db : Db

abbrev pub has_address : Text → Pending → Bool
has_address address p = text_eq p.address address

unfoldable pub find_pending : Text → List Pending → Option Pending
find_pending address [] = none
find_pending address (p ∷ ps) = if has_address address p then some p else find_pending address ps

abbrev pub new_peer : Text → ℕ → Pending
new_peer address ts = record {
  address = address;
  ts = ts;
  cn = none;
  plat = none;
  gui_ver = none;
  ver = none;
}

-- `_pending.setdefault(address, {"ts": ts})`, and an update of what it returns.
unfoldable pub update_pending : Text → ℕ → (Pending → Pending) → List Pending → List Pending
update_pending address ts set [] = set (new_peer address ts) ∷ []
update_pending address ts set (p ∷ ps) =
    if has_address address p then set p ∷ ps else p ∷ update_pending address ts set ps

abbrev pub with_info : Info → Text → Pending → Pending
with_info plat value p = record p { plat = some value }
with_info ver value p = record p { ver = some value }
with_info gui_ver value p = record p { gui_ver = some value }

-- `peer.get("GUI_VER") or peer.get("VER")`
abbrev pub version_of : Pending → Option Text
version_of p = if nonempty (coalesce p.gui_ver []) then p.gui_ver else p.ver

abbrev pub coalesced : Option Text → Option Text → Option Text
coalesced none b = b
coalesced (some a) b = some a

abbrev pub with_device : Text → Pending → VpnSession → VpnSession
with_device address peer s = record s {
  platform = peer.plat;
  client_ver = version_of peer;
  proto = coalesced (split_address (some address)).0 s.proto;
}

unfoldable pub set_device : ℕ → Text → Pending → Db → Db
set_device id address peer db = set_session id (with_device address peer) db

unfoldable pub set_device_if : ℕ → Text → Option Pending → Db → Db
set_device_if id address none db = db
set_device_if id address (some peer) db = set_device id address peer db

-- `peer["ts"] - 30 if peer else 0`
abbrev pub since_of : Option Pending → ℕ
since_of none = 0
since_of (some peer) = peer.ts - 30

abbrev pub is_of : Text → Pending → Bool
is_of cn peer = text_eq (coalesce peer.cn []) cn && is_some peer.cn

abbrev pub short_fields : ℕ → Text → Fields
short_fields ts reason = record {
  cid = none;
  vpn_ip = none;
  username = none;
  cipher = none;
  last_seen = some ts;
  disconnected_at = some ts;
  bytes_in = 0;
  bytes_out = 0;
  end_reason = some reason;
}

-- A session that began and ended between two polls.
unfoldable pub insert_short : ℕ → Text → Text → Text → Pending → Db → Db
insert_short ts address cn reason peer db =
    let (id, db') = insert_session db cn address peer.ts (short_fields ts reason) in
    set_device id address peer db'

abbrev pub with_reason : Text → VpnSession → VpnSession
with_reason reason s = record s { end_reason = some reason }

-- The end of a connection of a client, with the session found and the handshake known.
unfoldable pub end_session : ℕ → Text → Text → Text → Option VpnSession → Option Pending → Db → Db
end_session ts address cn reason (some row) peer db =
    set_device_if row.id address peer (set_session row.id (with_reason reason) db)
end_session ts address cn reason none none db = db
end_session ts address cn reason none (some peer) db =
    if is_of cn peer then insert_short ts address cn reason peer db else db

-- A connection that never got as far as a certificate is no session.
unfoldable pub end_connection : ℕ → Text → Option Text → Text → Option Pending → Db → Db
end_connection ts address none reason peer db = db
end_connection ts address (some cn) reason peer db =
    end_session ts address cn reason (latest_session db cn address (since_of peer)) peer db

unfoldable pub read_line : Line → Log → Log
read_line (info ts address key value) l = record l {
  pending = update_pending address ts (with_info key value) l.pending;
}
read_line (opened ts address name) l = record l {
  pending = update_pending address ts (λ p. record p { ts = ts; cn = some name }) l.pending;
}
read_line (ended ts address cn reason) l = record {
  pending = delete_where (has_address address) l.pending;
  db = end_connection ts address cn reason (find_pending address l.pending) l.db;
}
read_line (rejected ts client reason address) l = record l {
  db = add_rejection ts client reason address l.db;
}

unfoldable pub read_lines : List Line → Log → Log
read_lines [] l = l
read_lines (line ∷ lines) l = read_lines lines (read_line line l)

-- The session of a handshake, once the log has named its client.
unfoldable pub session_of : Pending → Db → Option VpnSession
session_of p db =
    if nonempty (coalesce p.cn [])
    then latest_session db (coalesce p.cn []) p.address (p.ts - 30)
    else none

unfoldable pub describe : Pending → Option VpnSession → Db → Db
describe p none db = db
describe p (some row) db = set_device row.id p.address p db

unfoldable pub describe_sessions : ℕ → List Pending → Db → List Pending × Db
describe_sessions now [] db = ([], db)
describe_sessions now (p ∷ ps) db =
    let row = session_of p db in
    let (rest, db') = describe_sessions now ps (describe p row db) in
    (if is_some row || ltb (p.ts + pending_max_age) now then rest else p ∷ rest, db')
