-- ===== src/Collector/Source.antt =====
-- ui/app/collector.py, _status: the status file where server.conf writes a fresh one, else the
-- management interface.
use openvpn_server.Base.{ℕ, ◌+◌, ◌*◌, Bool, true, false, Option, none, some, List, ℤ}
use openvpn_server.Mgmt.Command.{Management}
use openvpn_server.Mgmt.Status.{StatusRead, Attempt, read_status_file, status}

-- A status from the file is marked.
abbrev pub unmarked : Option StatusRead × Management → Option (StatusRead × Bool) × Management
unmarked (none, m) = (none, m)
unmarked (some st, m) = (some (st, false), m)

abbrev pub or_status : Option StatusRead → ℤ → Management → Option (StatusRead × Bool) × Management
or_status (some st) clock m = (some (st, true), m)
or_status none clock m = unmarked (status clock m)

-- `every` is how often server.conf has the file written, if it does; `attempts` is what reading it
-- finds.
unfoldable pub read_status :
    Option ℕ → List Attempt → ℤ → Management → Option (StatusRead × Bool) × Management
read_status none attempts clock m = unmarked (status clock m)
read_status (some every) attempts clock m =
    or_status (read_status_file (3 * every + 5) clock attempts) clock m
