-- ===== src/Mgmt/Status.antt =====
-- ui/app/mgmt.py: parse_status, read_status_file, load_stats and version. A dict is the list of its
-- assignments, the first made first; numbers are those of `int` on ASCII text.
use openvpn_server.Base.{
  splitlines, ℕ, zero, ◌+◌, Bool, false, ◌&&◌, Option, none, some, List, [], ◌∷◌, ◌++◌, Text, codes,
  text_eq, nonempty, starts_with, contains_code, partition, split, strip, is_space, isdigit, int_of,
  ℤ, pos, if◌then◌else◌, ltb, take, coalesce,
}
use openvpn_server.Mgmt.Command.{Management, Reply, success, reply_of, command}

-- `d.get(key)`, the value assigned last.
unfoldable pub get_text {ℓ} : {A : Type ℓ} → Text → List (Text × A) → Option A
get_text key [] = none
get_text key ((k, v) ∷ rest) =
    let later = get_text key rest in if text_eq k key then some (coalesce later v) else later

-- `zip(keys, values)`
abbrev pub zip : List Text → List Text → List (Text × Text)
zip [] values = []
zip (k ∷ keys) [] = []
zip (k ∷ keys) (v ∷ values) = (k, v) ∷ zip keys values

-- `_int`; a missing value reads like an empty one.
abbrev pub int_or_zero : Option Text → ℤ
int_or_zero none = pos 0
int_or_zero (some s) = coalesce (int_of (if nonempty s then s else codes "0")) (pos 0)

-- A client of the status, as the code returns it.
pub record Row : Type 0 where
  pub cn : Text
  pub real_address : Text
  pub vpn_ip : Text
  pub vpn_ipv6 : Text
  pub bytes_in : ℤ
  pub bytes_out : ℤ
  pub connected_since : ℤ
  pub username : Text
  pub cid : ℤ
  pub peer_id : ℤ
  pub cipher : Text

abbrev pub text_at : List (Text × Text) → Text → Text
text_at d key = coalesce (get_text key d) []

abbrev pub int_at : List (Text × Text) → Text → ℤ
int_at d key = int_or_zero (get_text key d)

-- `_normalise_client`
abbrev pub normalise_client : List (Text × Text) → Row
normalise_client d = record {
  cn = text_at d (codes "Common Name");
  real_address = text_at d (codes "Real Address");
  vpn_ip = text_at d (codes "Virtual Address");
  vpn_ipv6 = text_at d (codes "Virtual IPv6 Address");
  bytes_in = int_at d (codes "Bytes Received");
  bytes_out = int_at d (codes "Bytes Sent");
  connected_since = int_at d (codes "Connected Since (time_t)");
  username = text_at d (codes "Username");
  cid = int_at d (codes "Client ID");
  peer_id = int_at d (codes "Peer ID");
  cipher = text_at d (codes "Data Channel Cipher");
}

-- The variables of `parse_status`.
pub record Parsed : Type 0 where
  pub headers : List (Text × List Text)
  pub clients : List Row
  pub server_time : Option ℤ
  pub stats : List (Text × Text)

abbrev pub nothing_parsed : Parsed
nothing_parsed = record { headers = []; clients = []; server_time = none; stats = [] }

-- `int(parts[2])`; a ValueError leaves the time as it is.
abbrev pub read_time : Option ℤ → Parsed → Parsed
read_time none st = st
read_time (some t) st = record st { server_time = some t }

abbrev pub add_client : List Text → Parsed → Parsed
add_client values st = record st {
  clients =
      st.clients
      ++ normalise_client (zip (coalesce (get_text (codes "CLIENT_LIST") st.headers) []) values)
        ∷ [];
}

-- `d[name] = value`
unfoldable pub put_named {ℓ} : {A : Type ℓ} → Text → A → List (Text × A) → List (Text × A)
put_named name value [] = (name, value) ∷ []
put_named name value ((n, v) ∷ rest) =
    let later = put_named name value rest in
    if text_eq n name then (n, value) ∷ rest else (n, v) ∷ later

abbrev pub add_named : Text → List Text → Parsed → Parsed
add_named tag [] st = st
add_named tag (name ∷ []) st = st
add_named tag (name ∷ value ∷ values) st =
    if text_eq tag (codes "HEADER")
    then record st { headers = put_named name (value ∷ values) st.headers }
    else if text_eq tag (codes "TIME")
    then read_time (int_of value) st
    else if text_eq tag (codes "GLOBAL_STATS")
    then record st { stats = put_named name value st.stats }
    else st

-- The branches of the loop, for the parts of a line.
unfoldable pub take_parts : List Text → Parsed → Parsed
take_parts [] st = st
take_parts (tag ∷ values) st =
    if text_eq tag (codes "CLIENT_LIST") then add_client values st else add_named tag values st

-- Tabs stand between the parts, or commas.
unfoldable pub parts_of : Text → List Text
parts_of line = split line (if contains_code line 9 then 9 else 44)

unfoldable pub take_lines : List Text → Parsed → Parsed
take_lines [] st = st
take_lines (line ∷ lines) st = take_lines lines (take_parts (parts_of line) st)

-- What `parse_status` returns.
pub record StatusRead : Type 0 where
  pub time : ℤ
  pub clients : List Row
  pub stats : List (Text × Text)

-- `server_time or int(time.time())`
abbrev pub time_or : ℤ → Option ℤ → ℤ
time_or now none = now
time_or now (some (pos zero)) = now
time_or now (some t) = t

unfoldable pub parse_status : ℤ → List Text → StatusRead
parse_status now lines =
    let st = take_lines lines nothing_parsed in
    record { time = time_or now st.server_time; clients = st.clients; stats = st.stats }

-- `lines[-1].strip() == "END"`, which is false of no lines.
abbrev pub ends_with_end : List Text → Bool
ends_with_end [] = false
ends_with_end (line ∷ []) = text_eq (strip is_space line) (codes "END")
ends_with_end (line ∷ next ∷ lines) = ends_with_end (next ∷ lines)

abbrev pub first_starts : Text → List Text → Bool
first_starts p [] = false
first_starts p (line ∷ lines) = starts_with line p

-- What an attempt finds: an OSError, or the clock, the file's time and two readings.
pub data Attempt : Type 0 where
  os_error : Attempt
  read_twice : (now mtime : ℕ) (first second : Text) → Attempt

abbrev pub is_trusted : Text → Text → Bool
is_trusted first second =
    text_eq first second
    && (ends_with_end (splitlines first) && first_starts (codes "TITLE") (splitlines first))

-- The lines of the status file, if a reading is trusted.
unfoldable pub trusted_lines : ℕ → List Attempt → Option (List Text)
trusted_lines max_age [] = none
trusted_lines max_age (os_error ∷ later) = none
trusted_lines max_age (read_twice now mtime first second ∷ later) =
    let again = trusted_lines max_age later in
    if ltb (mtime + max_age) now
    then none
    else if is_trusted first second
    then some (splitlines first)
    else again

-- `clock` is the time at which the lines are parsed.
abbrev pub parsed_lines : ℤ → Option (List Text) → Option StatusRead
parsed_lines clock none = none
parsed_lines clock (some lines) = some (parse_status clock lines)

unfoldable pub read_status_file : ℕ → ℤ → List Attempt → Option StatusRead
read_status_file max_age clock attempts =
    parsed_lines clock (trusted_lines max_age (take 3 attempts))

-- `Management.status`; `none` is an exception.
unfoldable pub status : ℤ → Management → Option StatusRead × Management
status clock m = let (answer, m') = command m in (parsed_lines clock answer, m')

-- `out[k] = int(v)`, where `v` is made of digits.
abbrev pub load_entry : Text → Text → List (Text × ℤ) → List (Text × ℤ)
load_entry key value out =
    if isdigit value then put_named key (coalesce (int_of value) (pos 0)) out else out

abbrev pub load_item : Text → List (Text × ℤ) → List (Text × ℤ)
load_item kv out = let (k, f, v) = partition (strip is_space kv) 61 in load_entry k v out

abbrev pub load_items : List Text → List (Text × ℤ) → List (Text × ℤ)
load_items [] out = out
load_items (kv ∷ kvs) out = load_items kvs (load_item kv out)

-- What follows the first colon.
abbrev pub after_colon : Text → Text
after_colon line = let (a, f, b) = partition line 58 in b

unfoldable pub loads_of : Reply → Option (List (Text × ℤ))
loads_of (success line) = some (load_items (split (after_colon line) 44) [])
loads_of _ = none

-- `none` is an exception.
unfoldable pub load_stats : Management → Option (List (Text × ℤ)) × Management
load_stats m = let (answer, m') = command m in (loads_of (reply_of answer), m')

unfoldable pub version_line : List Text → Text
version_line [] = codes "unknown"
version_line (line ∷ lines) =
    if starts_with line (codes "OpenVPN Version:")
    then strip is_space (after_colon line)
    else version_line lines

abbrev pub version_in : Option (List Text) → Option Text
version_in none = none
version_in (some lines) = some (version_line lines)

unfoldable pub version : Management → Option Text × Management
version m = let (answer, m') = command m in (version_in answer, m')
