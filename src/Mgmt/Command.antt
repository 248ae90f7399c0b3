-- ===== src/Mgmt/Command.antt =====
-- ui/app/mgmt.py, class Management: commands, their answers and the retry. A connection is the list
-- of lines that it will still deliver; one that has none left is closed by the server, and a failure
-- to send is a connection without lines.
use openvpn_server.Base.{
  Bool, true, false, not, ◌&&◌, ◌||◌, Option, none, some, List, [], ◌∷◌, ◌++◌, Text, codes, text_eq,
  starts_with, if◌then◌else◌,
}
use openvpn_server.Pki.Names.{matches_name}

-- `connections` are those that the next calls of `_connect` make, or `none` where they fail.
pub record Management : Type 0 where
  pub socket : Option (List Text)
  pub connections : List (Option (List Text))

abbrev pub is_notification : Text → Bool
is_notification line = starts_with line (codes ">")

abbrev pub is_verdict : Text → Bool
is_verdict line = starts_with line (codes "SUCCESS:") || starts_with line (codes "ERROR:")

abbrev pub is_end : Text → Bool
is_end line = text_eq line (codes "END")

abbrev pub is_first : List Text → Bool
is_first [] = true
is_first (l ∷ ls) = false

-- The loop over the lines of an answer, with those read so far; `none` where the connection ends.
-- Returns the answer and what the connection delivers after it.
unfoldable pub read_answer : List Text → List Text → Option (List Text × List Text)
read_answer lines [] = none
read_answer lines (line ∷ rest) = elim (is_notification line) [
  | true ↦ read_answer lines rest
  | false ↦ (elim (is_end line) [
    | true ↦ some (lines, rest)
    | false ↦ (elim (is_verdict line && is_first lines) [
      | true ↦ some (lines ++ line ∷ [], rest)
      | false ↦ read_answer (lines ++ line ∷ []) rest
    ])
  ])
]

abbrev pub close : Management → Management
close m = record m { socket = none }

-- What follows the sending of the command, on the connection that there is.
unfoldable pub finish :
    Management → Option (List Text × List Text) → Option (List Text) × Management
finish m none = (none, close m)
finish m (some (answer, rest)) = (some answer, record m { socket = some rest })

unfoldable pub connect : List (Option (List Text)) → Option (List Text) × Management
connect [] = (none, record { socket = none; connections = [] })
connect (none ∷ later) = (none, record { socket = none; connections = later })
connect (some lines ∷ later) =
    finish (record { socket = none; connections = later }) (read_answer [] lines)

-- One of the two attempts; `none` is an error, after which the connection is closed.
unfoldable pub try_once : Management → Option (List Text) × Management
try_once m = elim m.socket [
  | none ↦ connect m.connections
  | some lines ↦ finish m (read_answer [] lines)
]

unfoldable pub retry : Option (List Text) × Management → Option (List Text) × Management
retry (some answer, m) = (some answer, m)
retry (none, m) = try_once m

-- `none` is a ManagementError.
unfoldable pub command : Management → Option (List Text) × Management
command m = retry (try_once m)

-- What `kill`, `client_kill` and `signal` return: the first line, a ManagementError, or the
-- IndexError of an empty answer.
pub data Reply : Type 0 where
  success : Text → Reply
  management_error index_error : Reply

unfoldable pub reply_of : Option (List Text) → Reply
reply_of none = management_error
reply_of (some []) = index_error
reply_of (some (line ∷ lines)) =
    if starts_with line (codes "SUCCESS:") then success line else management_error

-- The name goes into a line of the protocol, so one with other characters is not sent.
unfoldable pub kill : Text → Management → Reply × Management
kill common_name m =
    if not (matches_name common_name)
    then (management_error, m)
    else (let (answer, m') = command m in (reply_of answer, m'))

unfoldable pub client_kill : Management → Reply × Management
client_kill m = let (answer, m') = command m in (reply_of answer, m')

abbrev pub is_signal : Text → Bool
is_signal name =
    text_eq name (codes "SIGHUP")
    || (text_eq name (codes "SIGTERM")
        || (text_eq name (codes "SIGUSR1") || text_eq name (codes "SIGUSR2")))

-- The connection is closed whatever the answer is.
unfoldable pub signal : Text → Management → Reply × Management
signal name m =
    if not (is_signal name)
    then (management_error, m)
    else (let (answer, m') = command m in (reply_of answer, close m'))
