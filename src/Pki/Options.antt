-- ===== src/Pki/Options.antt =====
-- ui/app/pki.py: option_name and check_edit, which keep the configuration editor from adding lines
-- that run programs or redirect files.
use openvpn_server.Base.{
  ℕ, ◌+◌, ◌≡◌, refl, Bool, true, false, not, ◌&&◌, ◌||◌, Option, none, some, List, [], ◌∷◌, ◌++◌,
  map, Text, text_eq, codes, nonempty, if◌then◌else◌, ◌==◌, leb, ltb, length, drop, starts_with,
  split, any, strip,
}

-- PRIVILEGED
abbrev pub privileged_words : List Text
privileged_words =
    codes "up"
    ∷ codes "down"
    ∷ codes "ipchange"
    ∷ codes "route-up"
    ∷ codes "route-pre-down"
    ∷ codes "tls-verify"
    ∷ codes "auth-user-pass-verify"
    ∷ codes "client-connect"
    ∷ codes "client-disconnect"
    ∷ codes "client-crresponse"
    ∷ codes "learn-address"
    ∷ codes "dns-updown"
    ∷ codes "tls-crypt-v2-verify"
    ∷ codes "tls-export-cert"
    ∷ codes "plugin"
    ∷ codes "engine"
    ∷ codes "providers"
    ∷ codes "pkcs11-providers"
    ∷ codes "iproute"
    ∷ codes "script-security"
    ∷ codes "setenv"
    ∷ codes "setenv-safe"
    ∷ codes "config"
    ∷ codes "cd"
    ∷ codes "chroot"
    ∷ codes "daemon"
    ∷ codes "log"
    ∷ codes "log-append"
    ∷ codes "status"
    ∷ codes "writepid"
    ∷ codes "ifconfig-pool-persist"
    ∷ codes "replay-persist"
    ∷ codes "tmp-dir"
    ∷ codes "management-client-user"
    ∷ codes "management-client-group"
    ∷ []

unfoldable pub is_one_of : Text → List Text → Bool
is_one_of w [] = false
is_one_of w (v ∷ vs) = text_eq w v || is_one_of w vs

unfoldable pub is_privileged : Text → Bool
unfolding is_one_of
is_privileged w = is_one_of w privileged_words

abbrev pub tfa_lines : List Text
tfa_lines =
    codes "auth-user-pass-verify /opt/app/bin/oath.sh via-file" ∷ codes "auth-gen-token 43200" ∷ []

abbrev pub max_line : ℕ
max_line = 255

abbrev pub backslash_code : ℕ
backslash_code = 92

abbrev pub double_quote : ℕ
double_quote = 34

abbrev pub single_quote : ℕ
single_quote = 39

-- _C_SPACE
abbrev pub is_c_space : ℕ → Bool
is_c_space c = c == 32 || (leb 9 c && leb c 13)

pub data Scan : Type 0 where
  start plain double single : Scan

-- What the loop of `option_name` does with one character: leave the loop, go on with a new state, or
-- take the character into the name.
pub data Act : Type 0 where
  stop : Act
  skip : Scan → Bool → Act
  take_it : Scan → Act

-- In the state "start", where `escaped` says that a backslash stands before.
abbrev pub act_start : Bool → ℕ → Act
act_start escaped c =
    if c == 0 || is_c_space c
    then skip start false
    else if c == b';' || c == b'#'
    then stop
    else if c == double_quote && not escaped
    then skip double false
    else if c == single_quote && not escaped
    then skip single false
    else take_it plain

-- The first parameter is complete.
abbrev pub is_end : Scan → Bool → ℕ → Bool
is_end start escaped c = false
is_end plain escaped c = (c == 0 || is_c_space c) && not escaped
is_end double escaped c = c == double_quote && not escaped
is_end single escaped c = c == single_quote

abbrev pub act_inside : Scan → Bool → ℕ → Act
act_inside st escaped c =
    if is_end st escaped c then stop else if c == 0 then skip st false else take_it st

abbrev pub is_single : Scan → Bool
is_single single = true
is_single _ = false

abbrev pub act_plain : Scan → Bool → ℕ → Act
act_plain start escaped c = act_start escaped c
act_plain st escaped c = act_inside st escaped c

unfoldable pub act : Scan → Bool → ℕ → Act
act st escaped c =
    if c == backslash_code && (not escaped && not (is_single st))
    then skip st true
    else act_plain st escaped c

-- The loop over the characters; the name that it collects.
unfoldable pub scan : Scan → Bool → Text → Text
unfolding act
scan st escaped [] = []
scan st escaped (c ∷ s) = elim (act st escaped c) [
  | stop ↦ []
  | skip st' escaped' ↦ scan st' escaped' s
  | take_it st' ↦ c ∷ scan st' false s
]

-- A leading "--" is dropped from a word of three characters or more.
abbrev pub undashed : Text → Text
undashed word = if leb 3 (length word) && starts_with word (codes "--") then drop 2 word else word

unfoldable pub ends_with : Text → ℕ → Bool
ends_with [] d = false
ends_with (c ∷ []) d = c == d
ends_with (c ∷ e ∷ s) d = ends_with (e ∷ s) d

-- `s[:-1]`
unfoldable pub init : Text → Text
init [] = []
init (c ∷ []) = []
init (c ∷ d ∷ s) = c ∷ init (d ∷ s)

abbrev pub unbracketed : Text → Text
unbracketed word =
    if starts_with word (codes "<") && ends_with word b'>' then init (drop 1 word) else word

unfoldable pub option_name : Text → Text
unfolding scan
option_name line = unbracketed (undashed (scan start false (line ++ 0 ∷ [])))

-- content.replace("\r\n", "\n")
unfoldable pub unix_newlines : Text → Text
unix_newlines [] = []
unix_newlines (c ∷ []) = c ∷ []
unix_newlines (c ∷ d ∷ s) =
    let rest = unix_newlines (d ∷ s) in if c == 13 && d == 10 then rest else c ∷ rest

-- [\x00-\x08\x0b-\x1f\x7f]
abbrev pub is_control : ℕ → Bool
is_control c = leb c 8 || ((leb 11 c && leb c 31) || c == 127)

-- The bytes of a character in UTF-8.
abbrev pub utf8_size : ℕ → ℕ
utf8_size c = if ltb c 128 then 1 else if ltb c 2048 then 2 else if ltb c 65536 then 3 else 4

unfoldable pub utf8_length : Text → ℕ
utf8_length [] = 0
utf8_length (c ∷ s) = utf8_size c + utf8_length s

pub data ConfigFile : Type 0 where
  server client vars : ConfigFile

pub data Refusal : Type 0 where
  control_characters : Refusal
  not_a_variable too_long privileged : ℕ → Refusal

-- What is wrong with a line that is not in force today. `is_vars_line` is _VARS_LINE.fullmatch.
unfoldable pub line_problem : (Text → Bool) → ConfigFile → ℕ → Text → Option Refusal
unfolding is_privileged utf8_length option_name
line_problem is_vars_line vars n raw =
    let line = strip is_c_space raw in
    if nonempty line && (not (starts_with line (codes "#")) && not (is_vars_line line))
    then some (not_a_variable n)
    else none
line_problem is_vars_line which n raw =
    if ltb max_line (utf8_length raw)
    then some (too_long n)
    else if is_privileged (option_name raw)
    then some (privileged n)
    else none

-- The first problem.
abbrev pub or_else : Option Refusal → Option Refusal → Option Refusal
or_else none rest = rest
or_else (some problem) rest = some problem

unfoldable pub check_lines : (Text → Bool) → ConfigFile → List Text → ℕ → List Text → Option Refusal
unfolding line_problem is_one_of
check_lines is_vars_line which known n [] = none
check_lines is_vars_line which known n (raw ∷ lines) =
    let rest = check_lines is_vars_line which known (n + 1) lines in
    if is_one_of (strip is_c_space raw) known
    then rest
    else or_else (line_problem is_vars_line which n raw) rest

-- The lines that are in force today, and those of the 2FA switch.
abbrev pub known_lines : Text → List Text
known_lines current = map (strip is_c_space) (split current 10) ++ tfa_lines

-- The lines of an edit, behind a byte order mark.
abbrev pub edited_lines : Text → List Text
edited_lines content =
    split (if starts_with content (65279 ∷ []) then drop 1 content else content) 10

-- `none` is an accepted edit.
unfoldable pub check_edit : (Text → Bool) → ConfigFile → Text → Text → Option Refusal
check_edit is_vars_line which current content =
    let text = unix_newlines content in
    if any is_control text
    then some control_characters
    else check_lines is_vars_line which (known_lines current) 1 (edited_lines text)

quoted_up : option_name (codes "  \"up\" /bin/sh") ≡ codes "up"
unfolding option_name starts_with ends_with
quoted_up = refl

inline_ca : option_name (codes "<ca>") ≡ codes "ca"
unfolding option_name starts_with ends_with init
inline_ca = refl
