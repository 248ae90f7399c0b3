-- ===== src/Pki/TwoFactor.antt =====
-- ui/app/pki.py: write_config, and the two-factor lines of server.conf. Characters are ASCII where
-- a pattern asks for white space.
use openvpn_server.Base.{
  Bool, true, false, not, ◌&&◌, ◌||◌, Option, none, some, List, [], ◌∷◌, ◌++◌, map, Text, codes,
  starts_with, is_space, lstrip, splitlines, join, drop, length, if◌then◌else◌, ◌==◌, ltb,
  delete_where,
}
use openvpn_server.Pki.Options.{ConfigFile, server, client, vars, tfa_lines, unix_newlines}

abbrev pub starts_space : Text → Bool
starts_space [] = false
starts_space (c ∷ s) = is_space c

-- The pattern of a word and the white space after it, at the start of a text.
unfoldable pub option_at : Text → Text → Bool
option_at word s = starts_with s word && starts_space (drop (length word) s)

-- `re.search(r"^\s*word\s+", text, re.M)` in what is left of a text; `at` says that a line starts here.
unfoldable pub sets_from : Text → Bool → Text → Bool
sets_from word at [] = false
sets_from word at (c ∷ s) =
    (at && option_at word (lstrip is_space (c ∷ s))) || sets_from word (c == 10) s

abbrev pub sets_option : Text → Text → Bool
sets_option word text = sets_from word true text

abbrev pub verify_word : Text
verify_word = codes "auth-user-pass-verify"

abbrev pub token_word : Text
token_word = codes "auth-gen-token"

abbrev pub tfa_enforced : Text → Bool
tfa_enforced conf = sets_option verify_word conf

abbrev pub skip_hash : Text → Text
skip_hash [] = []
skip_hash (c ∷ s) = if c == b'#' then s else c ∷ s

-- `re.match(r"^\s*#?\s*(auth-user-pass-verify|auth-gen-token)\s+", l)`
abbrev pub is_tfa_line : Text → Bool
is_tfa_line l =
    option_at verify_word (lstrip is_space (skip_hash (lstrip is_space l)))
    || option_at token_word (lstrip is_space (skip_hash (lstrip is_space l)))

abbrev pub ends_line : Text → Bool
ends_line [] = false
ends_line (c ∷ []) = c == 10
ends_line (c ∷ d ∷ s) = ends_line (d ∷ s)

abbrev pub end_line : Text → Text
end_line content = if ends_line content then content else content ++ 10 ∷ []

abbrev pub is_server : ConfigFile → Bool
is_server server = true
is_server client = false
is_server vars = false

-- What `write_config` leaves: the file, and the one beside it with what it held, if it was there.
pub record Saved : Type 0 where
  pub file : Text
  pub backup : Option Text

-- `none` is an error; `can_write` is false where an OSError is raised.
unfoldable pub write_config : ConfigFile → Bool → Option Text → Text → Option Saved
write_config which can_write current content =
    if ltb 200000 (length content)
    then none
    else if is_server which
        && not (sets_option (codes "management") (end_line (unix_newlines content)))
    then none
    else if can_write
    then some (record { file = end_line (unix_newlines content); backup = current })
    else none

abbrev pub switch_lines : Bool → List Text
switch_lines enabled = if enabled then tfa_lines else map (λ l. b'#' ∷ l) tfa_lines

-- What is handed to `write_config`, for the lines of server.conf.
abbrev pub switched : Bool → List Text → Text
switched enabled lines = join 10 (delete_where is_tfa_line lines ++ switch_lines enabled) ++ 10 ∷ []

abbrev pub text_of : Option Text → Text
text_of none = []
text_of (some s) = s

unfoldable pub set_tfa_enforced : Bool → Bool → Option Text → Option Saved
set_tfa_enforced can_write enabled current =
    write_config server can_write current (switched enabled (splitlines (text_of current)))
