-- ===== src/Pki/Names.antt =====
-- ui/app/pki.py, validate_name with NAME_RE and RESERVED.
use openvpn_server.Base.{
  ℕ, ◌+◌, Bool, true, false, not, ◌&&◌, ◌||◌, [], ◌∷◌, map, Text, text_eq, codes, if◌then◌else◌,
  ◌==◌, leb, length, is_digit,
}

abbrev pub is_alnum : ℕ → Bool
is_alnum c = is_digit c || ((leb b'A' c && leb c b'Z') || (leb b'a' c && leb c b'z'))

-- [A-Za-z0-9_.@-]
abbrev pub is_name_char : ℕ → Bool
is_name_char c = is_alnum c || ((c == b'_' || c == b'.') || (c == b'@' || c == b'-'))

unfoldable pub all_name_chars : Text → Bool
all_name_chars [] = true
all_name_chars (c ∷ s) = is_name_char c && all_name_chars s

-- NAME_RE: ^[A-Za-z0-9][A-Za-z0-9_.@-]{0,63}\Z
unfoldable pub matches_name : Text → Bool
matches_name [] = false
matches_name (c ∷ s) = is_alnum c && (all_name_chars s && leb (length s) 63)

-- `c.lower()` of an ASCII character.
abbrev pub lower : ℕ → ℕ
lower c = if leb b'A' c && leb c b'Z' then c + 32 else c

unfoldable pub is_reserved : Text → Bool
is_reserved name =
    text_eq (map lower name) (codes "server") || text_eq (map lower name) (codes "ca")

-- `validate_name` does not raise PkiError.
unfoldable pub is_valid_name : Text → Bool
is_valid_name name = matches_name name && not (is_reserved name)
