-- ===== src/Pki/Spellings.antt =====
-- ui/app/pki.py, option_name: an option is recognised however its line spells it.
use openvpn_server.Base.{
  ℕ, ◌≡◌, refl, ap, Bool, true, false, not, ◌&&◌, ◌||◌, [], ◌∷◌, ◌++◌, arith, Text, ◌==◌,
}
use openvpn_server.Pki.Options.{
  backslash_code, double_quote, single_quote, is_c_space, Scan, start, plain, double, single, act,
  scan, undashed, unbracketed, option_name,
}

abbrev pub is_blank : ℕ → Bool
is_blank c = c == 0 || is_c_space c

abbrev pub is_comment : ℕ → Bool
is_comment c = c == b';' || c == b'#'

abbrev pub is_quote : ℕ → Bool
is_quote c = c == double_quote || c == single_quote

-- The characters that mean themselves: in front of a word that is not quoted, and further on in a
-- word without quotes, in double quotes and in single quotes.
abbrev pub is_first_char : ℕ → Bool
is_first_char c =
    not (is_blank c) && (not (is_comment c) && (not (is_quote c) && not (c == backslash_code)))

abbrev pub is_char_of : Scan → ℕ → Bool
is_char_of start c = false
is_char_of plain c = not (is_blank c) && not (c == backslash_code)
is_char_of double c = not (c == 0) && (not (c == double_quote) && not (c == backslash_code))
is_char_of single c = not (c == 0) && not (c == single_quote)

-- The characters that a backslash may stand before.
abbrev pub is_escapable_in : Scan → ℕ → Bool
is_escapable_in start c = not (is_blank c) && not (is_comment c)
is_escapable_in plain c = not (c == 0)
is_escapable_in double c = not (c == 0)
is_escapable_in single c = false

-- The ways in which the rest of a line spells the rest of a word: after blanks, with or without
-- quotes, and with any of its characters behind a backslash, except in single quotes.
pub data Spelling : Scan → Text → Text → Type 0 where
  blank_first :
      {s w : Text} (c : ℕ) → is_c_space c ≡ true → Spelling start s w → Spelling start (c ∷ s) w
  opens_double : {s w : Text} → Spelling double s w → Spelling start (double_quote ∷ s) w
  opens_single : {s w : Text} → Spelling single s w → Spelling start (single_quote ∷ s) w
  begins :
      {s w : Text} (c : ℕ)
      → is_first_char c ≡ true
      → Spelling plain s w
      → Spelling start (c ∷ s) (c ∷ w)
  begins_escaped :
      {s w : Text} (c : ℕ)
      → is_escapable_in start c ≡ true
      → Spelling plain s w
      → Spelling start (backslash_code ∷ c ∷ s) (c ∷ w)
  goes_on :
      {st : Scan} {s w : Text} (c : ℕ)
      → is_char_of st c ≡ true
      → Spelling st s w
      → Spelling st (c ∷ s) (c ∷ w)
  escaped_plain :
      {s w : Text} (c : ℕ)
      → is_escapable_in plain c ≡ true
      → Spelling plain s w
      → Spelling plain (backslash_code ∷ c ∷ s) (c ∷ w)
  escaped_double :
      {s w : Text} (c : ℕ)
      → is_escapable_in double c ≡ true
      → Spelling double s w
      → Spelling double (backslash_code ∷ c ∷ s) (c ∷ w)
  line_ends : Spelling plain [] []
  blank_ends : (c : ℕ) (rest : Text) → is_c_space c ≡ true → Spelling plain (c ∷ rest) []
  closes_double : (rest : Text) → Spelling double (double_quote ∷ rest) []
  closes_single : (rest : Text) → Spelling single (single_quote ∷ rest) []

scan-Spelling : {st : Scan} {s w : Text} → Spelling st s w → scan st false (s ++ 0 ∷ []) ≡ w
unfolding scan act
scan-Spelling (blank_first c h p) = ground (arith, scan-Spelling p)
scan-Spelling (opens_double p) = scan-Spelling p
scan-Spelling (opens_single p) = scan-Spelling p
scan-Spelling (begins c h p) = ground (arith, scan-Spelling p)
scan-Spelling (begins_escaped c h p) = ground (arith, scan-Spelling p)
scan-Spelling (goes_on {st = start} c h p) = absurd (ground arith)
scan-Spelling (goes_on {st = plain} c h p) = ground (arith, scan-Spelling p)
scan-Spelling (goes_on {st = double} c h p) = ground (arith, scan-Spelling p)
scan-Spelling (goes_on {st = single} c h p) = ground (arith, scan-Spelling p)
scan-Spelling (escaped_plain c h p) = ground (arith, scan-Spelling p)
scan-Spelling (escaped_double c h p) = ground (arith, scan-Spelling p)
scan-Spelling line_ends = refl
scan-Spelling (blank_ends c rest h) = ground arith
scan-Spelling (closes_double rest) = refl
scan-Spelling (closes_single rest) = refl

-- A line that spells a word in its first parameter, plainly, in double or in single quotes, after any
-- blanks and with backslashes before characters of it, sets the option of that word, less a leading
-- "--" and the "<>" of an inline block.
pub option_name-spellings :
    (line w : Text) → Spelling start line w → option_name line ≡ unbracketed (undashed w)
unfolding option_name
option_name-spellings line w p = ap (λ (t : Text). unbracketed (undashed t)) (scan-Spelling p)
