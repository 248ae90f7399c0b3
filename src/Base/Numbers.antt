-- ===== src/Base/Numbers.antt =====
-- Python's `int(text)` and `text.strip()` for ASCII text.
use Prim.Native.Nat.{ℕ, zero, suc, ◌+◌, ◌-◌, ◌*◌}
use mathlib.Core.Bool.{Bool, true, false, ◌&&◌, ◌||◌}
use mathlib.Core.Option.{Option, none, some}
use mathlib.Core.List.{[], ◌∷◌, reverse}
use mathlib.Core.Path.{◌≡◌, refl}
use openvpn_server.Base.Tests.{◌==◌, if◌then◌else◌, leb}
use openvpn_server.Base.Texts.{Text, codes}
use openvpn_server.Base.Ints.{ℤ, pos, negsuc}

abbrev pub is_digit : ℕ → Bool
is_digit c = leb b'0' c && leb c b'9'

abbrev pub is_space : ℕ → Bool
is_space c = (leb 9 c && leb c 13) || (leb 28 c && leb c 32)

unfoldable pub lstrip : (ℕ → Bool) → Text → Text
lstrip test [] = []
lstrip test (c ∷ s) = if test c then lstrip test s else c ∷ s

-- `s.rstrip(...)` for the characters that pass the test.
unfoldable pub rstrip : (ℕ → Bool) → Text → Text
unfolding lstrip
rstrip test s = reverse (lstrip test (reverse s))

unfoldable pub strip : (ℕ → Bool) → Text → Text
unfolding lstrip rstrip
strip test s = rstrip test (lstrip test s)

-- Digits with single underscores between them, after `acc`; `after` says that a digit came last.
unfoldable pub digits_value : Bool → ℕ → Text → Option ℕ
digits_value after acc [] = if after then some acc else none
digits_value after acc (c ∷ s) = elim (is_digit c) [
  | true ↦ digits_value true (acc * 10 + (c - b'0')) s
  | false ↦ (elim (c == b'_' && after) [ true ↦ digits_value false acc s | false ↦ none ])
]

abbrev pub negated : ℕ → ℤ
negated zero = pos 0
negated (suc n) = negsuc n

abbrev signed : Text → Option ℤ
signed [] = none
signed (c ∷ s) =
    if c == b'-'
    then (elim (digits_value false 0 s) [ none ↦ none | some n ↦ some (negated n) ])
    else (elim (if c == b'+' then digits_value false 0 s else digits_value false 0 (c ∷ s)) [
      | none ↦ none
      | some n ↦ some (pos n)
    ])

-- `int(s)`; `none` is a ValueError.
unfoldable pub int_of : Text → Option ℤ
unfolding strip digits_value
int_of s = signed (strip is_space s)

-- `s.isdigit()`
unfoldable pub all_digits : Text → Bool
all_digits [] = true
all_digits (c ∷ s) = is_digit c && all_digits s

-- `s.isdigit()`, which is false of the empty text.
unfoldable pub isdigit : Text → Bool
unfolding all_digits
isdigit [] = false
isdigit (c ∷ s) = all_digits (c ∷ s)

int_of_test : int_of (codes " -1_0 ") ≡ some (negsuc 9)
unfolding int_of
int_of_test = refl
