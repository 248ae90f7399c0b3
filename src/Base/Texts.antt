-- ===== src/Base/Texts.antt =====
-- Text as the list of its code points, with the operations of Python's `str` that the code uses.
use Prim.Native.Char.{code}
use Prim.Native.String.{String}
use Prim.Native.Nat.{ℕ, zero, suc, ◌+◌, ◌/◌, ◌%◌}
use mathlib.Core.Path.{◌≡◌, refl}
use mathlib.Core.Logic.{◌↔◌}
use mathlib.Core.Bool.{Bool, true, false, ◌&&◌, ◌||◌}
use mathlib.Core.List.{List, [], ◌∷◌}
use native.Mathlib.Omega.{arith}
use openvpn_server.Base.Tests.{◌==◌, if◌then◌else◌, ltb}

abbrev pub Text : Type 0
Text = List ℕ

-- A literal of the source.
abbrev pub codes : String → Text
codes String.[] = []
codes (String.◌∷◌ c s) = code c ∷ codes s

unfoldable pub text_eq : Text → Text → Bool
text_eq [] [] = true
text_eq [] (d ∷ t) = false
text_eq (c ∷ s) [] = false
text_eq (c ∷ s) (d ∷ t) = c == d && text_eq s t

pub text_eq_sound : (s t : Text) → text_eq s t ≡ true → s ≡ t
unfolding text_eq
text_eq_sound [] [] h = refl
text_eq_sound [] (d ∷ t) h = ground arith
text_eq_sound (c ∷ s) [] h = ground arith
text_eq_sound (c ∷ s) (d ∷ t) h = ground (arith, text_eq_sound s t)

pub text_eq_refl : (s : Text) → text_eq s s ≡ true
unfolding text_eq
text_eq_refl [] = refl
text_eq_refl (c ∷ s) = ground (arith, text_eq_refl s)

pub text_eq_iff : (s t : Text) → (text_eq s t ≡ true) ↔ (s ≡ t)
text_eq_iff s t = (text_eq_sound s t, λ e. ground (arith, text_eq_refl t, e))

-- `if s:`
abbrev pub nonempty : Text → Bool
nonempty [] = false
nonempty (c ∷ s) = true

unfoldable pub starts_with : Text → Text → Bool
starts_with s [] = true
starts_with [] (p ∷ ps) = false
starts_with (c ∷ s) (p ∷ ps) = c == p && starts_with s ps

unfoldable pub contains_code : Text → ℕ → Bool
contains_code [] sep = false
contains_code (c ∷ s) sep = c == sep || contains_code s sep

-- `s.partition(sep)` at a single character: what stands before it, whether it occurs, what follows.
unfoldable pub partition : Text → ℕ → Text × Bool × Text
partition [] sep = ([], false, [])
partition (c ∷ s) sep =
    if c == sep then ([], true, s) else (let (a, f, b) = partition s sep in (c ∷ a, f, b))

-- `s.rpartition(sep)` at a single character.
unfoldable pub rpartition : Text → ℕ → Text × Bool × Text
rpartition [] sep = ([], false, [])
rpartition (c ∷ s) sep =
    let (a, f, b) = rpartition s sep in
    if f then (c ∷ a, true, b) else if c == sep then ([], true, s) else ([], false, c ∷ s)

-- Puts a character before the first word.
abbrev pub push_head : ℕ → List Text → List Text
push_head c [] = (c ∷ []) ∷ []
push_head c (w ∷ ws) = (c ∷ w) ∷ ws

-- `s.split(sep)` at a single character.
unfoldable pub split : Text → ℕ → List Text
split [] sep = [] ∷ []
split (c ∷ s) sep = let rest = split s sep in if c == sep then [] ∷ rest else push_head c rest

-- The decimal digits of a number before `rest`; more fuel than the number is enough.
unfoldable pub digits_from : ℕ → ℕ → Text → Text
digits_from zero n rest = rest
digits_from (suc fuel) n rest =
    let more = digits_from fuel (n / 10) ((48 + n % 10) ∷ rest) in
    if ltb n 10 then (48 + n) ∷ rest else more

-- `str(n)` of a number.
unfoldable pub str_of : ℕ → Text
unfolding digits_from
str_of n = digits_from (suc n) n []

str_of_test : str_of 1790 ≡ codes "1790"
unfolding str_of
str_of_test = refl
