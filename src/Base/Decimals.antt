-- ===== src/Base/Decimals.antt =====
-- Reading back a number that was printed.
use Prim.Native.Nat.{ℕ, zero, suc, ◌+◌, ◌*◌, ◌/◌, ◌%◌, ◌<◌, ◌≤◌}
use mathlib.Core.Path.{◌≡◌, refl, ap}
use mathlib.Core.Logic.{inl, inr}
use mathlib.Core.Bool.{Bool, true, false}
use mathlib.Core.Option.{some}
use mathlib.Core.List.{[], ◌∷◌, ◌++◌, reverse, reverse-cons, reverse-reverse}
use native.Mathlib.Omega.{arith}
use openvpn_server.Base.Tests.{◌==◌, ltb, Bool-cases, &&-eq-true, ltb→lt}
use openvpn_server.Base.Texts.{Text, digits_from, str_of}
use openvpn_server.Base.Ints.{pos}
use openvpn_server.Base.Numbers.{
  is_digit, is_space, lstrip, rstrip, strip, digits_value, int_of, all_digits, isdigit,
}

digit : (d : ℕ) → d < 10 → is_digit (48 + d) ≡ true
digit d h = ground arith

digits_value-digit :
    (after : Bool) (acc d : ℕ) (rest : Text)
    → d < 10
    → digits_value after acc ((48 + d) ∷ rest) ≡ digits_value true (acc * 10 + d) rest
unfolding digits_value
digits_value-digit after acc d rest h = ground (arith, digit d h)

digit_not_space : (c : ℕ) → is_digit c ≡ true → is_space c ≡ false
digit_not_space c h = ground arith

not_small : (n : ℕ) → ltb n 10 ≡ false → 10 ≤ n
not_small n h = ground arith

digits_value-digits_from :
    (fuel n : ℕ) (after : Bool) (rest : Text)
    → n < fuel
    → digits_value after 0 (digits_from fuel n rest) ≡ digits_value true n rest
unfolding digits_from digits_value
digits_value-digits_from zero n after rest h = absurd (omega arith)
digits_value-digits_from (suc fuel) n after rest h = elim (Bool-cases (ltb n 10)) [
  | inl small ↦
      rw (small, digits_value-digit after 0 n rest (ltb→lt n 10 small))
        (ap (λ v. digits_value true v rest) (omega arith))
  | inr large ↦
      rw
        (
          large,
          digits_value-digits_from fuel (n / 10) after ((48 + n % 10) ∷ rest)
              (omega (arith, not_small n large)),
          digits_value-digit true (n / 10) (n % 10) rest (omega arith),
        )
        (ap (λ v. digits_value true v rest) (omega arith))
]

all_digits-append :
    (s t : Text) → all_digits s ≡ true → all_digits t ≡ true → all_digits (s ++ t) ≡ true
unfolding all_digits
all_digits-append [] t h k = k
all_digits-append (c ∷ s) t h k = ground (arith, all_digits-append s t)

all_digits-reverse : (s : Text) → all_digits s ≡ true → all_digits (reverse s) ≡ true
unfolding all_digits
all_digits-reverse [] h = refl
all_digits-reverse (c ∷ s) h =
    let (first, rest) = &&-eq-true (is_digit c) (all_digits s) h in
    rw (reverse-cons c s)
      (all_digits-append (reverse s) (c ∷ []) (all_digits-reverse s rest) (rw first refl))

lstrip-all_digits : (s : Text) → all_digits s ≡ true → lstrip is_space s ≡ s
unfolding lstrip all_digits
lstrip-all_digits [] h = refl
lstrip-all_digits (c ∷ s) h =
    rw (digit_not_space c (&&-eq-true (is_digit c) (all_digits s) h).0) refl

strip-all_digits : (s : Text) → all_digits s ≡ true → strip is_space s ≡ s
unfolding strip rstrip
strip-all_digits s h =
    rw (lstrip-all_digits s h, lstrip-all_digits (reverse s) (all_digits-reverse s h))
      (reverse-reverse s)

sign_free : (c : ℕ) → is_digit c ≡ true → ((c == b'-') ≡ false) × ((c == b'+') ≡ false)
sign_free c h = ground arith

int_of-digits :
    (t : Text) (n : ℕ)
    → isdigit t ≡ true
    → digits_value false 0 t ≡ some n
    → int_of t ≡ some (pos n)
unfolding int_of isdigit all_digits
int_of-digits [] n h v = absurd (ground arith)
int_of-digits (c ∷ s) n h v =
    let (minus, plus) = sign_free c (&&-eq-true (is_digit c) (all_digits s) h).0 in
    rw (strip-all_digits (c ∷ s) h, minus, plus, v) refl

isdigit-digits_from :
    (fuel n c : ℕ) (rest : Text)
    → all_digits (c ∷ rest) ≡ true
    → isdigit (digits_from fuel n (c ∷ rest)) ≡ true
unfolding digits_from isdigit all_digits
isdigit-digits_from zero n c rest h = h
isdigit-digits_from (suc fuel) n c rest h = elim (Bool-cases (ltb n 10)) [
  | inl small ↦ rw small (ground (arith, h))
  | inr large ↦
      rw large (isdigit-digits_from fuel (n / 10) (48 + n % 10) (c ∷ rest) (ground (arith, h)))
]

pub isdigit-str_of : (n : ℕ) → isdigit (str_of n) ≡ true
unfolding str_of digits_from isdigit all_digits
isdigit-str_of n = elim (Bool-cases (ltb n 10)) [
  | inl small ↦ rw small (ground arith)
  | inr large ↦ rw large (isdigit-digits_from n (n / 10) (48 + n % 10) [] (ground arith))
]

pub int_of-str_of : (n : ℕ) → int_of (str_of n) ≡ some (pos n)
unfolding str_of digits_value
int_of-str_of n =
    int_of-digits (str_of n) n (isdigit-str_of n)
      (digits_value-digits_from (suc n) n false [] (omega arith))
