-- ===== src/Base/Splits.antt =====
-- Python's `sep.join(fields)` at a single character, that `split` reads the fields back, and
-- `splitlines`.
use Prim.Native.Nat.{ℕ}
use mathlib.Core.Path.{◌≡◌, refl}
use mathlib.Core.Logic.{inl, inr, ◌⊎◌}
use mathlib.Core.Bool.{◌&&◌, Bool, true, false, ◌||◌}
use mathlib.Core.List.{List, [], ◌∷◌, ◌++◌}
use native.Mathlib.Omega.{arith}
use openvpn_server.Base.Tests.{leb, if◌then◌else◌, Bool-cases, ◌==◌}
use openvpn_server.Base.Texts.{starts_with, push_head, Text, contains_code, split}
use openvpn_server.Base.Lists.{All}

unfoldable pub join : ℕ → List Text → Text
join sep [] = []
join sep (f ∷ []) = f
join sep (f ∷ g ∷ fs) = f ++ sep ∷ join sep (g ∷ fs)

abbrev pub IsFree : ℕ → Text → Type 0
IsFree sep t = contains_code t sep ≡ false

==_self : (c : ℕ) → (c == c) ≡ true
==_self c = ground arith

pub ||-eq-false : (a b : Bool) → (a || b) ≡ false → (a ≡ false) × (b ≡ false)
||-eq-false a b h = ground arith

split-free : (sep : ℕ) (f : Text) → IsFree sep f → split f sep ≡ f ∷ []
unfolding split contains_code
split-free sep [] h = refl
split-free sep (c ∷ f) h =
    let (first, rest) = ||-eq-false (c == sep) (contains_code f sep) h in
    rw (first, split-free sep f rest) refl

split-append : (sep : ℕ) (f s : Text) → IsFree sep f → split (f ++ sep ∷ s) sep ≡ f ∷ split s sep
unfolding split contains_code
split-append sep [] s h = rw (==_self sep) refl
split-append sep (c ∷ f) s h =
    let (first, rest) = ||-eq-false (c == sep) (contains_code f sep) h in
    rw (first, split-append sep f s rest) refl

pub split-join :
    (sep : ℕ) (f : Text) (fs : List Text)
    → All (IsFree sep) (f ∷ fs)
    → split (join sep (f ∷ fs)) sep ≡ f ∷ fs
unfolding join
split-join sep f [] (h, _) = split-free sep f h
split-join sep f (g ∷ fs) (h, rest) =
    rw (split-append sep f (join sep (g ∷ fs)) h, split-join sep g fs rest) refl

contains_code-append : (sep : ℕ) (f s : Text) → contains_code (f ++ sep ∷ s) sep ≡ true
unfolding contains_code
contains_code-append sep [] s = rw (==_self sep) refl
contains_code-append sep (c ∷ f) s = ground (arith, contains_code-append sep f s)

pub contains_code-join :
    (sep : ℕ) (f g : Text) (fs : List Text) → contains_code (join sep (f ∷ g ∷ fs)) sep ≡ true
unfolding join
contains_code-join sep f g fs = contains_code-append sep f (join sep (g ∷ fs))

pub IsFree-append :
    (sep c : ℕ) (f s : Text)
    → (c == sep) ≡ false
    → IsFree sep f
    → IsFree sep s
    → IsFree sep (f ++ c ∷ s)
unfolding contains_code
IsFree-append sep c [] s e h k = ground arith
IsFree-append sep c (d ∷ f) s e h k = ground (arith, IsFree-append sep c f s e)

pub IsFree-join :
    (sep c : ℕ) (f : Text) (fs : List Text)
    → (c == sep) ≡ false
    → All (IsFree sep) (f ∷ fs)
    → IsFree sep (join c (f ∷ fs))
unfolding join
IsFree-join sep c f [] e (h, _) = h
IsFree-join sep c f (g ∷ fs) e (h, rest) =
    IsFree-append sep c f (join c (g ∷ fs)) e h (IsFree-join sep c g fs e rest)

abbrev pub is_break : ℕ → Bool
is_break c =
    (leb 10 c && leb c 13) || ((leb 28 c && leb c 30) || (c == 133 || (c == 8232 || c == 8233)))

-- `text.splitlines()`
unfoldable pub splitlines : Text → List Text
splitlines [] = []
splitlines (c ∷ s) =
    let rest = splitlines s in
    if c == 13 && starts_with s (10 ∷ [])
    then rest
    else if is_break c
    then [] ∷ rest
    else push_head c rest

no_break : (c d : ℕ) → (d ≡ 10) ⊎ (d ≡ 13) → is_break c ≡ false → (c == d) ≡ false
no_break c d (inl e) h = ground (arith, e)
no_break c d (inr e) h = ground (arith, e)

IsFree-push_head :
    (d c : ℕ) (ls : List Text)
    → (c == d) ≡ false
    → All (IsFree d) ls
    → All (IsFree d) (push_head c ls)
unfolding contains_code
IsFree-push_head d c [] e a = (rw e refl, tt)
IsFree-push_head d c (l ∷ ls) e (h, a) = (rw (e, h) refl, a)

-- No line holds a line feed or a carriage return.
pub IsFree-splitlines : (d : ℕ) (s : Text) → (d ≡ 10) ⊎ (d ≡ 13) → All (IsFree d) (splitlines s)
unfolding splitlines contains_code
IsFree-splitlines d [] e = tt
IsFree-splitlines d (c ∷ s) e = elim (Bool-cases (c == 13 && starts_with s (10 ∷ []))) [
  | inl both ↦ rw both (IsFree-splitlines d s e)
  | inr one ↦ elim (Bool-cases (is_break c)) [
    | inl break ↦ rw (one, break) (refl, IsFree-splitlines d s e)
    | inr within ↦
        rw (one, within)
          (IsFree-push_head d c (splitlines s) (no_break c d e within) (IsFree-splitlines d s e))
  ]
]
