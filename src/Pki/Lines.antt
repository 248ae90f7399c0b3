-- ===== src/Pki/Lines.antt =====
-- ui/app/pki.py: what a search in the lines of a configuration file finds.
use openvpn_server.Base.{
  ℕ, ◌≡◌, refl, sym, ap, ◌∙◌, Bool, true, false, Bool-cases, List, [], ◌∷◌, ◌++◌, append_assoc,
  Text, contains_code, starts_with, is_space, lstrip, IsFree, IsFree-append, ||-eq-false, join,
  ◌==◌, All, inl, inr, ◌⊎◌, arith,
}
use openvpn_server.Pki.Options.{unix_newlines}
use openvpn_server.Pki.TwoFactor.{option_at, sets_from, ends_line}

-- The lines, each with its line feed.
unfoldable pub unlines : List Text → Text
unlines [] = []
unlines (l ∷ ls) = l ++ 10 ∷ unlines ls

sets_from-append :
    (word l r : Text) (at : Bool)
    → sets_from word true r ≡ true
    → sets_from word at (l ++ 10 ∷ r) ≡ true
unfolding sets_from
sets_from-append word [] r at h = ground (arith, h)
sets_from-append word (c ∷ l) r at h = ground (arith, sets_from-append word l r (c == 10) h)

pub sets_from-unlines :
    (word : Text) (xs ys : List Text)
    → sets_from word true (unlines ys) ≡ true
    → sets_from word true (unlines (xs ++ ys)) ≡ true
unfolding unlines
sets_from-unlines word [] ys h = h
sets_from-unlines word (x ∷ xs) ys h =
    sets_from-append word x (unlines (xs ++ ys)) true (sets_from-unlines word xs ys h)

-- A line, with its line feed, sets the option.
abbrev pub hits : Text → Text → Bool
hits word l = option_at word (lstrip is_space l ++ 10 ∷ [])

starts_with-cut :
    (word t r : Text)
    → IsFree 10 word
    → option_at word (t ++ 10 ∷ r) ≡ option_at word (t ++ 10 ∷ [])
unfolding option_at starts_with contains_code
starts_with-cut [] [] r h = refl
starts_with-cut [] (c ∷ t) r h = refl
starts_with-cut (w ∷ ws) [] r h = ground arith
starts_with-cut (w ∷ ws) (c ∷ t) r h = ground (arith, starts_with-cut ws t r)

lstrip-append :
    (l r : Text)
    → ((lstrip is_space l ≡ []) × (lstrip is_space (l ++ r) ≡ lstrip is_space r))
      ⊎ ((c : ℕ) × (s : Text) × (lstrip is_space l ≡ c ∷ s)
          × (lstrip is_space (l ++ r) ≡ (c ∷ s) ++ r))
unfolding lstrip
lstrip-append [] r = inl (refl, refl)
lstrip-append (c ∷ l) r = elim (Bool-cases (is_space c)) [
  | inl blank ↦ rw blank (lstrip-append l r)
  | inr text ↦ rw text (inr (c, l, refl, refl))
]

option_at-nil : (word : Text) → option_at word [] ≡ false
unfolding option_at starts_with
option_at-nil [] = refl
option_at-nil (w ∷ ws) = refl

-- No option where the lines start, which may be after blank ones.
option_at-unlines :
    (word : Text) (ls : List Text)
    → IsFree 10 word
    → All (λ l. hits word l ≡ false) ls
    → option_at word (lstrip is_space (unlines ls)) ≡ false
unfolding unlines lstrip
option_at-unlines word [] free a = option_at-nil word
option_at-unlines word (l ∷ ls) free (h, a) = elim (lstrip-append l (10 ∷ unlines ls)) [
  | inl (_, e) ↦ rw e (option_at-unlines word ls free a)
  | inr (c, s, e, f) ↦ rw f (
      starts_with-cut word (c ∷ s) (unlines ls) free
      ∙ ap (λ t. option_at word (t ++ 10 ∷ [])) (sym e)
      ∙ h)
]

sets_from-within :
    (word l r : Text) → IsFree 10 l → sets_from word false (l ++ 10 ∷ r) ≡ sets_from word true r
unfolding sets_from contains_code
sets_from-within word [] r h = refl
sets_from-within word (c ∷ l) r h = ground (arith, sets_from-within word l r)

sets_from-line :
    (word l r : Text)
    → IsFree 10 l
    → option_at word (lstrip is_space (l ++ 10 ∷ r)) ≡ false
    → sets_from word true (l ++ 10 ∷ r) ≡ sets_from word true r
unfolding sets_from contains_code
sets_from-line word [] r free h = rw h refl
sets_from-line word (c ∷ l) r free h = ground (arith, h, free, sets_from-within word l r)

-- A text whose lines do not set an option does not set it.
pub sets_from-none :
    (word : Text) (ls : List Text)
    → IsFree 10 word
    → All (IsFree 10) ls
    → All (λ l. hits word l ≡ false) ls
    → sets_from word true (unlines ls) ≡ false
unfolding unlines sets_from
sets_from-none word [] free a b = refl
sets_from-none word (l ∷ ls) free (h, a) (k, b) =
    sets_from-line word l (unlines ls) h (option_at-unlines word (l ∷ ls) free (k, b))
    ∙ sets_from-none word ls free a b

pub unlines-join : (l : Text) (ls : List Text) → join 10 (l ∷ ls) ++ 10 ∷ [] ≡ unlines (l ∷ ls)
unfolding join unlines
unlines-join l [] = refl
unlines-join l (m ∷ ls) =
    append_assoc l (10 ∷ join 10 (m ∷ ls)) (10 ∷ []) ∙ ap (λ t. l ++ 10 ∷ t) (unlines-join m ls)

pub IsFree-unlines : (ls : List Text) → All (IsFree 13) ls → IsFree 13 (unlines ls)
unfolding unlines contains_code
IsFree-unlines [] a = refl
IsFree-unlines (l ∷ ls) (h, a) = IsFree-append 13 10 l (unlines ls) refl h (IsFree-unlines ls a)

pub unix_newlines-IsFree : (s : Text) → IsFree 13 s → unix_newlines s ≡ s
unfolding unix_newlines contains_code
unix_newlines-IsFree [] h = refl
unix_newlines-IsFree (c ∷ []) h = refl
unix_newlines-IsFree (c ∷ d ∷ s) h =
    let (first, rest) = ||-eq-false (c == 13) _ h in
    rw (first, unix_newlines-IsFree (d ∷ s) rest) refl

pub ends_line-append : (l r : Text) → ends_line (10 ∷ r) ≡ true → ends_line (l ++ 10 ∷ r) ≡ true
ends_line-append [] r h = h
ends_line-append (c ∷ []) r h = h
ends_line-append (c ∷ d ∷ l) r h = ends_line-append (d ∷ l) r h

pub ends_line-unlines : (ls : List Text) → ends_line (10 ∷ unlines ls) ≡ true
unfolding unlines
ends_line-unlines [] = refl
ends_line-unlines (l ∷ ls) = ends_line-append (10 ∷ l) (unlines ls) (ends_line-unlines ls)
