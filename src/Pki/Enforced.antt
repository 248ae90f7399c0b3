-- ===== src/Pki/Enforced.antt =====
-- ui/app/pki.py: that the two-factor switch does what it says.
use mathlib.Core.Bool.{false≢true}
use openvpn_server.Base.{
  ℕ, ◌≡◌, refl, sym, ap, ◌∙◌, subst, Bool, true, false, Bool-cases, Option, none, some, some_eq,
  List, [], ◌∷◌, ◌++◌, Text, codes, contains_code, starts_with, is_space, lstrip, splitlines,
  IsFree-splitlines, IsFree, ||-eq-false, join, length, ◌==◌, ltb, delete_where, All, inl, inr, ◌⊎◌,
  arith,
}
use openvpn_server.Pki.Options.{server, tfa_lines, unix_newlines}
use openvpn_server.Pki.TwoFactor.{
  option_at, sets_from, sets_option, verify_word, tfa_enforced, skip_hash, is_tfa_line, ends_line,
  end_line, Saved, write_config, switch_lines, switched, text_of, set_tfa_enforced,
}
use openvpn_server.Pki.Lines.{
  unlines, sets_from-unlines, hits, sets_from-none, unlines-join, IsFree-unlines,
  unix_newlines-IsFree, ends_line-append, ends_line-unlines,
}

nothing : {saved : Saved} → ¬ (none ≡ some saved)
nothing h = cc

write_config-file :
    (can_write : Bool) (current : Option Text) (content : Text) (saved : Saved)
    → write_config server can_write current content ≡ some saved
    → (saved.file ≡ end_line (unix_newlines content))
      × (saved.backup ≡ current)
      × (sets_option (codes "management") saved.file ≡ true)
unfolding write_config
write_config-file can_write current content saved h =
    elim (Bool-cases (ltb 200000 (length content))) [
      | inl long ↦ absurd (nothing (rw long at h))
      | inr short ↦
          elim (Bool-cases (sets_option (codes "management") (end_line (unix_newlines content)))) [
            | inr lost ↦ absurd (nothing (rw (short, lost) at h))
            | inl kept ↦ elim (Bool-cases can_write) [
              | inr fails ↦ absurd (nothing (rw (short, kept, fails) at h))
              | inl writes ↦
                  let e = some_eq (rw (short, kept, writes) at h) in
                  (
                    ap (λ (x : Saved). x.file) (sym e),
                    ap (λ (x : Saved). x.backup) (sym e),
                    subst (λ (x : Saved). sets_option (codes "management") x.file ≡ true) e kept,
                  )
            ]
          ]
    ]

same_head : (w c : ℕ) (ws t : Text) → option_at (w ∷ ws) (c ∷ t) ≡ true → c ≡ w
unfolding option_at starts_with
same_head w c ws t h = ground arith

option_at-end :
    (word t : Text)
    → option_at word (t ++ 10 ∷ []) ≡ true
    → IsFree 10 word
    → (option_at word t ≡ true) ⊎ (t ≡ word)
unfolding option_at starts_with contains_code
option_at-end [] [] h free = inr refl
option_at-end [] (c ∷ t) h free = inl h
option_at-end (w ∷ ws) [] h free = absurd (ground arith)
option_at-end (w ∷ ws) (c ∷ t) h free =
    elim (option_at-end ws t (ground arith) (||-eq-false (w == 10) _ free).1) [
      | inl option ↦ inl (ground (arith, option))
      | inr e ↦ inr (λ i. same_head w c ws (t ++ 10 ∷ []) h i ∷ e i)
    ]

not_hash : (c : ℕ) → c ≡ b'a' → (c == b'#') ≡ false
not_hash c e = ground arith

not_blank : (c : ℕ) → c ≡ b'a' → is_space c ≡ false
not_blank c e = ground arith

starts_plain : (t : Text) → option_at verify_word t ≡ true → (lstrip is_space (skip_hash t) ≡ t)
unfolding option_at starts_with lstrip
starts_plain [] h = absurd (ground arith)
starts_plain (c ∷ s) h =
    let is = same_head b'a' c (codes "uth-user-pass-verify") s h in
    rw (not_hash c is, not_blank c is) refl

-- A line that is the word alone, without its argument.
abbrev pub IsBare : Text → Type 0
IsBare l = lstrip is_space l ≡ verify_word

verify_free : IsFree 10 verify_word
unfolding contains_code
verify_free = refl

hits-is_tfa_line : (l : Text) → is_tfa_line l ≡ false → ¬ IsBare l → hits verify_word l ≡ false
hits-is_tfa_line l h bare = elim (Bool-cases (hits verify_word l)) [
  | inr no_hit ↦ no_hit
  | inl hit ↦ elim (option_at-end verify_word (lstrip is_space l) hit verify_free) [
    | inr e ↦ absurd (bare e)
    | inl option ↦ absurd (
        false≢true (
          sym (||-eq-false _ _ h).0
          ∙ (ap (option_at verify_word) (starts_plain (lstrip is_space l) option) ∙ option)))
  ]
]

All-delete_where :
    (P : Text → Type 0) (test : Text → Bool) (ls : List Text)
    → All P ls
    → All P (delete_where test ls)
unfolding delete_where
All-delete_where P test [] a = tt
All-delete_where P test (l ∷ ls) (p, a) = elim (Bool-cases (test l)) [
  | inl gone ↦ rw gone (All-delete_where P test ls a)
  | inr stays ↦ rw stays (p, All-delete_where P test ls a)
]

All-append : (P : Text → Type 0) (xs ys : List Text) → All P xs → All P ys → All P (xs ++ ys)
All-append P [] ys a b = b
All-append P (x ∷ xs) ys (p, a) b = (p, All-append P xs ys a b)

switch_free : (d : ℕ) (enabled : Bool) → (d ≡ 10) ⊎ (d ≡ 13) → All (IsFree d) (switch_lines enabled)
unfolding contains_code
switch_free d true (inl e) =
    subst (λ x. All (IsFree x) (switch_lines true)) (sym e) (refl, (refl, tt))
switch_free d true (inr e) =
    subst (λ x. All (IsFree x) (switch_lines true)) (sym e) (refl, (refl, tt))
switch_free d false (inl e) =
    subst (λ x. All (IsFree x) (switch_lines false)) (sym e) (refl, (refl, tt))
switch_free d false (inr e) =
    subst (λ x. All (IsFree x) (switch_lines false)) (sym e) (refl, (refl, tt))

abbrev kept_lines : Option Text → List Text
kept_lines current = delete_where is_tfa_line (splitlines (text_of current))

-- The lines that are written.
abbrev pub lines_after : Bool → Option Text → List Text
lines_after enabled current = kept_lines current ++ switch_lines enabled

lines_after-IsFree :
    (d : ℕ) (enabled : Bool) (current : Option Text)
    → (d ≡ 10) ⊎ (d ≡ 13)
    → All (IsFree d) (lines_after enabled current)
lines_after-IsFree d enabled current e =
    All-append (IsFree d) (kept_lines current) (switch_lines enabled)
      (All-delete_where (IsFree d) is_tfa_line (splitlines (text_of current))
        (IsFree-splitlines d (text_of current) e))
      (switch_free d enabled e)

join-unlines :
    (xs : List Text) (y : Text) (ys : List Text)
    → join 10 (xs ++ y ∷ ys) ++ 10 ∷ [] ≡ unlines (xs ++ y ∷ ys)
join-unlines [] y ys = unlines-join y ys
join-unlines (x ∷ xs) y ys = unlines-join x (xs ++ y ∷ ys)

ends_line-snoc :
    (xs : List Text) (y : Text) (ys : List Text) → ends_line (unlines (xs ++ y ∷ ys)) ≡ true
unfolding unlines
ends_line-snoc [] y ys = ends_line-append y (unlines ys) (ends_line-unlines ys)
ends_line-snoc (x ∷ xs) y ys =
    ends_line-append x (unlines (xs ++ y ∷ ys)) (ends_line-unlines (xs ++ y ∷ ys))

switched-unlines :
    (enabled : Bool) (current : Option Text)
    → switched enabled (splitlines (text_of current)) ≡ unlines (lines_after enabled current)
switched-unlines true current = join-unlines (kept_lines current) _ _
switched-unlines false current = join-unlines (kept_lines current) _ _

ends_line-lines_after :
    (enabled : Bool) (current : Option Text)
    → ends_line (unlines (lines_after enabled current)) ≡ true
ends_line-lines_after true current = ends_line-snoc (kept_lines current) _ _
ends_line-lines_after false current = ends_line-snoc (kept_lines current) _ _

end_line-true : (t : Text) → ends_line t ≡ true → end_line t ≡ t
end_line-true t h = rw h refl

-- The file that is written, from what was handed to `write_config`.
end_line-switched :
    (enabled : Bool) (current : Option Text)
    → end_line (unix_newlines (switched enabled (splitlines (text_of current))))
      ≡ unlines (lines_after enabled current)
end_line-switched enabled current =
    ap (λ t. end_line (unix_newlines t)) (switched-unlines enabled current)
    ∙ (ap end_line (
          unix_newlines-IsFree (unlines (lines_after enabled current)) (
            IsFree-unlines (lines_after enabled current)
              (lines_after-IsFree 13 enabled current (inr refl))))
        ∙ end_line-true _ (ends_line-lines_after enabled current))

switch_hits : All (λ l. hits verify_word l ≡ false) (switch_lines false)
unfolding option_at starts_with lstrip
switch_hits = (refl, (refl, tt))

kept-hits :
    (ls : List Text)
    → All (λ l. ¬ IsBare l) ls
    → All (λ l. hits verify_word l ≡ false) (delete_where is_tfa_line ls)
unfolding delete_where
kept-hits [] a = tt
kept-hits (l ∷ ls) (bare, a) = elim (Bool-cases (is_tfa_line l)) [
  | inl gone ↦ rw gone (kept-hits ls a)
  | inr stays ↦ rw stays (hits-is_tfa_line l stays bare, kept-hits ls a)
]

tfa_lines_enforced : sets_from verify_word true (unlines tfa_lines) ≡ true
unfolding unlines sets_from option_at starts_with lstrip
tfa_lines_enforced = refl

enforced-unlines :
    (enabled : Bool) (current : Option Text)
    → All (λ l. ¬ IsBare l) (splitlines (text_of current))
    → tfa_enforced (unlines (lines_after enabled current)) ≡ enabled
unfolding unlines option_at starts_with lstrip
enforced-unlines true current a =
    sets_from-unlines verify_word (kept_lines current) tfa_lines tfa_lines_enforced
enforced-unlines false current a =
    sets_from-none verify_word (lines_after false current) verify_free
      (lines_after-IsFree 10 false current (inl refl))
      (All-append (λ l. hits verify_word l ≡ false) (kept_lines current) (switch_lines false)
        (kept-hits (splitlines (text_of current)) a) switch_hits)

-- Where the two-factor switch writes server.conf, and no line of it is the option without its
-- argument, two-factor authentication is then enforced exactly if that was asked for. All lines but
-- the switch's own stay, in order, the management option is there, and the file beside it holds what
-- it was.
pub set_tfa_enforced-tfa_enforced :
    (can_write enabled : Bool) (current : Option Text) (saved : Saved)
    → All (λ l. ¬ IsBare l) (splitlines (text_of current))
    → set_tfa_enforced can_write enabled current ≡ some saved
    → (tfa_enforced saved.file ≡ enabled)
      × (saved.file ≡ unlines (lines_after enabled current))
      × (sets_option (codes "management") saved.file ≡ true)
      × (saved.backup ≡ current)
unfolding set_tfa_enforced
set_tfa_enforced-tfa_enforced can_write enabled current saved a h =
    let (file, backup, management) =
      write_config-file can_write current (switched enabled (splitlines (text_of current))) saved
        h in
    let written = file ∙ end_line-switched enabled current in
    (ap tfa_enforced written ∙ enforced-unlines enabled current a, written, management, backup)
