-- ===== src/Pki/Editing.antt =====
-- ui/app/pki.py, check_edit: what an accepted edit of a configuration file can hold.
use mathlib.Core.Bool.{false≢true}
use openvpn_server.Base.{
  ℕ, ◌+◌, ◌≤◌, ◌≡◌, ◌⊎◌, inl, inr, refl, sym, ◌∙◌, Bool, true, false, Option, none, some, List, [],
  ◌∷◌, arith, Text, text_eq_iff, codes, nonempty, any, Member, Bool-cases, strip, starts_with,
}
use openvpn_server.Pki.Options.{
  privileged_words, is_one_of, is_privileged, max_line, is_c_space, option_name, unix_newlines,
  is_control, utf8_length, ConfigFile, server, client, vars, Refusal, line_problem, or_else,
  check_lines, known_lines, edited_lines, check_edit,
}

is_one_of_sound : (w : Text) (vs : List Text) → is_one_of w vs ≡ true → Member w vs
unfolding is_one_of
is_one_of_sound w [] h = absurd (ground arith)
is_one_of_sound w (v ∷ vs) h = ground (arith, text_eq_iff w v, is_one_of_sound w vs)

Member-is_one_of : (w : Text) (vs : List Text) → Member w vs → is_one_of w vs ≡ true
unfolding is_one_of
Member-is_one_of w [] m = elim m [ ]
Member-is_one_of w (v ∷ vs) m = ground (arith, text_eq_iff w v, Member-is_one_of w vs)

-- What a line that is new to OpenVPN's files may be: at most 255 bytes, and no privileged option.
abbrev pub IsHarmless : Text → Type 0
IsHarmless raw = (utf8_length raw ≤ max_line) × (¬ Member (option_name raw) privileged_words)

-- What a line that is new to easy-rsa's file may be: blank, a comment, or a listed variable.
abbrev pub IsVariable : (Text → Bool) → Text → Type 0
IsVariable is_vars_line raw =
    (nonempty (strip is_c_space raw) ≡ false)
    ⊎ (starts_with (strip is_c_space raw) (codes "#") ≡ true)
    ⊎ (is_vars_line (strip is_c_space raw) ≡ true)

abbrev pub IsAllowed : (Text → Bool) → ConfigFile → Text → Type 0
IsAllowed is_vars_line vars raw = IsVariable is_vars_line raw
IsAllowed is_vars_line server raw = IsHarmless raw
IsAllowed is_vars_line client raw = IsHarmless raw

not-is_privileged : (w : Text) → is_privileged w ≡ false → ¬ Member w privileged_words
unfolding is_privileged
not-is_privileged w h m = false≢true (sym h ∙ Member-is_one_of w privileged_words m)

line_problem_sound :
    (is_vars_line : Text → Bool) (which : ConfigFile) (n : ℕ) (raw : Text)
    → line_problem is_vars_line which n raw ≡ none
    → IsAllowed is_vars_line which raw
unfolding line_problem
line_problem_sound is_vars_line vars n raw h = ground arith
line_problem_sound is_vars_line server n raw h =
    (ground arith, not-is_privileged (option_name raw) (ground arith))
line_problem_sound is_vars_line client n raw h =
    (ground arith, not-is_privileged (option_name raw) (ground arith))

or_else-none : (a b : Option Refusal) → or_else a b ≡ none → (a ≡ none) × (b ≡ none)
or_else-none none b h = (refl, h)
or_else-none (some p) b h = absurd (ground arith)

check_lines_sound :
    (is_vars_line : Text → Bool) (which : ConfigFile) (known : List Text) (n : ℕ)
    (lines : List Text)
    → check_lines is_vars_line which known n lines ≡ none
    → (raw : Text) → Member raw lines
    → Member (strip is_c_space raw) known ⊎ IsAllowed is_vars_line which raw
unfolding check_lines
check_lines_sound is_vars_line which known n [] h raw m = elim m [ ]
check_lines_sound is_vars_line which known n (l ∷ lines) h raw m =
    elim (Bool-cases (is_one_of (strip is_c_space l) known)) [
      | inl old ↦
          let rest : check_lines is_vars_line which known (n + 1) lines ≡ none = rw old at h in
          (elim m [
            | inl e ↦ rw e (inl (is_one_of_sound (strip is_c_space l) known old))
            | inr m' ↦ check_lines_sound is_vars_line which known (n + 1) lines rest raw m'
          ])
      | inr new ↦
          let (fine, rest) = or_else-none _ _ (rw new at h) in
          (elim m [
            | inl e ↦ rw e (inr (line_problem_sound is_vars_line which n l fine))
            | inr m' ↦ check_lines_sound is_vars_line which known (n + 1) lines rest raw m'
          ])
    ]

-- An accepted edit holds no control character, and each of its lines either is in force today (or
-- one of the two of the 2FA switch), up to blanks at its ends, or is allowed: for OpenVPN's files it
-- has at most 255 bytes and sets no privileged option; for easy-rsa's file it is blank, a comment or
-- one of the listed variables.
pub check_edit_sound :
    (is_vars_line : Text → Bool) (which : ConfigFile) (current content : Text)
    → check_edit is_vars_line which current content ≡ none
    → (any is_control (unix_newlines content) ≡ false)
      × ((raw : Text)
          → Member raw (edited_lines (unix_newlines content))
          → Member (strip is_c_space raw) (known_lines current) ⊎ IsAllowed is_vars_line which raw)
unfolding check_edit
check_edit_sound is_vars_line which current content h =
    elim (Bool-cases (any is_control (unix_newlines content))) [
      | inl bad ↦ absurd (ground arith)
      | inr fine ↦ (
        fine,
        check_lines_sound is_vars_line which (known_lines current) 1
            (edited_lines (unix_newlines content)) (rw fine at h),
      )
    ]
