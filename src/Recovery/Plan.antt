-- ===== src/Recovery/Plan.antt =====
-- bin/recover-checkout.py: what the recovery of a checkout overwrites.
use openvpn_server.Base.{
  ◌≡◌, ◌⊎◌, inl, inr, refl, sym, ap, ◌∙◌, subst, arith, true, false, not, ◌||◌, Bool-cases, Option,
  none, some, some_eq, List, [], ◌∷◌, ◌++◌, Text, codes, text_eq, text_eq_sound, Member,
  Member-append_left, Member-snoc_self,
}
use openvpn_server.Recovery.{
  compose, runtime_files, Sources, same, Verdict, kept, stopped, restored, copied, judge,
  judge_current, plan_file, plan_next, is_stop, plan_files, runtime_plan,
}

same_sound : (a b : Option Text) → same a b ≡ true → a ≡ b
same_sound none none h = refl
same_sound (some a) (some b) h = ap some (text_eq_sound a b h)
same_sound none (some b) h = absurd (ground arith)
same_sound (some a) none h = absurd (ground arith)

-- A file that may be overwritten: it is as the stash's base left it, and both it and what replaces
-- it have a private copy.
abbrev pub IsRestorable : Sources → Text → Text → List (Text × Text) → Type 0
IsRestorable s name text copies =
    (old : Text) × (s.current name ≡ some (some old))
    × (s.base name ≡ some old)
    × (s.saved name ≡ some text)
    × (text_eq name compose ≡ false)
    × Member (codes "working-config/" ++ name, old) copies
    × Member (codes "previous-stash/" ++ name, text) copies

Member-copied :
    (folder name : Text) (o : Option Text) (c : Text × Text) (copies : List (Text × Text))
    → Member c copies
    → Member c (copied folder name o copies)
Member-copied folder name none c copies m = m
Member-copied folder name (some text) c copies m = Member-append_left c copies _ m

restored_eq : (a b : Text) → restored a ≡ restored b → a ≡ b
restored_eq a b h = cc

judge_sound :
    (base saved target current : Option Text) (text : Text)
    → judge base saved target current ≡ restored text
    → (old : Text) × (current ≡ some old) × (base ≡ some old) × (saved ≡ some text)
unfolding judge
judge_sound none (some saved) target current text h = absurd (ground arith)
judge_sound base none target current text h = absurd (ground arith)
judge_sound (some old) (some saved) target current text h =
    elim (Bool-cases
      (not (same current (some old)) || not (same target (some old) || same target (some saved)))) [
        | inl stop ↦ absurd (ground arith)
        | inr go ↦ (old, same_sound current (some old) (ground arith), refl, ground arith)
      ]

judge_current_sound :
    (s : Sources) (name text : Text) (copies : List (Text × Text)) (o : Option (Option Text))
    → s.current name ≡ o
    → (judge_current s name copies o).0 ≡ restored text
    → (old : Text) × (s.current name ≡ some (some old))
      × (s.base name ≡ some old)
      × (s.saved name ≡ some text)
      × Member (codes "working-config/" ++ name, old) (judge_current s name copies o).1
unfolding judge_current
judge_current_sound s name text copies none at h = absurd (ground arith)
judge_current_sound s name text copies (some current) at h =
    elim (Bool-cases (same current (s.saved name))) [
      | inl already ↦ absurd (ground arith)
      | inr changed ↦
          let (old, now, base, saved) =
            judge_sound (s.base name) (s.saved name) (s.target name) current text
              (rw changed at h) in
          (
            old,
            at ∙ ap some now,
            base,
            saved,
            subst
                (λ (o : Option Text).
                  Member (codes "working-config/" ++ name, old)
                    (copied (codes "working-config/") name o copies))
                (sym now) (Member-snoc_self _ copies),
          )
    ]

judge_current_keeps :
    (s : Sources) (name : Text) (copies : List (Text × Text)) (o : Option (Option Text))
    (c : Text × Text)
    → Member c copies
    → Member c (judge_current s name copies o).1
unfolding judge_current
judge_current_keeps s name copies none c m = m
judge_current_keeps s name copies (some current) c m =
    Member-copied (codes "working-config/") name current c copies m

plan_file_keeps :
    (s : Sources) (name : Text) (copies : List (Text × Text)) (c : Text × Text)
    → Member c copies
    → Member c (plan_file s name copies).1
unfolding plan_file
plan_file_keeps s name copies c m = elim (Bool-cases (same (s.saved name) (s.base name))) [
  | inl equal ↦ rw equal m
  | inr changed ↦
      let more = Member-copied (codes "previous-stash/") name (s.saved name) c copies m in
      elim (Bool-cases (text_eq name compose)) [
        | inl yaml ↦ rw (changed, yaml) more
        | inr other ↦ rw (changed, other) (judge_current_keeps s name _ (s.current name) c more)
      ]
]

plan_file_sound :
    (s : Sources) (name text : Text) (copies : List (Text × Text))
    → (plan_file s name copies).0 ≡ restored text
    → IsRestorable s name text (plan_file s name copies).1
unfolding plan_file
plan_file_sound s name text copies h = elim (Bool-cases (same (s.saved name) (s.base name))) [
  | inl equal ↦ absurd (ground arith)
  | inr changed ↦
      let copies' = copied (codes "previous-stash/") name (s.saved name) copies in
      elim (Bool-cases (text_eq name compose)) [
        | inl yaml ↦ absurd (ground arith)
        | inr other ↦
            let (old, now, base, saved, working) =
              judge_current_sound s name text copies' (s.current name) refl
                (rw (changed, other) at h) in
            let stashed : Member (codes "previous-stash/" ++ name, text) copies' =
              subst
                (λ (o : Option Text).
                  Member (codes "previous-stash/" ++ name, text)
                    (copied (codes "previous-stash/") name o copies))
                (sym saved) (Member-snoc_self _ copies) in
            rw (changed, other)
              (
                old,
                now,
                base,
                saved,
                refl,
                working,
                judge_current_keeps s name copies' (s.current name) _ stashed,
              )
      ]
]

plan_files_keeps :
    (s : Sources) (names : List Text) (copies : List (Text × Text)) (c : Text × Text)
    → Member c copies
    → Member c (plan_files s names copies).1
unfolding plan_files
plan_files_keeps s [] copies c m = m
plan_files_keeps s (name ∷ names) copies c m =
    let now = plan_file_keeps s name copies c m in
    elim (Bool-cases (is_stop (plan_file s name copies).0)) [
      | inl stop ↦ rw stop now
      | inr on ↦ rw on (plan_files_keeps s names (plan_file s name copies).1 c now)
    ]

IsRestorable-keeps :
    (s : Sources) (name text : Text) (copies more : List (Text × Text))
    → ((c : Text × Text) → Member c copies → Member c more)
    → IsRestorable s name text copies
    → IsRestorable s name text more
IsRestorable-keeps s name text copies more keep (old, now, base, saved, other, working, stashed) =
    (old, now, base, saved, other, keep _ working, keep _ stashed)

plan_next_sound :
    (name : Text) (v : Verdict) (rest : Option (List (Text × Text))) (plan : List (Text × Text))
    (c : Text × Text)
    → plan_next name v rest ≡ some plan
    → Member c plan
    → (is_stop v ≡ false)
      × (((v ≡ restored c.1) × (c.0 ≡ name))
          ⊎ ((others : List (Text × Text)) × (rest ≡ some others) × Member c others))
unfolding plan_next is_stop
plan_next_sound name kept rest plan c h m = (refl, inr (plan, h, m))
plan_next_sound name stopped rest plan c h m = absurd (ground arith)
plan_next_sound name (restored text) none plan c h m = absurd (ground arith)
plan_next_sound name (restored text) (some others) plan c h m = (
  refl,
  elim (subst (Member c) (sym (some_eq h)) m) [
    | inl is ↦
        inl (ap (λ (d : Text × Text). restored d.1) (sym is), ap (λ (d : Text × Text). d.0) is)
    | inr later ↦ inr (others, refl, later)
  ],
)

plan_files_sound :
    (s : Sources) (names : List Text) (copies plan : List (Text × Text)) (name text : Text)
    → (plan_files s names copies).0 ≡ some plan
    → Member (name, text) plan
    → IsRestorable s name text (plan_files s names copies).1
unfolding plan_files
plan_files_sound s [] copies plan name text h m =
    elim (subst (Member (name, text)) (sym (some_eq h)) m) [ ]
plan_files_sound s (first ∷ names) copies plan name text h m =
    let (verdict, copies') = plan_file s first copies in
    let (on, how) = plan_next_sound first verdict _ plan (name, text) h m in
    rw on (elim how [
      | inl (restores, is) ↦
          IsRestorable-keeps s name text copies' _ (plan_files_keeps s names copies') (
            subst (λ n. IsRestorable s n text (plan_file s first copies).1) (sym is)
              (plan_file_sound s first text copies restores))
      | inr (others, rest, later) ↦ plan_files_sound s names copies' others name text rest later
    ])

-- What the recovery plans to overwrite is safe to: the file is still as it was when the stash was
-- made, it is not the Compose file, it gets the stash's text, and both texts have a private copy
-- first.
pub runtime_plan_sound :
    (stash : Option Sources) (copies plan : List (Text × Text)) (name text : Text)
    → (runtime_plan stash copies).0 ≡ some plan
    → Member (name, text) plan
    → (s : Sources) × (stash ≡ some s) × IsRestorable s name text (runtime_plan stash copies).1
unfolding runtime_plan
runtime_plan_sound none copies plan name text h m =
    elim (subst (Member (name, text)) (sym (some_eq h)) m) [ ]
runtime_plan_sound (some s) copies plan name text h m =
    (s, refl, plan_files_sound s runtime_files copies plan name text h m)
