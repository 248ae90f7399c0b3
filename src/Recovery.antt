-- ===== src/Recovery.antt =====
-- bin/recover-checkout.py: which files of the deployment are restored from a stash. What Git and the
-- file system hold is read by parameters; a RecoveryError is `stopped`.
pub mod Plan
use openvpn_server.Base.{
  ℕ, ◌≡◌, ◌⊎◌, inl, inr, refl, sym, ap, ◌∙◌, subst, arith, Bool, true, false, not, ◌&&◌, ◌||◌,
  Bool-cases, Option-cases, Option, none, some, some_eq, List, [], ◌∷◌, ◌++◌, Text, codes, text_eq,
  text_eq_sound, if◌then◌else◌, is_none, any, starts_with, Member, Member-snoc, Member-append_left,
  Member-snoc_self,
}

-- CODE_DIRS without ".git", and CODE_FILES
abbrev pub code_dirs : List Text
code_dirs =
    codes ".github"
    ∷ codes "bin"
    ∷ codes "relay"
    ∷ codes "signer"
    ∷ codes "postgres"
    ∷ codes "tests"
    ∷ codes "ui"
    ∷ []

abbrev pub code_files : List Text
code_files =
    codes ".dockerignore"
    ∷ codes ".env.example"
    ∷ codes ".gitignore"
    ∷ codes "CHANGELOG.md"
    ∷ codes "README.md"
    ∷ codes "backup.sh"
    ∷ codes "docker-compose.yml"
    ∷ codes "Dockerfile"
    ∷ codes "docker-entrypoint.sh"
    ∷ codes "LICENSE"
    ∷ []

unfoldable pub is_code : Text → Bool
is_code name =
    any (λ f. text_eq f name) code_files || any (λ d. starts_with name (d ++ b'/' ∷ [])) code_dirs

abbrev pub compose : Text
compose = codes "docker-compose.yml"

-- RUNTIME_CONFIGS and the Compose file
abbrev pub runtime_files : List Text
runtime_files =
    codes "server.conf"
    ∷ codes "config/client.conf"
    ∷ codes "config/easy-rsa.vars"
    ∷ codes "fw-rules.sh"
    ∷ compose
    ∷ []

-- A file in the stash's base, in the stash, in the new checkout and in the working tree; reading the
-- last may fail.
pub record Sources : Type 0 where
  pub base : Text → Option Text
  pub saved : Text → Option Text
  pub target : Text → Option Text
  pub current : Text → Option (Option Text)

abbrev pub same : Option Text → Option Text → Bool
same none none = true
same (some a) (some b) = text_eq a b
same _ _ = false

pub data Verdict : Type 0 where
  kept stopped : Verdict
  restored : Text → Verdict

abbrev pub copied : Text → Text → Option Text → List (Text × Text) → List (Text × Text)
copied folder name none copies = copies
copied folder name (some text) copies = copies ++ (folder ++ name, text) ∷ []

-- The last test, for a file with these contents.
unfoldable pub judge : Option Text → Option Text → Option Text → Option Text → Verdict
judge base (some saved) target current =
    if is_none base
      || (not (same current base) || not (same target base || same target (some saved)))
    then stopped
    else restored saved
judge base none target current = stopped

unfoldable pub judge_current :
    Sources → Text → List (Text × Text) → Option (Option Text) → Verdict × List (Text × Text)
judge_current s name copies none = (stopped, copies)
judge_current s name copies (some current) = (
  if same current (s.saved name)
      then kept
      else judge (s.base name) (s.saved name) (s.target name) current,
  copied (codes "working-config/") name current copies,
)

-- One turn of the loop of `runtime_plan`.
unfoldable pub plan_file : Sources → Text → List (Text × Text) → Verdict × List (Text × Text)
plan_file s name copies =
    if same (s.saved name) (s.base name)
    then (kept, copies)
    else (let copies = copied (codes "previous-stash/") name (s.saved name) copies in
        if text_eq name compose
        then (
          if same (s.saved name) (s.base name) || same (s.saved name) (s.target name)
              then kept
              else stopped,
          copies,
        )
        else judge_current s name copies (s.current name))

-- A stop ends the loop; the copies are kept.
unfoldable pub plan_next :
    Text → Verdict → Option (List (Text × Text)) → Option (List (Text × Text))
plan_next name kept rest = rest
plan_next name stopped rest = none
plan_next name (restored text) none = none
plan_next name (restored text) (some plan) = some ((name, text) ∷ plan)

unfoldable pub is_stop : Verdict → Bool
is_stop stopped = true
is_stop _ = false

unfoldable pub plan_files :
    Sources → List Text → List (Text × Text) → Option (List (Text × Text)) × List (Text × Text)
plan_files s [] copies = (some [], copies)
plan_files s (name ∷ names) copies =
    let (verdict, copies') = plan_file s name copies in
    let (rest, all) = plan_files s names copies' in
    (plan_next name verdict rest, if is_stop verdict then copies' else all)

-- `none` as the stash is no stash: nothing is planned.
unfoldable pub runtime_plan :
    Option Sources → List (Text × Text) → Option (List (Text × Text)) × List (Text × Text)
runtime_plan none copies = (some [], copies)
runtime_plan (some s) copies = plan_files s runtime_files copies
