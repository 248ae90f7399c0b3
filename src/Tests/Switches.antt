-- ===== src/Tests/Switches.antt =====
-- ui/app/pki.py: a server.conf whose two-factor lines are switched off.
use mathlib.Core.Bool.{false≢true}
use openvpn_server.Base.{
  ap, text_eq, ◌≡◌, refl, true, false, some, [], ◌∷◌, ◌++◌, Text, codes, All, lstrip, starts_with,
  splitlines, join, delete_where,
}
use openvpn_server.Pki.Options.{unix_newlines}
use openvpn_server.Pki.TwoFactor.{
  verify_word, Saved, option_at, sets_from, sets_option, tfa_enforced, write_config,
  set_tfa_enforced,
}
use openvpn_server.Pki.Lines.{unlines}
use openvpn_server.Pki.Enforced.{lines_after, IsBare, set_tfa_enforced-tfa_enforced}

abbrev conf : Text
conf = codes "management x" ++ 10 ∷ codes " auth-user-pass-verify a" ++ 10 ∷ []

abbrev saved : Saved
saved = record {
  file =
      codes "management x"
      ++ 10 ∷ codes "#auth-user-pass-verify /opt/app/bin/oath.sh via-file"
      ++ 10 ∷ codes "#auth-gen-token 43200"
      ++ 10 ∷ [];
  backup = some conf;
}

switches : set_tfa_enforced true false (some conf) ≡ some saved
unfolding set_tfa_enforced write_config sets_from option_at unix_newlines join delete_where
    splitlines lstrip starts_with
switches = refl

conf_lines : All (λ l. ¬ IsBare l) (splitlines conf)
unfolding splitlines lstrip starts_with text_eq
conf_lines = (
  λ e. false≢true (ap (λ t. text_eq t verify_word) e),
  (λ e. false≢true (ap (λ t. text_eq t verify_word) e), tt),
)

set_tfa_enforced-tfa_enforced_example :
    (tfa_enforced saved.file ≡ false)
    × (saved.file ≡ unlines (lines_after false (some conf)))
    × (sets_option (codes "management") saved.file ≡ true)
    × (some conf ≡ some conf)
set_tfa_enforced-tfa_enforced_example =
    set_tfa_enforced-tfa_enforced true false (some conf) saved conf_lines switches
