-- ===== src/Tests/Files.antt =====
-- ui/app/pki.py: an option in three spellings and an accepted edit, and the theorems about them.
use openvpn_server.Base.{
  ℕ, ◌≡◌, ◌⊎◌, refl, false, none, some, [], ◌∷◌, ◌++◌, Text, codes, Member, any, strip, split,
  text_eq, starts_with, ap, sym, ◌∙◌, inl, inr, Option,
}
use openvpn_server.Pki.Options.{
  is_c_space, is_control, unbracketed, undashed, option_name, unix_newlines, known_lines,
  edited_lines, server, check_edit, check_lines, line_problem, utf8_length, is_one_of,
  is_privileged, scan, act, ends_with, init,
}
use openvpn_server.Pki.Spellings.{
  blank_first, begins, escaped_plain, blank_ends, option_name-spellings,
}
use openvpn_server.Pki.Names.{is_valid_name, matches_name, all_name_chars, is_reserved}
use openvpn_server.Pki.Addresses.{
  Files, static_ip_problem, address_problem, subnet_problem, other_owner, in_guest_range,
  put_static, set_static_ip,
}
use openvpn_server.Pki.Owners.{IsAssigned, set_static_ip-IsAssigned}
use openvpn_server.Pki.Editing.{check_edit_sound, IsAllowed}

-- `u\p /bin/x`, after a tab.
option_name-spellings_example :
    option_name (9 ∷ 117 ∷ 92 ∷ 112 ∷ codes " /bin/x") ≡ unbracketed (undashed (codes "up"))
option_name-spellings_example =
    option_name-spellings (9 ∷ 117 ∷ 92 ∷ 112 ∷ codes " /bin/x") (codes "up") (
      blank_first 9 refl
        (begins 117 refl (escaped_plain 112 refl (blank_ends 32 (codes "/bin/x") refl))))

abbrev current : Text
current = codes "up /bin/x"

abbrev content : Text
content = current ++ 10 ∷ codes "verb 3"

check_edit_sound_example :
    (any is_control (unix_newlines content) ≡ false)
    × ((raw : Text)
        → Member raw (edited_lines (unix_newlines content))
        → Member (strip is_c_space raw) (known_lines current) ⊎ IsAllowed (λ l. false) server raw)
unfolding check_edit check_lines line_problem utf8_length is_one_of is_privileged scan act ends_with
    init option_name unix_newlines text_eq split strip starts_with
check_edit_sound_example = check_edit_sound (λ l. false) server current content refl

abbrev files : Files
files = record {
  static_ips = (codes "ann", codes "10.8.0.200") ∷ [];
  guests = codes "gus" ∷ [];
  subnet = some (record {
    net = record { base = 168296448; prefix = 24 };
    pool = some (168296450, 168296547);
  });
  guest_net = none;
}

abbrev read_ip : Text → Option ℕ
read_ip t = some 168296649

assigned : IsAssigned files
assigned = record {
  owner = λ n m a x y. elim x [
    | inr x' ↦ elim x' [ ]
    | inl e ↦ elim y [ inr y' ↦ elim y' [ ] | inl e' ↦ ap (λ p. p.0) e ∙ sym (ap (λ p. p.0) e') ]
  ];
  guest = λ n a x. elim x [
    | inr x' ↦ elim x' [ ]
    | inl e ↦ unfold text_eq in rw (ap (λ p. p.0) e) refl
  ];
}

set_static_ip-IsAssigned_example : IsAssigned (record files {
  static_ips = (codes "ann", codes "10.8.0.200") ∷ (codes "bob", codes "10.8.0.201") ∷ [];
})
unfolding set_static_ip static_ip_problem address_problem subnet_problem other_owner in_guest_range
    put_static text_eq is_valid_name matches_name all_name_chars is_reserved
set_static_ip-IsAssigned_example =
    set_static_ip-IsAssigned read_ip (codes "bob") (codes "10.8.0.201") files _ refl assigned
