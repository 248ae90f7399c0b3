-- ===== src/Tests/Checkout.antt =====
-- bin/recover-checkout.py: a stash with a changed configuration, and the theorem about it.
use openvpn_server.Base.{
  ◌≡◌, inl, refl, some, none, [], ◌∷◌, Text, codes, text_eq, Option, if◌then◌else◌,
}
use openvpn_server.Recovery.{
  Sources, judge, judge_current, plan_file, plan_next, is_stop, plan_files, runtime_plan,
}
use openvpn_server.Recovery.Plan.{IsRestorable, runtime_plan_sound}

abbrev only_server : Text → Text → Option Text
only_server text name = if text_eq name (codes "server.conf") then some text else none

abbrev sources : Sources
sources = record {
  base = only_server (codes "old");
  saved = only_server (codes "mine");
  target = only_server (codes "old");
  current = λ name. some (only_server (codes "old") name);
}

runtime_plan_sound_example :
    (s : Sources) × (some sources ≡ some s)
    × IsRestorable s (codes "server.conf") (codes "mine") (runtime_plan (some sources) []).1
unfolding runtime_plan plan_files plan_file plan_next is_stop judge_current judge text_eq
runtime_plan_sound_example =
    runtime_plan_sound (some sources) [] ((codes "server.conf", codes "mine") ∷ [])
      (codes "server.conf") (codes "mine") refl (inl refl)
