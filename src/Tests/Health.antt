-- ===== src/Tests/Health.antt =====
-- ui/app/watchdog.py: three failed checks in a row after a good one.
use openvpn_server.Base.{◌≡◌, ◌↔◌, true, false, [], ◌∷◌, arith, List, Bool}
use openvpn_server.Watchdog.{watch, HasRun, watch-HasRun_iff}

abbrev checks : List Bool
checks = false ∷ true ∷ false ∷ false ∷ false ∷ []

watch-HasRun_iff_example : (watch 3 0 checks ≡ true) ↔ HasRun 3 checks
watch-HasRun_iff_example = watch-HasRun_iff 3 checks (omega arith)
