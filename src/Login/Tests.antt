-- ===== src/Login/Tests.antt =====
-- A login.
use lirvena.Base.{ℕ, ◌≤◌, ◌≡◌, refl, List, [], ◌∷◌, take, arith}
use lirvena.Login.{
  LoginState, fetching_qr, awaiting_scan, exchanging_credentials, registering, online, new,
  is_allowed, transition,
}
use lirvena.Login.Progress.{run, stage, online-stages}

abbrev requests : List LoginState
requests = fetching_qr ∷ online ∷ awaiting_scan ∷ exchanging_credentials ∷ registering ∷ online ∷ []

requests-online : (run requests new).state ≡ online
unfolding run transition is_allowed
requests-online = refl

online-stages_example : (n : ℕ) × (n ≤ 6) × (stage (run (take n requests) new).state ≡ 3)
online-stages_example = online-stages requests 3 requests-online (omega arith)
