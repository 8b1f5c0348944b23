-- ===== src/Login/Progress.antt =====
-- How far a login has come.
use lirvena.Base.{
  ℕ, suc, ◌≤◌, ◌≡◌, inl, inr, true, List, [], ◌∷◌, length, take, arith, Bool-cases, ltb,
}
use lirvena.Login.{
  LoginState, stopped, fetching_qr, awaiting_scan, awaiting_confirmation, exchanging_credentials,
  registering, online, protective_offline, failed, qr_expired, qr_canceled, LoginMachine, new,
  is_allowed, transition,
}

-- The stages: at rest, a code is fetched, it is shown, credentials are exchanged, the account is
-- registered, it is online.
abbrev pub stage : LoginState → ℕ
stage stopped = 0
stage fetching_qr = 1
stage awaiting_scan = 2
stage awaiting_confirmation = 2
stage exchanging_credentials = 3
stage registering = 4
stage online = 5
stage protective_offline = 0
stage (failed f) = 0
stage qr_expired = 0
stage qr_canceled = 0

-- A run of requests. A refused request changes nothing.
unfoldable pub run : List LoginState → LoginMachine → LoginMachine
run [] m = m
run (r ∷ rs) m = run rs (transition r m).1

allowed-stage : (from to : LoginState) → is_allowed from to ≡ true → stage to ≤ suc (stage from)
unfolding is_allowed
allowed-stage from to h = ground arith

pub transition-stage :
    (next : LoginState) (m : LoginMachine) → stage (transition next m).1.state ≤ suc (stage m.state)
unfolding transition
transition-stage next m = ground (arith, allowed-stage m.state next)

pub run-stages :
    (rs : List LoginState) (m : LoginMachine) (k : ℕ)
    → stage m.state ≤ k
    → k ≤ stage (run rs m).state
    → (n : ℕ) × (n ≤ length rs) × (stage (run (take n rs) m).state ≡ k)
unfolding run
run-stages [] m k low high = (0, omega arith, omega arith)
run-stages (r ∷ rs) m k low high = elim (Bool-cases (ltb (stage m.state) k)) [
  | inr same ↦ (0, omega arith, ground arith)
  | inl later ↦
      let next = (transition r m).1 in
      let (n, fits, here) = run-stages rs next k (ground (arith, transition-stage r m)) high in
      (suc n, omega (arith, fits), here)
]

-- An account comes online by no shorter way: a run from a new machine that ends online was, after
-- one of its prefixes, at each of the stages before, from the fetched code to the registration.
pub online-stages :
    (rs : List LoginState) (k : ℕ)
    → (run rs new).state ≡ online
    → k ≤ 5
    → (n : ℕ) × (n ≤ length rs) × (stage (run (take n rs) new).state ≡ k)
online-stages rs k h fits = run-stages rs new k (omega arith) (rw h fits)
