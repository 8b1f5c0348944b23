-- ===== src/Online/Machine/Lifecycle.antt =====
-- The machine under every sequence of calls: the states it passes through, and its invariant.
use lirvena.Base.{
  ℕ, ◌≡◌, ◌⊎◌, inl, inr, Bool, true, false, Option, none, some, List, [], ◌∷◌, arith,
}
use lirvena.Online.Model.{
  OnlineGeneration, OnlineState, stopped, synchronizing, bootstrapping, confirming, online,
  protective_offline,
}
use lirvena.Online.Plan.{OnlinePlan}
use lirvena.Online.Plan.Accepts.{IsPlan}
use lirvena.Online.Machine.{
  OnlineMachine, new, start, poll_due, stop, at_rest, clear_schedule, require_state,
  initial_sync_succeeded, enter_online, security_bootstrap_succeeded, status_confirmation_completed,
  heartbeat_completed, delayed_sync_completed, required_action_failed, poll_heartbeat, poll_delayed,
  owned_by, generation_of,
}
use lirvena.Online.Machine.Invariant.{
  IsMachine, new-IsMachine, stop-IsMachine, start-IsMachine, initial_sync-IsMachine,
  bootstrap-IsMachine, confirmation-IsMachine, poll-IsMachine, heartbeat-IsMachine,
  delayed-IsMachine, failed-IsMachine,
}
use lirvena.Online.Machine.Fencing.{
  Report, initial_synced, bootstrapped, confirmed, heartbeat_done, delayed_done, action_failed,
  report,
}

-- Every call that changes the machine.
pub data Call : Type 0 where
  starts : OnlineGeneration → Call
  reports : OnlineGeneration → Report → Call
  polls : ℕ → Call
  stops : Call

unfoldable pub step : Call → OnlineMachine → OnlineMachine
step (starts g) m = (start g m).1
step (reports g r) m = (report g r m).1
step (polls now) m = (poll_due now m).1
step stops m = stop m

unfoldable pub run : List Call → OnlineMachine → OnlineMachine
run [] m = m
run (c ∷ cs) m = run cs (step c m)

report-IsMachine :
    (g : OnlineGeneration) (r : Report) (m : OnlineMachine)
    → IsMachine m
    → IsMachine (report g r m).1
unfolding report
report-IsMachine g (initial_synced now delay) m h =
    ground (arith, initial_sync-IsMachine g now delay m h)
report-IsMachine g (bootstrapped now) m h = ground (arith, bootstrap-IsMachine g now m h)
report-IsMachine g (confirmed now) m h = ground (arith, confirmation-IsMachine g now m h)
report-IsMachine g (heartbeat_done now i) m h = ground (arith, heartbeat-IsMachine g now i m h)
report-IsMachine g (delayed_done now d) m h = ground (arith, delayed-IsMachine g now d m h)
report-IsMachine g action_failed m h = ground (arith, failed-IsMachine g m h)

step-IsMachine : (c : Call) (m : OnlineMachine) → IsMachine m → IsMachine (step c m)
unfolding step
step-IsMachine (starts g) m h = start-IsMachine g m h
step-IsMachine (reports g r) m h = report-IsMachine g r m h
step-IsMachine (polls now) m h = poll-IsMachine now m h
step-IsMachine stops m h = stop-IsMachine m h

run_keeps : (cs : List Call) (m : OnlineMachine) → IsMachine m → IsMachine (run cs m)
unfolding run
run_keeps [] m h = h
run_keeps (c ∷ cs) m h = run_keeps cs (step c m) (step-IsMachine c m h)

-- Whatever calls are made of a new machine of a valid plan, in whatever order and with whatever
-- outcomes: its heartbeat interval stays within the plan's range, and only an online machine has
-- a heartbeat deadline or an action in flight.
pub run-IsMachine :
    (cs : List Call) (plan : OnlinePlan) → IsPlan plan → IsMachine (run cs (new plan))
run-IsMachine cs plan h = run_keeps cs (new plan) (new-IsMachine plan h)

-- The transition diagram of one plan: `confirms` tells whether it has a confirmation action.
pub data Edge (confirms : Bool) : OnlineState → OnlineState → Type 0 where
  begin :
      {s : OnlineState} {g : OnlineGeneration}
      → at_rest s ≡ true
      → Edge confirms s (synchronizing g)
  synced :
      {g h : OnlineGeneration} → g.get ≡ h.get → Edge confirms (synchronizing g) (bootstrapping h)
  ask :
      {g h : OnlineGeneration}
      → g.get ≡ h.get
      → confirms ≡ true
      → Edge confirms (bootstrapping g) (confirming h)
  enter :
      {g h : OnlineGeneration}
      → g.get ≡ h.get
      → confirms ≡ false
      → Edge confirms (bootstrapping g) (online h)
  confirm : {g h : OnlineGeneration} → g.get ≡ h.get → Edge confirms (confirming g) (online h)
  fall :
      {s : OnlineState} {g : OnlineGeneration}
      → owned_by g (generation_of s) ≡ true
      → at_rest s ≡ false
      → Edge confirms s (protective_offline g)
  halt : {s : OnlineState} → Edge confirms s stopped

abbrev pub has_confirmation : OnlinePlan → Bool
has_confirmation plan = elim plan.status_confirmation [ none ↦ false | some id ↦ true ]

-- The state after a call is the old one, or the end of an edge that begins there.
abbrev pub Follows : OnlineMachine → OnlineMachine → Type 0
Follows m n = (n.state ≡ m.state) ⊎ Edge (has_confirmation m.plan) m.state n.state

start-Follows : (g : OnlineGeneration) (m : OnlineMachine) → Follows m (start g m).1
unfolding start clear_schedule
start-Follows g m = grind (arith, begin)

initial_sync-Follows :
    (g : OnlineGeneration) (now : ℕ) (d : Option ℕ) (m : OnlineMachine)
    → Follows m (initial_sync_succeeded g now d m).1
unfolding initial_sync_succeeded require_state
initial_sync-Follows g now d m = grind (arith, synced)

enter-Follows :
    (g : OnlineGeneration) (now : ℕ) (m : OnlineMachine)
    → ((enter_online g now m).1.state ≡ m.state) ⊎ ((enter_online g now m).1.state ≡ online g)
unfolding enter_online
enter-Follows g now m = ground arith

bootstrap-Follows :
    (g : OnlineGeneration) (now : ℕ) (m : OnlineMachine)
    → Follows m (security_bootstrap_succeeded g now m).1
unfolding security_bootstrap_succeeded require_state
bootstrap-Follows g now m = grind (arith, ask, enter, enter-Follows g now m)

confirmation-Follows :
    (g : OnlineGeneration) (now : ℕ) (m : OnlineMachine)
    → Follows m (status_confirmation_completed g now m).1
unfolding status_confirmation_completed require_state
confirmation-Follows g now m = grind (arith, confirm, enter-Follows g now m)

failed-Follows :
    (g : OnlineGeneration) (m : OnlineMachine) → Follows m (required_action_failed g m).1
unfolding required_action_failed clear_schedule
failed-Follows g m = grind (arith, fall)

report-Follows :
    (g : OnlineGeneration) (r : Report) (m : OnlineMachine) → Follows m (report g r m).1
unfolding report heartbeat_completed delayed_sync_completed
report-Follows g (initial_synced now d) m = ground (arith, initial_sync-Follows g now d m)
report-Follows g (bootstrapped now) m = ground (arith, bootstrap-Follows g now m)
report-Follows g (confirmed now) m = ground (arith, confirmation-Follows g now m)
report-Follows g (heartbeat_done now i) m = inl (ground arith)
report-Follows g (delayed_done now d) m = inl (ground arith)
report-Follows g action_failed m = ground (arith, failed-Follows g m)

-- Every call either keeps the state or moves it along an edge of the diagram, under the
-- generation that owns the machine.
pub step-Follows : (c : Call) (m : OnlineMachine) → Follows m (step c m)
unfolding step stop clear_schedule poll_due poll_heartbeat poll_delayed
step-Follows (starts g) m = start-Follows g m
step-Follows (reports g r) m = report-Follows g r m
step-Follows (polls now) m = inl (ground arith)
step-Follows stops m = inr halt

abbrev pub Owner : OnlineGeneration → OnlineState → Type 0
Owner k s = owned_by k (generation_of s) ≡ true

-- The calls contain a start of this generation.
abbrev pub Started : OnlineGeneration → List Call → Type 0
Started k [] = ⊥
Started k (starts g ∷ cs) = (g.get ≡ k.get) ⊎ Started k cs
Started k (reports g r ∷ cs) = Started k cs
Started k (polls now ∷ cs) = Started k cs
Started k (stops ∷ cs) = Started k cs

start-Owner :
    (k g : OnlineGeneration) (m : OnlineMachine)
    → Owner k (start g m).1.state
    → Owner k m.state ⊎ (g.get ≡ k.get)
unfolding start clear_schedule
start-Owner k g m h = ground arith

report-Owner :
    (k g : OnlineGeneration) (r : Report) (m : OnlineMachine)
    → Owner k (report g r m).1.state
    → Owner k m.state
unfolding report initial_sync_succeeded security_bootstrap_succeeded status_confirmation_completed
    heartbeat_completed delayed_sync_completed required_action_failed enter_online require_state
    clear_schedule
report-Owner k g (initial_synced now d) m h = ground arith
report-Owner k g (bootstrapped now) m h = ground arith
report-Owner k g (confirmed now) m h = ground arith
report-Owner k g (heartbeat_done now i) m h = ground arith
report-Owner k g (delayed_done now d) m h = ground arith
report-Owner k g action_failed m h = ground arith

poll-Owner :
    (k : OnlineGeneration) (now : ℕ) (m : OnlineMachine)
    → Owner k (poll_due now m).1.state
    → Owner k m.state
unfolding poll_due poll_heartbeat poll_delayed
poll-Owner k now m h = ground arith

run-Owner :
    (k : OnlineGeneration) (cs : List Call) (m : OnlineMachine)
    → Owner k (run cs m).state
    → Owner k m.state ⊎ Started k cs
unfolding run step stop
run-Owner k [] m h = inl h
run-Owner k (starts g ∷ cs) m h = elim (run-Owner k cs (start g m).1 h) [
  | inl o ↦ elim (start-Owner k g m o) [ inl p ↦ inl p | inr e ↦ inr (inl e) ]
  | inr s ↦ inr (inr s)
]
run-Owner k (reports g r ∷ cs) m h = elim (run-Owner k cs (report g r m).1 h) [
  | inl o ↦ inl (report-Owner k g r m o)
  | inr s ↦ inr s
]
run-Owner k (polls now ∷ cs) m h = elim (run-Owner k cs (poll_due now m).1 h) [
  | inl o ↦ inl (poll-Owner k now m o)
  | inr s ↦ inr s
]
run-Owner k (stops ∷ cs) m h = elim (run-Owner k cs (stop m) h) [
  | inl o ↦ absurd (cc o)
  | inr s ↦ inr s
]

-- A generation owns the machine after a sequence of calls of a new one only if one of the calls
-- started it.
pub run-Owner-Started :
    (k : OnlineGeneration) (cs : List Call) (plan : OnlinePlan)
    → Owner k (run cs (new plan)).state
    → Started k cs
unfolding new
run-Owner-Started k cs plan h = elim (run-Owner k cs (new plan) h) [
  | inl o ↦ absurd (cc o)
  | inr s ↦ s
]
