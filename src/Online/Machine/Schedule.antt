-- ===== src/Online/Machine/Schedule.antt =====
-- What becomes due, and when: polling against the announced deadline.
use lirvena.Base.{ℕ, ◌≡◌, Bool, true, false, ◌||◌, ◌&&◌, Option, none, some, arith, leb}
use lirvena.Online.Model.{OnlineDirective}
use lirvena.Online.Machine.{OnlineMachine, next_due_ms, poll_due, poll_heartbeat, poll_delayed}

abbrev pub some_directive : Option OnlineDirective → Bool
some_directive none = false
some_directive (some d) = true

abbrev pub reached : ℕ → Option ℕ → Bool
reached now none = false
reached now (some due) = leb due now

-- Polling dispatches something exactly when the announced deadline has come.
pub poll_due-next_due_ms :
    (now : ℕ) (m : OnlineMachine)
    → (some_directive (poll_due now m).0.0 || some_directive (poll_due now m).0.1)
      ≡ reached now (next_due_ms m)
unfolding poll_due poll_heartbeat poll_delayed next_due_ms
poll_due-next_due_ms now m = ground arith

-- An action is in flight at most once: a second poll, at whatever time, dispatches nothing that
-- the first has dispatched.
pub poll_due_single_flight :
    (now later : ℕ) (m : OnlineMachine)
    → let first = poll_due now m in
      let second = poll_due later first.1 in
      ((some_directive first.0.0 && some_directive second.0.0) ≡ false)
      × ((some_directive first.0.1 && some_directive second.0.1) ≡ false)
unfolding poll_due poll_heartbeat poll_delayed
poll_due_single_flight now later m = ground arith
