-- ===== src/Online/Machine/Fencing.antt =====
-- A call for another generation than the one that owns the machine changes nothing.
use lirvena.Base.{
  ℕ, ◌+◌, ◌<◌, min, ltb, if◌then◌else◌, none, some, inl, inr, ◌≡◌, ◌⊎◌, refl, Bool, true, false,
  Option, arith, Result, ok, err,
}
use lirvena.Base.Words.{u64_max}
use lirvena.Online.Plan.{clamp_heartbeat}
use lirvena.Online.Model.{
  OnlineGeneration, OnlineState, stopped, synchronizing, bootstrapping, confirming, online,
  protective_offline, same_state,
}
use lirvena.Online.Machine.{
  OnlineMachine, require_state, checked_due, initial_sync_succeeded, enter_online,
  security_bootstrap_succeeded, status_confirmation_completed, heartbeat_completed,
  delayed_sync_completed, required_action_failed, generation_of, owned_by,
}

-- The calls that carry a generation and report on one of its actions.
pub data Report : Type 0 where
  initial_synced : ℕ → Option ℕ → Report
  bootstrapped : ℕ → Report
  confirmed : ℕ → Report
  heartbeat_done delayed_done : ℕ → Option ℕ → Report
  action_failed : Report

-- Whether the call was refused, and the machine after it.
abbrev outcome : {A : Type 0} {E : Type 0} → Result A E × OnlineMachine → Bool × OnlineMachine
outcome (ok a, m) = (false, m)
outcome (err e, m) = (true, m)

unfoldable pub report : OnlineGeneration → Report → OnlineMachine → Bool × OnlineMachine
report g (initial_synced now delay) m = outcome (initial_sync_succeeded g now delay m)
report g (bootstrapped now) m = outcome (security_bootstrap_succeeded g now m)
report g (confirmed now) m = outcome (status_confirmation_completed g now m)
report g (heartbeat_done now interval) m = outcome (heartbeat_completed g now interval m)
report g (delayed_done now delay) m = outcome (delayed_sync_completed g now delay m)
report g action_failed m = outcome (required_action_failed g m)

-- The machine is not owned by this generation.
abbrev pub Foreign : OnlineGeneration → OnlineMachine → Type 0
Foreign g m = owned_by g (generation_of m.state) ≡ false

abbrev Refuses : OnlineGeneration → OnlineState → Type 0
Refuses g s =
    (same_state s (synchronizing g) ≡ false)
    × (same_state s (bootstrapping g) ≡ false)
    × (same_state s (confirming g) ≡ false)
    × (same_state s (online g) ≡ false)
    × (owned_by g (generation_of s) ≡ false)

other-Refuses :
    (g : OnlineGeneration) (s : OnlineState) → owned_by g (generation_of s) ≡ false → Refuses g s
other-Refuses g stopped f = (refl, refl, refl, refl, refl)
other-Refuses g (synchronizing o) f = ground arith
other-Refuses g (bootstrapping o) f = ground arith
other-Refuses g (confirming o) f = ground arith
other-Refuses g (online o) f = ground arith
other-Refuses g (protective_offline o) f = ground arith

-- Every report of a generation that does not own the machine is refused, and the machine stays
-- exactly as it was.
pub report-Foreign :
    (g : OnlineGeneration) (r : Report) (m : OnlineMachine) → Foreign g m → report g r m ≡ (true, m)
unfolding report initial_sync_succeeded security_bootstrap_succeeded status_confirmation_completed
    heartbeat_completed delayed_sync_completed required_action_failed require_state
report-Foreign g (initial_synced now delay) m f = rw ((other-Refuses g m.state f).0)
report-Foreign g (bootstrapped now) m f = rw ((other-Refuses g m.state f).1)
report-Foreign g (confirmed now) m f = rw ((other-Refuses g m.state f).2)
report-Foreign g (heartbeat_done now interval) m f = rw ((other-Refuses g m.state f).3)
report-Foreign g (delayed_done now delay) m f = rw ((other-Refuses g m.state f).3)
report-Foreign g action_failed m f = rw ((other-Refuses g m.state f).4)

-- The machine with another heartbeat interval.
abbrev pub with_interval : ℕ → OnlineMachine → OnlineMachine
with_interval interval m = record m { heartbeat_interval_ms = interval }

-- The value that a range admits in place of another.
abbrev pub within : ℕ → ℕ → ℕ → ℕ
within least most v = if ltb v least then least else min most v

-- The interval that a completed heartbeat asks for: the one that was used before, or a new one that
-- is brought into the plan's range.
abbrev pub asked : OnlineMachine → Option ℕ → ℕ
asked m none = m.heartbeat_interval_ms
asked m (some v) = within m.plan.minimum_heartbeat_ms m.plan.maximum_heartbeat_ms v

-- A heartbeat that the generation completes while it is in flight, with an interval whose next
-- deadline does not fit a `u64`.
pub record Overflows (g : OnlineGeneration) (r : Report) (m n : OnlineMachine) : Type 0 where
  pub now : ℕ
  pub interval : Option ℕ
  pub completes : r ≡ heartbeat_done now interval
  pub is_online : m.state ≡ online g
  pub in_flight : m.heartbeat_in_flight ≡ true
  pub stores : n.heartbeat_interval_ms ≡ asked m interval
  pub beyond : u64_max < now + asked m interval

same_online :
    (g : OnlineGeneration) (s : OnlineState) → same_state s (online g) ≡ true → s ≡ online g
same_online g stopped h = ground arith
same_online g (synchronizing o) h = ground arith
same_online g (bootstrapping o) h = ground arith
same_online g (confirming o) h = ground arith
same_online g (online o) h = ground arith
same_online g (protective_offline o) h = ground arith

module _ (g : OnlineGeneration) (now : ℕ) (interval : Option ℕ) (m : OnlineMachine) where
  abbrev beaten : OnlineMachine
  beaten = (report g (heartbeat_done now interval) m).1

  heartbeat_refused :
      (report g (heartbeat_done now interval) m).0 ≡ true
      → (beaten ≡ with_interval beaten.heartbeat_interval_ms m)
        × ((beaten ≡ m)
            ⊎ ((same_state m.state (online g) ≡ true)
                × (m.heartbeat_in_flight ≡ true)
                × (beaten.heartbeat_interval_ms ≡ asked m interval)
                × (u64_max < now + asked m interval)))
  unfolding report heartbeat_completed require_state checked_due clamp_heartbeat
  heartbeat_refused h = ground arith

-- A refused report leaves the machine as it was, with one exception: a heartbeat that the online
-- generation completes while it is in flight, and whose next deadline overflows, has already stored
-- its interval, and nothing else.
pub report_refused :
    (g : OnlineGeneration) (r : Report) (m : OnlineMachine)
    → (report g r m).0 ≡ true
    → let n = (report g r m).1 in
      (n ≡ with_interval n.heartbeat_interval_ms m) × ((n ≡ m) ⊎ Overflows g r m n)
unfolding report initial_sync_succeeded security_bootstrap_succeeded status_confirmation_completed
    delayed_sync_completed required_action_failed enter_online
report_refused g (initial_synced now delay) m h = ground arith
report_refused g (bootstrapped now) m h = ground arith
report_refused g (confirmed now) m h = ground arith
report_refused g (heartbeat_done now interval) m h =
    let (same, left) = heartbeat_refused g now interval m h in
    (
      same,
      elim left [
        | inl e ↦ inl e
        | inr (s, f, k, o) ↦ inr (record {
          now = now;
          interval = interval;
          completes = refl;
          is_online = same_online g m.state s;
          in_flight = f;
          stores = k;
          beyond = o;
        })
      ],
    )
report_refused g (delayed_done now delay) m h = ground arith
report_refused g action_failed m h = ground arith
