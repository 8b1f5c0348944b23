-- ===== src/Account/Store/Tests.antt =====
-- A store at concrete states.
use lirvena.Base.{ℕ, ◌≡◌, refl, true, none, some, [], ◌∷◌, arith, ok, err}
use lirvena.Account.Model.{
  stopped, starting, active, protective_offline, phase_from_stored, process_restart,
  AccountSnapshot, AccountTransition, TransitionReceipt, persistence, AccountLocalId,
}
use lirvena.Account.Opening.{open_store, migrate, recover_interrupted}
use lirvena.Account.Store.{
  Faults, no_faults, AccountStore, snapshot, transition, decode_row, validate_reason, allowed,
  validate_transition, commit_transition, to_i64,
}
use lirvena.Account.Store.Rows.{row_of}
use lirvena.Account.Store.Transitions.{
  IsLawful, log_row, next_snapshot, transition_atomic, transition_receipt, transition_accepts,
}
use lirvena.Account.Store.Recovery.{AtRest, open_store-AtRest}
use lirvena.Account.Store.History.{IsHistory, created, transition-IsHistory}

abbrev pub local : AccountLocalId
local = 4 ∷ 2 ∷ []

abbrev running : AccountSnapshot
running = record {
  local_id = local;
  phase = active;
  generation = 1;
  protective_reason = none;
  updated_at_ms = 30;
}

abbrev pub resting : AccountSnapshot
resting = record running { phase = stopped; generation = 0 }

abbrev pub store_of : AccountSnapshot → AccountStore
store_of s = record {
  local_id = local;
  database = record {
    user_version = 1;
    has_tables = true;
    account_state = some (row_of s);
    account_transitions = [];
  };
}

abbrev pub starts_at : ℕ → AccountTransition
starts_at now = record { next = starting; protective_reason = none; occurred_at_ms = now }

abbrev commit_fails : Faults
commit_fails = record no_faults { commit = true }

resting_reads : snapshot no_faults (store_of resting) ≡ ok resting
unfolding snapshot decode_row validate_reason phase_from_stored
resting_reads = refl

running_reads : snapshot no_faults (store_of running) ≡ ok running
unfolding snapshot decode_row validate_reason phase_from_stored
running_reads = refl

abbrev started : TransitionReceipt
started = record { previous = resting; current = next_snapshot (store_of resting) (starts_at 40) 1 }

start_fails : (transition commit_fails (starts_at 40) (store_of resting)).0 ≡ err persistence
unfolding transition snapshot decode_row validate_reason phase_from_stored allowed
    validate_transition commit_transition to_i64
start_fails = refl

transition_atomic_example :
    (transition commit_fails (starts_at 40) (store_of resting)).1 ≡ store_of resting
transition_atomic_example =
    transition_atomic commit_fails (starts_at 40) (store_of resting) persistence start_fails

allowed_start : allowed stopped starting ≡ true
unfolding allowed
allowed_start = refl

transition_accepts_example : (transition no_faults (starts_at 40) (store_of resting)).0 ≡ ok started
transition_accepts_example =
    transition_accepts (starts_at 40) (store_of resting) resting resting_reads allowed_start
      (omega arith) refl (omega arith) (omega arith)

start_succeeds : (transition no_faults (starts_at 40) (store_of resting)).0 ≡ ok started
unfolding transition snapshot decode_row validate_reason phase_from_stored allowed
    validate_transition commit_transition to_i64
start_succeeds = refl

transition_receipt_example :
    IsLawful started (starts_at 40)
    × (snapshot no_faults (store_of resting) ≡ ok resting)
    × (snapshot no_faults (transition no_faults (starts_at 40) (store_of resting)).1
        ≡ ok started.current)
    × ((transition no_faults (starts_at 40) (store_of resting)).1.database.account_transitions
        ≡ log_row started ∷ [])
transition_receipt_example =
    transition_receipt no_faults (starts_at 40) (store_of resting) started start_succeeds

pub resting-IsHistory : IsHistory (store_of resting)
resting-IsHistory = (resting, resting_reads, created)

transition-IsHistory_example :
    IsHistory (transition commit_fails (starts_at 40) (store_of resting)).1
transition-IsHistory_example =
    transition-IsHistory commit_fails (starts_at 40) (store_of resting) resting-IsHistory

abbrev protected : AccountSnapshot
protected = record running {
  phase = protective_offline;
  protective_reason = some process_restart;
  updated_at_ms = 50;
}

abbrev recovered : AccountStore
recovered = (recover_interrupted no_faults no_faults 50 (store_of running)).1

running_opens :
    (open_store no_faults no_faults no_faults local 50 (store_of running).database).0 ≡ ok recovered
unfolding open_store migrate recover_interrupted transition snapshot decode_row validate_reason
    phase_from_stored allowed validate_transition commit_transition to_i64
running_opens = refl

open_store-AtRest_example : AtRest recovered
open_store-AtRest_example =
    open_store-AtRest no_faults no_faults no_faults local 50 (store_of running).database recovered
      running_opens
