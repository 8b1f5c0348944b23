-- ===== src/Account/Model.antt =====
-- crates/account-runtime/src/model.rs and error.rs: phases, reasons, snapshots and transitions.
use lirvena.Base.{ℕ, ◌==◌, Option, none, some, if◌then◌else◌, List}

pub data AccountRuntimeError : Type 0 where
  configuration persistence closed duplicate_account unknown_account transition_rejected
        worker_failed :
      AccountRuntimeError

pub data AccountPhase : Type 0 where
  stopped starting active protective_offline : AccountPhase

-- `phase as u8` and `AccountPhase::from_stored`.
abbrev pub phase_code : AccountPhase → ℕ
phase_code stopped = 0
phase_code starting = 1
phase_code active = 2
phase_code protective_offline = 3

unfoldable pub phase_from_stored : ℕ → Option AccountPhase
phase_from_stored value =
    if value == 0
    then some stopped
    else if value == 1
    then some starting
    else if value == 2
    then some active
    else if value == 3
    then some protective_offline
    else none

pub data ProtectiveReason : Type 0 where
  process_restart ceylith_continuity grant_unavailable profile_unavailable remote_session_ended
        worker_failure :
      ProtectiveReason

abbrev pub reason_code : ProtectiveReason → ℕ
reason_code process_restart = 1
reason_code ceylith_continuity = 2
reason_code grant_unavailable = 3
reason_code profile_unavailable = 4
reason_code remote_session_ended = 5
reason_code worker_failure = 6

unfoldable pub reason_from_stored : ℕ → Option ProtectiveReason
reason_from_stored value =
    if value == 1
    then some process_restart
    else if value == 2
    then some ceylith_continuity
    else if value == 3
    then some grant_unavailable
    else if value == 4
    then some profile_unavailable
    else if value == 5
    then some remote_session_ended
    else if value == 6
    then some worker_failure
    else none

-- The sixteen bytes of an `AccountLocalId`.
abbrev pub AccountLocalId : Type 0
AccountLocalId = List ℕ

pub record AccountSnapshot : Type 0 where
  pub local_id : AccountLocalId
  pub phase : AccountPhase
  pub generation : ℕ
  pub protective_reason : Option ProtectiveReason
  pub updated_at_ms : ℕ

pub record AccountTransition : Type 0 where
  pub next : AccountPhase
  pub protective_reason : Option ProtectiveReason
  pub occurred_at_ms : ℕ

pub record TransitionReceipt : Type 0 where
  pub previous : AccountSnapshot
  pub current : AccountSnapshot
