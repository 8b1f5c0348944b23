-- ===== src/Account/Store.antt =====
-- crates/account-runtime/src/store.rs and the tables of store/schema.rs: one account in its database.
-- SQLite enters as its documented effect: a statement either fails, which `Faults` decides, or
-- does what its text says, and a transaction that is not committed leaves the database as it was.
-- Paths and the opening of the file are not modelled.
pub mod Rows
pub mod Transitions
pub mod Recovery
pub mod History
pub mod Tests
use lirvena.Base.{
  ℕ, ◌+◌, ◌^◌, max, Bool, true, false, not, ◌&&◌, ◌||◌, ◌==◌, ltb, leb, if◌then◌else◌, Option, none,
  some, List, [], ◌∷◌, Result, ok, err, and_then, map_err, ok_or, ensure, Method, run_on,
}
use lirvena.Base.Int.{ℤ, pos, negsuc}
use lirvena.Base.Words.{checked_add, try_from}
use lirvena.Account.Model.{
  AccountRuntimeError, configuration, persistence, transition_rejected, AccountPhase, stopped,
  starting, active, protective_offline, phase_code, phase_from_stored, ProtectiveReason,
  process_restart, reason_code, reason_from_stored, AccountLocalId, AccountSnapshot,
  AccountTransition, TransitionReceipt,
}

-- The one row of `account_state`. A column holds any `INTEGER`.
pub record Row : Type 0 where
  pub phase : ℤ
  pub generation : ℤ
  pub protective_reason : Option ℤ
  pub updated_at_ms : ℤ

-- A row of `account_transitions`; the newest row is the first.
pub record TransitionRow : Type 0 where
  pub generation : ℤ
  pub from_phase : ℤ
  pub to_phase : ℤ
  pub protective_reason : Option ℤ
  pub occurred_at_ms : ℤ

-- A table that does not exist has no rows; `has_tables` tells whether one of the two exists.
pub record Database : Type 0 where
  pub user_version : ℕ
  pub has_tables : Bool
  pub account_state : Option Row
  pub account_transitions : List TransitionRow

-- Which of the calls to SQLite fail during one operation.
pub record Faults : Type 0 where
  pub query : Bool
  pub begin : Bool
  pub update : Bool
  pub insert : Bool
  pub commit : Bool

abbrev pub no_faults : Faults
no_faults = record { query = false; begin = false; update = false; insert = false; commit = false }

pub record AccountStore : Type 0 where
  pub local_id : AccountLocalId
  pub database : Database

-- `row.get::<_, u8>` refuses a value outside the type; `u64::try_from(i64)`.
abbrev pub get_u8 : ℤ → Result ℕ AccountRuntimeError
get_u8 (pos n) = ok_or (try_from 255 n) persistence
get_u8 (negsuc n) = err persistence

abbrev pub get_reason : Option ℤ → Result (Option ℕ) AccountRuntimeError
get_reason none = ok none
get_reason (some z) = and_then (get_u8 z) λ value. ok (some value)

abbrev pub to_u64 : ℤ → Result ℕ AccountRuntimeError
to_u64 (pos n) = ok n
to_u64 (negsuc n) = err configuration

abbrev pub i64_max : ℕ
i64_max = 9223372036854775807

unfoldable pub to_i64 : ℕ → Result ℤ AccountRuntimeError
to_i64 value = and_then (ok_or (try_from i64_max value) configuration) λ v. ok (pos v)

abbrev pub reason_of : Option ℕ → Result (Option ProtectiveReason) AccountRuntimeError
reason_of none = ok none
reason_of (some value) =
    and_then (ok_or (reason_from_stored value) configuration) λ reason. ok (some reason)

abbrev pub is_offline : AccountPhase → Bool
is_offline protective_offline = true
is_offline _ = false

abbrev pub has_reason : Option ProtectiveReason → Bool
has_reason none = false
has_reason (some r) = true

abbrev same : Bool → Bool → Bool
same true b = b
same false b = not b

unfoldable pub validate_reason :
    AccountPhase → Option ProtectiveReason → Result (Unit {0}) AccountRuntimeError
validate_reason phase reason = ensure (same (is_offline phase) (has_reason reason)) configuration

-- The row as a snapshot, with the checks in the source's order.
unfoldable pub decode_row : AccountLocalId → Row → Result AccountSnapshot AccountRuntimeError
decode_row local_id row = and_then (get_u8 row.phase) λ phase_value.
    and_then (get_reason row.protective_reason) λ reason_value.
      and_then (ok_or (phase_from_stored phase_value) configuration) λ phase.
        and_then (to_u64 row.generation) λ generation. and_then (reason_of reason_value) λ reason.
          and_then (to_u64 row.updated_at_ms) λ updated_at_ms.
            and_then (validate_reason phase reason) λ _. ok (record {
              local_id = local_id;
              phase = phase;
              generation = generation;
              protective_reason = reason;
              updated_at_ms = updated_at_ms;
            })

unfoldable pub snapshot : Faults → AccountStore → Result AccountSnapshot AccountRuntimeError
snapshot faults store =
    if faults.query
    then err persistence
    else and_then (ok_or store.database.account_state persistence) (decode_row store.local_id)

-- The phases that may follow one another.
unfoldable pub allowed : AccountPhase → AccountPhase → Bool
allowed stopped starting = true
allowed protective_offline starting = true
allowed starting active = true
allowed starting stopped = true
allowed starting protective_offline = true
allowed active stopped = true
allowed active protective_offline = true
allowed _ _ = false

unfoldable pub validate_transition :
    AccountSnapshot → AccountTransition → Result (Unit {0}) AccountRuntimeError
validate_transition previous requested =
    and_then
      (map_err (λ _. transition_rejected)
        (validate_reason requested.next requested.protective_reason))
      λ _.
        if ltb requested.occurred_at_ms previous.updated_at_ms
        then err transition_rejected
        else ensure (allowed previous.phase requested.next) transition_rejected

abbrev reason_column : Option ProtectiveReason → Option ℤ
reason_column none = none
reason_column (some reason) = some (pos (reason_code reason))

-- `WHERE singleton = 1 AND phase = ?5 AND generation = ?6`
abbrev same_int : ℤ → ℤ → Bool
same_int (pos a) (pos b) = a == b
same_int (negsuc a) (negsuc b) = a == b
same_int _ _ = false

abbrev matches : ℤ → ℤ → Option Row → Bool
matches phase generation none = false
matches phase generation (some row) = same_int row.phase phase && same_int row.generation generation

-- The transaction: the guarded update of the row, then the new row of the log.
unfoldable pub commit_transition :
    Faults → AccountSnapshot → AccountSnapshot → Method AccountStore AccountRuntimeError (Unit {0})
unfolding to_i64
commit_transition faults previous current store =
    let db = store.database in
    run_on (ensure (not faults.begin) persistence, store)
      λ _ store.
        run_on (to_i64 current.generation, store)
          λ generation store.
            run_on (to_i64 current.updated_at_ms, store)
              λ updated_at_ms store.
                run_on (to_i64 previous.generation, store)
                  λ old_generation store.
                    run_on (ensure (not faults.update) persistence, store)
                      λ _ store.
                        if not (
                          matches (pos (phase_code previous.phase)) old_generation db.account_state)
                        then (err persistence, store)
                        else run_on (ensure (not faults.insert) persistence, store)
                            λ _ store.
                              run_on (ensure (not faults.commit) persistence, store)
                                λ _ store. (
                                  ok tt,
                                  record store {
                                    database = record db {
                                      account_state = some (record {
                                        phase = pos (phase_code current.phase);
                                        generation = generation;
                                        protective_reason = reason_column current.protective_reason;
                                        updated_at_ms = updated_at_ms;
                                      });
                                      account_transitions =
                                          record {
                                            generation = generation;
                                            from_phase = pos (phase_code previous.phase);
                                            to_phase = pos (phase_code current.phase);
                                            protective_reason =
                                                reason_column current.protective_reason;
                                            occurred_at_ms = updated_at_ms;
                                          }
                                          ∷ db.account_transitions;
                                    };
                                  },
                                )

abbrev is_starting : AccountPhase → Bool
is_starting starting = true
is_starting _ = false

abbrev next_generation : AccountSnapshot → AccountTransition → Result ℕ AccountRuntimeError
next_generation previous requested =
    if is_starting requested.next
    then ok_or (checked_add previous.generation 1) transition_rejected
    else ok previous.generation

unfoldable pub transition :
    Faults → AccountTransition → Method AccountStore AccountRuntimeError TransitionReceipt
transition faults requested store =
    run_on (snapshot faults store, store)
      λ previous store.
        run_on (validate_transition previous requested, store)
          λ _ store.
            run_on (next_generation previous requested, store)
              λ generation store.
                let current : AccountSnapshot = record {
                  local_id = store.local_id;
                  phase = requested.next;
                  generation = generation;
                  protective_reason = requested.protective_reason;
                  updated_at_ms = requested.occurred_at_ms;
                } in
                run_on (commit_transition faults previous current store)
                  λ _ store. (ok (record { previous = previous; current = current }), store)
