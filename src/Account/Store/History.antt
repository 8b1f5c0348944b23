-- ===== src/Account/Store/History.antt =====
-- The log of transitions as the history of the stored state.
use lirvena.Base.{
  ℕ, ◌+◌, ◌≤◌, ◌≡◌, inl, inr, refl, true, Option, none, some, List, [], ◌∷◌, arith, ok,
  Result-cases, if◌then◌else◌,
}
use lirvena.Base.Int.{pos}
use lirvena.Account.Model.{
  AccountPhase, stopped, phase_code, ProtectiveReason, AccountSnapshot, AccountLocalId,
  AccountTransition, TransitionReceipt,
}
use lirvena.Account.Opening.{create_schema}
use lirvena.Account.Store.{
  TransitionRow, Database, Faults, no_faults, AccountStore, snapshot, allowed, is_starting,
  transition, to_i64, reason_column,
}
use lirvena.Account.Store.Rows.{IsConsistent, row_of, decode-row_of}
use lirvena.Account.Store.Transitions.{
  IsLawful, log_row, transition_receipt, transition_atomic, snapshot_same,
}

-- The generation after a move to this phase.
abbrev pub raised : AccountPhase → ℕ → ℕ
raised next generation = if is_starting next then generation + 1 else generation

abbrev pub moved_row : AccountPhase → AccountPhase → Option ProtectiveReason → ℕ → ℕ → TransitionRow
moved_row from to reason generation at = record {
  generation = pos generation;
  from_phase = pos (phase_code from);
  to_phase = pos (phase_code to);
  protective_reason = reason_column reason;
  occurred_at_ms = pos at;
}

-- The log that leads from the account's creation to this phase, generation and time: every row
-- starts where the one before it ended, makes an allowed move, and is no earlier.
pub data History : AccountPhase → ℕ → ℕ → List TransitionRow → Type 0 where
  created : {at : ℕ} → History stopped 0 at []
  moved :
      {from to : AccountPhase} {generation before at : ℕ} {log : List TransitionRow}
      (reason : Option ProtectiveReason)
      → History from generation before log
      → allowed from to ≡ true
      → before ≤ at
      → IsConsistent to reason
      → History to
          (raised to generation)
          at
          (moved_row from to reason (raised to generation) at ∷ log)

-- The stored state is the end of the log.
abbrev pub IsHistory : AccountStore → Type 0
IsHistory store =
    (s : AccountSnapshot) × (snapshot no_faults store ≡ ok s)
    × History s.phase s.generation s.updated_at_ms store.database.account_transitions

receipt_moves :
    (r : TransitionReceipt) (t : AccountTransition) (log : List TransitionRow)
    → IsLawful r t
    → History r.previous.phase r.previous.generation r.previous.updated_at_ms log
    → History r.current.phase r.current.generation r.current.updated_at_ms (log_row r ∷ log)
receipt_moves r t log l h = rw (l.3, l.4, l.5, l.6) (moved t.protective_reason h l.0 l.1 l.2)

-- If the stored state is the end of its log, it is so after every transition that is requested,
-- whichever statements fail.
pub transition-IsHistory :
    (faults : Faults) (t : AccountTransition) (store : AccountStore)
    → IsHistory store
    → IsHistory (transition faults t store).1
transition-IsHistory faults t store (s, good, h) =
    elim (Result-cases (transition faults t store).0) [
      | inr (e, bad) ↦ rw (transition_atomic faults t store e bad) (s, good, h)
      | inl (r, done) ↦
          let (lawful, before, after, log) = transition_receipt faults t store r done in
          (
            r.current,
            after,
            rw log (
                receipt_moves r t store.database.account_transitions lawful
                  (rw (snapshot_same faults store r.previous s before good) h)),
          )
    ]

abbrev first_state : AccountLocalId → ℕ → AccountSnapshot
first_state id at = record {
  local_id = id;
  phase = stopped;
  generation = 0;
  protective_reason = none;
  updated_at_ms = at;
}

create_schema_writes :
    (faults : Faults) (id : AccountLocalId) (at : ℕ) (db : Database)
    → (create_schema faults at db).0 ≡ ok tt
    → ((create_schema faults at db).1.account_state ≡ some (row_of (first_state id at)))
      × ((create_schema faults at db).1.account_transitions ≡ [])
unfolding create_schema to_i64
create_schema_writes faults id at db h = ground arith

first_snapshot :
    (store : AccountStore) (at : ℕ)
    → store.database.account_state ≡ some (row_of (first_state store.local_id at))
    → snapshot no_faults store ≡ ok (first_state store.local_id at)
unfolding snapshot
first_snapshot store at h = rw (h, decode-row_of (first_state store.local_id at) refl)

-- A database that is created has the history of a stopped account.
pub create_schema-IsHistory :
    (faults : Faults) (id : AccountLocalId) (at : ℕ) (db : Database)
    → (create_schema faults at db).0 ≡ ok tt
    → IsHistory (record { local_id = id; database = (create_schema faults at db).1 })
create_schema-IsHistory faults id at db h =
    let (state, log) = create_schema_writes faults id at db h in
    let store : AccountStore = record {
      local_id = id;
      database = (create_schema faults at db).1;
    } in
    (first_state id at, first_snapshot store at state, rw log created)
