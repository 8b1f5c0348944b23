-- ===== src/Account/Store/Recovery.antt =====
-- Opening the store: an account that was running when the process ended is taken offline.
use lirvena.Base.{
  ℕ, ◌≤◌, ◌<◌, ◌≡◌, inl, inr, refl, ◌∙◌, max, Bool, true, false, some, ◌∷◌, arith, ok, Result-cases,
  Bool-cases,
}
use lirvena.Account.Model.{
  AccountPhase, stopped, starting, active, protective_offline, process_restart, AccountSnapshot,
  AccountLocalId, AccountTransition, TransitionReceipt,
}
use lirvena.Account.Opening.{interrupted, recover_interrupted, migrate, open_store}
use lirvena.Account.Store.{
  Database, Faults, no_faults, AccountStore, snapshot, allowed, i64_max, transition,
}
use lirvena.Account.Store.Transitions.{
  log_row, transition_receipt, transition_accepts, transition_local_id, next_snapshot,
}

-- The phases of an account that runs.
abbrev pub running : AccountPhase → Bool
running stopped = false
running starting = true
running active = true
running protective_offline = false

interrupted-running : (p : AccountPhase) → running p ≡ interrupted p
interrupted-running stopped = refl
interrupted-running starting = refl
interrupted-running active = refl
interrupted-running protective_offline = refl

-- The state reads back as one in which the account does not run.
abbrev pub AtRest : AccountStore → Type 0
AtRest store = (s : AccountSnapshot) × (snapshot no_faults store ≡ ok s) × (running s.phase ≡ false)

-- The transition of a recovery.
abbrev pub restart : ℕ → AccountSnapshot → AccountTransition
restart at s = record {
  next = protective_offline;
  protective_reason = some process_restart;
  occurred_at_ms = max at s.updated_at_ms;
}

snapshot_query :
    (faults : Faults) (store : AccountStore) (s : AccountSnapshot)
    → snapshot faults store ≡ ok s
    → snapshot no_faults store ≡ ok s
unfolding snapshot
snapshot_query faults store s h = ground arith

restart_rests :
    (writing : Faults) (at : ℕ) (s : AccountSnapshot) (store : AccountStore) (r : TransitionReceipt)
    → (transition writing (restart at s) store).0 ≡ ok r
    → AtRest (transition writing (restart at s) store).1
restart_rests writing at s store r h =
    let (lawful, before, after, log) = transition_receipt writing (restart at s) store r h in
    (r.current, after, ground (arith, lawful))

recover_keeps :
    (reading writing : Faults) (at : ℕ) (store : AccountStore) (s : AccountSnapshot)
    → snapshot reading store ≡ ok s
    → interrupted s.phase ≡ false
    → (recover_interrupted reading writing at store).1 ≡ store
unfolding recover_interrupted
recover_keeps reading writing at store s good rests = rw (good, interrupted-running s.phase ∙ rests)

recover_restarts :
    (reading writing : Faults) (at : ℕ) (store : AccountStore) (s : AccountSnapshot)
    → snapshot reading store ≡ ok s
    → interrupted s.phase ≡ true
    → (recover_interrupted reading writing at store).1 ≡ (transition writing (restart at s) store).1
unfolding recover_interrupted
recover_restarts reading writing at store s good runs = ground arith

recover_rests :
    (reading writing : Faults) (at : ℕ) (store : AccountStore) (u : Unit {0})
    → (recover_interrupted reading writing at store).0 ≡ ok u
    → AtRest (recover_interrupted reading writing at store).1
unfolding recover_interrupted
recover_rests reading writing at store u h = elim (Result-cases (snapshot reading store)) [
  | inr (e, bad) ↦ absurd (ground arith)
  | inl (s, good) ↦ elim (Bool-cases (interrupted s.phase)) [
    | inr rests ↦ (
      s,
      rw (recover_keeps reading writing at store s good rests, snapshot_query reading store s good),
      rests,
    )
    | inl runs ↦ elim (Result-cases (transition writing (restart at s) store).0) [
      | inr (e, bad) ↦ absurd (ground arith)
      | inl (r, done) ↦
          rw (recover_restarts reading writing at store s good runs)
            (restart_rests writing at s store r done)
    ]
  ]
]

recover_local_id :
    (reading writing : Faults) (at : ℕ) (store : AccountStore)
    → (recover_interrupted reading writing at store).1.local_id ≡ store.local_id
unfolding recover_interrupted
recover_local_id reading writing at store = grind (arith, transition_local_id)

open_store_recovers :
    (migrating reading writing : Faults) (id : AccountLocalId) (at : ℕ) (db : Database)
    (store : AccountStore)
    → (open_store migrating reading writing id at db).0 ≡ ok store
    → let s : AccountStore = record { local_id = id; database = (migrate migrating at db).1 } in
      ((recover_interrupted reading writing at s).0 ≡ ok tt)
      × (store ≡ (recover_interrupted reading writing at s).1)
unfolding open_store
open_store_recovers migrating reading writing id at db store h = grind (arith, recover_local_id)

-- A store that opens is one of an account at rest, whatever its file held and whichever statements
-- failed.
pub open_store-AtRest :
    (migrating reading writing : Faults) (id : AccountLocalId) (at : ℕ) (db : Database)
    (store : AccountStore)
    → (open_store migrating reading writing id at db).0 ≡ ok store
    → AtRest store
unfolding open_store
open_store-AtRest migrating reading writing id at db store h =
    let (recovered, opened) = open_store_recovers migrating reading writing id at db store h in
    rw opened (
      recover_rests reading writing at
        (record { local_id = id; database = (migrate migrating at db).1 }) tt recovered)

interrupted_stops : (p : AccountPhase) → interrupted p ≡ true → allowed p protective_offline ≡ true
unfolding allowed
interrupted_stops p h = ground arith

recover_succeeds :
    (at : ℕ) (store : AccountStore) (s : AccountSnapshot)
    → snapshot no_faults store ≡ ok s
    → interrupted s.phase ≡ true
    → (r : TransitionReceipt) → (transition no_faults (restart at s) store).0 ≡ ok r
    → (recover_interrupted no_faults no_faults at store).0 ≡ ok tt
unfolding recover_interrupted
recover_succeeds at store s good runs r done = ground arith

-- When the database does not fail and the times and the generation fit a signed column, the
-- restart of an account that was starting or active is recovered by a protective transition for
-- a process restart, with the same generation and no earlier than the last change, and one row
-- for it in the log.
pub recovery_protects :
    (at : ℕ) (store : AccountStore) (s : AccountSnapshot)
    → snapshot no_faults store ≡ ok s
    → running s.phase ≡ true
    → at ≤ i64_max
    → s.updated_at_ms ≤ i64_max
    → s.generation < i64_max
    → let after = (recover_interrupted no_faults no_faults at store).1 in
      let protected : AccountSnapshot = record {
        local_id = store.local_id;
        phase = protective_offline;
        generation = s.generation;
        protective_reason = some process_restart;
        updated_at_ms = max at s.updated_at_ms;
      } in
      ((recover_interrupted no_faults no_faults at store).0 ≡ ok tt)
      × (snapshot no_faults after ≡ ok protected)
      × (after.database.account_transitions
          ≡ log_row (record { previous = s; current = protected })
            ∷ store.database.account_transitions)
recovery_protects at store s good running_phase c u g =
    let runs : interrupted s.phase ≡ true = rw (← interrupted-running s.phase) running_phase in
    let r : TransitionReceipt = record {
      previous = s;
      current = next_snapshot store (restart at s) s.generation;
    } in
    let done =
      transition_accepts (restart at s) store s good (interrupted_stops s.phase runs) (omega arith)
        refl (omega arith) g in
    let (lawful, before, after, log) = transition_receipt no_faults (restart at s) store r done in
    let same = recover_restarts no_faults no_faults at store s good runs in
    (recover_succeeds at store s good runs r done, rw same after, rw same log)
