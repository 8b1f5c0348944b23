-- ===== src/Account/Opening.antt =====
-- crates/account-runtime/src/store.rs (open, recover_interrupted) and store/schema.rs: the database
-- is migrated, and an account that was running is taken offline.
use lirvena.Base.{
  ℕ, max, Bool, true, false, ◌||◌, ◌==◌, if◌then◌else◌, none, some, [], ok, err, Method, run_on,
}
use lirvena.Base.Int.{pos}
use lirvena.Account.Model.{
  AccountRuntimeError, configuration, persistence, AccountPhase, stopped, starting, active,
  protective_offline, phase_code, process_restart, AccountLocalId,
}
use lirvena.Account.Store.{Database, Faults, AccountStore, to_i64, snapshot, transition}

abbrev pub interrupted : AccountPhase → Bool
interrupted starting = true
interrupted active = true
interrupted _ = false

-- The first faults are those of the snapshot, the second those of the transition.
unfoldable pub recover_interrupted :
    Faults → Faults → ℕ → Method AccountStore AccountRuntimeError (Unit {0})
recover_interrupted reading writing occurred_at_ms store =
    run_on (snapshot reading store, store)
      λ current store.
        if interrupted current.phase
        then run_on
            (transition writing
              (record {
                next = protective_offline;
                protective_reason = some process_restart;
                occurred_at_ms = max occurred_at_ms current.updated_at_ms;
              })
              store)
            (λ _ store. (ok tt, store))
        else (ok tt, store)

abbrev pub schema_version : ℕ
schema_version = 1

-- `create_schema`: the tables, the first row and the version, in one transaction. Creating a table
-- that exists, whichever of the two, is an error of the database.
unfoldable pub create_schema : Faults → ℕ → Method Database AccountRuntimeError (Unit {0})
unfolding to_i64
create_schema faults created_at_ms db =
    run_on (to_i64 created_at_ms, db)
      λ created db.
        if faults.begin || faults.update || faults.insert || faults.commit || db.has_tables
        then (err persistence, db)
        else (
          ok tt,
          record {
            user_version = schema_version;
            has_tables = true;
            account_state = some (record {
              phase = pos (phase_code stopped);
              generation = pos 0;
              protective_reason = none;
              updated_at_ms = created;
            });
            account_transitions = [];
          },
        )

unfoldable pub migrate : Faults → ℕ → Method Database AccountRuntimeError (Unit {0})
migrate faults created_at_ms db =
    if faults.query
    then (err persistence, db)
    else if db.user_version == schema_version
    then (ok tt, db)
    else if db.user_version == 0
    then create_schema faults created_at_ms db
    else (err configuration, db)

-- `AccountStore::open` on the file's database.
unfoldable pub open_store :
    Faults → Faults → Faults → AccountLocalId → ℕ → Method Database AccountRuntimeError AccountStore
open_store migrating reading writing local_id recovery_at_ms db =
    run_on (migrate migrating recovery_at_ms db) λ _ db.
      let (result, store) =
        recover_interrupted reading writing recovery_at_ms
          (record { local_id = local_id; database = db }) in
      run_on (result, store.database)
        λ _ db. (ok (record { local_id = local_id; database = db }), db)
