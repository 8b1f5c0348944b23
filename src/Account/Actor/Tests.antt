-- ===== src/Account/Actor/Tests.antt =====
-- The actor at a concrete queue.
use lirvena.Base.{◌≡◌, List, [], ◌∷◌, ◌++◌}
use lirvena.Account.Store.{no_faults}
use lirvena.Account.Store.Tests.{resting, store_of, starts_at}
use lirvena.Account.Actor.{Job, reads, requests, shuts_down, run_writer}
use lirvena.Account.Actor.Serving.{accepted, run_writer_logs}

abbrev queue : List Job
queue =
    (requests (starts_at 40), no_faults)
    ∷ (reads, no_faults)
    ∷ (requests (starts_at 50), no_faults)
    ∷ (shuts_down, no_faults)
    ∷ []

run_writer_logs_example :
    (run_writer (store_of resting) queue).store.database.account_transitions
    ≡ accepted (run_writer (store_of resting) queue).replies ++ []
run_writer_logs_example = run_writer_logs queue (store_of resting)
