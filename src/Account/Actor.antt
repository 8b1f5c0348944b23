-- ===== src/Account/Actor.antt =====
-- crates/account-runtime/src/actor.rs: the actor that owns one account's store and answers the
-- commands of its queue in order. Each command comes with the faults of the database during it. The
-- state directory enters as whether its path is empty.
pub mod Serving
mod Tests
use lirvena.Base.{
  ℕ, Bool, true, false, ◌||◌, ◌==◌, ltb, if◌then◌else◌, List, [], ◌∷◌, Result, ok, err, ensure,
  and_then,
}
use lirvena.Account.Model.{
  AccountRuntimeError, configuration, persistence, AccountLocalId, AccountSnapshot,
  AccountTransition, TransitionReceipt,
}
use lirvena.Account.Store.{Faults, AccountStore, snapshot, transition}

abbrev pub max_queue_capacity : ℕ
max_queue_capacity = 1024

pub record AccountRuntimeConfig : Type 0 where
  pub local_id : AccountLocalId
  pub queue_capacity : ℕ

unfoldable pub new_config :
    Bool → AccountLocalId → ℕ → Result AccountRuntimeConfig AccountRuntimeError
new_config directory_is_empty local_id queue_capacity =
    if directory_is_empty || queue_capacity == 0 || ltb max_queue_capacity queue_capacity
    then err configuration
    else ok (record { local_id = local_id; queue_capacity = queue_capacity })

-- The reply channels are the places of the answers in the list that `run_writer` returns.
pub data Command : Type 0 where
  reads : Command
  requests : AccountTransition → Command
  shuts_down : Command

pub data Reply : Type 0 where
  snapshot_reply : Result AccountSnapshot AccountRuntimeError → Reply
  transition_reply : Result TransitionReceipt AccountRuntimeError → Reply

abbrev pub Job : Type 0
Job = Command × Faults

abbrev failed : Result AccountSnapshot AccountRuntimeError → Bool
failed (ok s) = false
failed (err e) = true

-- The outcome of the loop: the store, the replies that were sent and the result.
pub record Served : Type 0 where
  pub store : AccountStore
  pub replies : List Reply
  pub result : Result (Unit {0}) AccountRuntimeError

-- The commands are those that the queue yields until it closes.
unfoldable pub run_writer : AccountStore → List Job → Served
run_writer store [] = record { store = store; replies = []; result = ok tt }
run_writer store ((reads, faults) ∷ jobs) =
    let rest = run_writer store jobs in
    record rest { replies = snapshot_reply (snapshot faults store) ∷ rest.replies }
run_writer store ((requests requested, faults) ∷ jobs) =
    let (answer, after) = transition faults requested store in
    let rest = run_writer after jobs in
    record rest { replies = transition_reply answer ∷ rest.replies }
run_writer store ((shuts_down, faults) ∷ jobs) =
    let state = snapshot faults store in
    record {
      store = store;
      replies = snapshot_reply state ∷ [];
      result = if failed state then err persistence else ok tt;
    }
