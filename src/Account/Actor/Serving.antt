-- ===== src/Account/Actor/Serving.antt =====
-- What the actor answers, and what it does to its store, over every sequence of commands.
use mathlib.Core.List.{append_assoc, append-nil}
use lirvena.Base.{◌≡◌, inl, inr, refl, List, [], ◌∷◌, ◌++◌, ok, err, Result-cases}
use lirvena.Account.Model.{AccountTransition}
use lirvena.Account.Store.{Faults, AccountStore, transition, TransitionRow}
use lirvena.Account.Store.Transitions.{log_row, transition_receipt, transition_atomic}
use lirvena.Account.Store.History.{IsHistory, transition-IsHistory}
use lirvena.Account.Actor.{
  reads, requests, shuts_down, Reply, snapshot_reply, transition_reply, Job, run_writer,
}

-- If the stored state is the end of its log, it is so after the actor has served any commands,
-- whichever statements fail.
pub run_writer-IsHistory :
    (jobs : List Job) (store : AccountStore)
    → IsHistory store
    → IsHistory (run_writer store jobs).store
unfolding run_writer
run_writer-IsHistory [] store h = h
run_writer-IsHistory ((reads, f) ∷ jobs) store h = run_writer-IsHistory jobs store h
run_writer-IsHistory ((requests t, f) ∷ jobs) store h =
    run_writer-IsHistory jobs (transition f t store).1 (transition-IsHistory f t store h)
run_writer-IsHistory ((shuts_down, f) ∷ jobs) store h = h

-- The rows of the transitions that were answered with a receipt, the newest first.
abbrev pub accepted : List Reply → List TransitionRow
accepted [] = []
accepted (snapshot_reply s ∷ rs) = accepted rs
accepted (transition_reply (ok r) ∷ rs) = accepted rs ++ log_row r ∷ []
accepted (transition_reply (err e) ∷ rs) = accepted rs

answered_row :
    (f : Faults) (t : AccountTransition) (store : AccountStore)
    → (transition f t store).1.database.account_transitions
      ≡ accepted (transition_reply (transition f t store).0 ∷ [])
        ++ store.database.account_transitions
answered_row f t store = elim (Result-cases (transition f t store).0) [
  | inr (e, bad) ↦ rw (bad, transition_atomic f t store e bad)
  | inl (r, done) ↦ rw (done, (transition_receipt f t store r done).3)
]

accepted_cons : (r : Reply) (rs : List Reply) → accepted (r ∷ rs) ≡ accepted rs ++ accepted (r ∷ [])
accepted_cons (snapshot_reply s) rs = rw (append-nil (accepted rs))
accepted_cons (transition_reply (ok r)) rs = refl
accepted_cons (transition_reply (err e)) rs = rw (append-nil (accepted rs))

-- The log grows by exactly the transitions that the actor confirmed to its callers, in the order
-- in which it confirmed them.
pub run_writer_logs :
    (jobs : List Job) (store : AccountStore)
    → (run_writer store jobs).store.database.account_transitions
      ≡ accepted (run_writer store jobs).replies ++ store.database.account_transitions
unfolding run_writer
run_writer_logs [] store = refl
run_writer_logs ((reads, f) ∷ jobs) store = run_writer_logs jobs store
run_writer_logs ((requests t, f) ∷ jobs) store =
    let answer = transition_reply (transition f t store).0 in
    let rest = run_writer (transition f t store).1 jobs in
    rw (
      run_writer_logs jobs (transition f t store).1,
      answered_row f t store,
      accepted_cons answer rest.replies,
      append_assoc (accepted rest.replies) (accepted (answer ∷ []))
          store.database.account_transitions,
    )
run_writer_logs ((shuts_down, f) ∷ jobs) store = refl
