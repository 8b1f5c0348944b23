-- ===== src/Account/Store/Transitions.antt =====
-- A transition of the account: what it requires, what it changes, and that a failed one changes
-- nothing.
use lirvena.Base.{
  ℕ, ◌+◌, ◌≤◌, ◌<◌, ◌≡◌, inl, inr, true, some, ◌∷◌, arith, Result, ok, err, Option-cases,
  if◌then◌else◌,
}
use lirvena.Base.Int.{pos}
use lirvena.Account.Model.{
  phase_code, AccountSnapshot, AccountRuntimeError, AccountTransition, TransitionReceipt,
}
use lirvena.Account.Store.{
  Row, TransitionRow, Faults, no_faults, AccountStore, decode_row, snapshot, validate_reason,
  allowed, validate_transition, to_i64, i64_max, commit_transition, next_generation, is_starting,
  transition, reason_column,
}
use lirvena.Account.Store.Rows.{
  IsConsistent, row_of, decode-row_of, decode_row_sound, validate_reason_sound,
}

-- A method that leaves the store as it was when it fails.
abbrev Atomic : {A : Type 0} → Result A AccountRuntimeError × AccountStore → AccountStore → Type 0
Atomic (ok a, s) store = Unit {0}
Atomic (err e, s) store = s ≡ store

commit-Atomic :
    (faults : Faults) (previous current : AccountSnapshot) (store : AccountStore)
    → Atomic (commit_transition faults previous current store) store
unfolding commit_transition to_i64
commit-Atomic faults previous current store = ground arith

transition-Atomic :
    (faults : Faults) (requested : AccountTransition) (store : AccountStore)
    → Atomic (transition faults requested store) store
unfolding transition
transition-Atomic faults requested store = grind (arith, commit-Atomic)

-- A transition that fails, for whatever reason and at whatever statement, leaves the database and
-- its log exactly as they were.
pub transition_atomic :
    (faults : Faults) (requested : AccountTransition) (store : AccountStore)
    (e : AccountRuntimeError)
    → (transition faults requested store).0 ≡ err e
    → (transition faults requested store).1 ≡ store
transition_atomic faults requested store e h =
    ground (arith, transition-Atomic faults requested store)

-- The rows that a transition writes.
abbrev pub log_row : TransitionReceipt → TransitionRow
log_row r = record {
  generation = pos r.current.generation;
  from_phase = pos (phase_code r.previous.phase);
  to_phase = pos (phase_code r.current.phase);
  protective_reason = reason_column r.current.protective_reason;
  occurred_at_ms = pos r.current.updated_at_ms;
}

abbrev pub committed : AccountStore → TransitionReceipt → AccountStore
committed store r = record store {
  database = record store.database {
    account_state = some (row_of r.current);
    account_transitions = log_row r ∷ store.database.account_transitions;
  };
}

commit_writes :
    (faults : Faults) (previous current : AccountSnapshot) (store : AccountStore)
    → (commit_transition faults previous current store).0 ≡ ok tt
    → (commit_transition faults previous current store).1
      ≡ committed store (record { previous = previous; current = current })
unfolding commit_transition to_i64
commit_writes faults previous current store h = ground arith

-- The rules of a transition.
abbrev pub IsLawful : TransitionReceipt → AccountTransition → Type 0
IsLawful r requested =
    (allowed r.previous.phase requested.next ≡ true)
    × (r.previous.updated_at_ms ≤ requested.occurred_at_ms)
    × IsConsistent requested.next requested.protective_reason
    × (r.current.phase ≡ requested.next)
    × (r.current.protective_reason ≡ requested.protective_reason)
    × (r.current.updated_at_ms ≡ requested.occurred_at_ms)
    × (r.current.generation
        ≡ (if is_starting requested.next then r.previous.generation + 1 else r.previous.generation))

validate_transition_sound :
    (previous : AccountSnapshot) (t : AccountTransition) (u : Unit {0})
    → validate_transition previous t ≡ ok u
    → (allowed previous.phase t.next ≡ true)
      × (previous.updated_at_ms ≤ t.occurred_at_ms)
      × IsConsistent t.next t.protective_reason
unfolding validate_transition
validate_transition_sound previous t u h = grind (arith, validate_reason_sound)

transition-IsLawful :
    (faults : Faults) (t : AccountTransition) (store : AccountStore) (r : TransitionReceipt)
    → (transition faults t store).0 ≡ ok r
    → IsLawful r t × (snapshot faults store ≡ ok r.previous) × (r.current.local_id ≡ store.local_id)
unfolding transition
transition-IsLawful faults t store r h = grind (arith, validate_transition_sound)

transition_writes :
    (faults : Faults) (t : AccountTransition) (store : AccountStore) (r : TransitionReceipt)
    → (transition faults t store).0 ≡ ok r
    → (transition faults t store).1 ≡ committed store r
unfolding transition
transition_writes faults t store r h = grind (arith, commit_writes)

reads_back :
    (store : AccountStore) (r : TransitionReceipt)
    → IsConsistent r.current.phase r.current.protective_reason
    → r.current.local_id ≡ store.local_id
    → snapshot no_faults (committed store r) ≡ ok r.current
unfolding snapshot
reads_back store r h e = rw (← e, decode-row_of r.current h)

current-IsConsistent :
    (r : TransitionReceipt) (t : AccountTransition)
    → IsLawful r t
    → IsConsistent r.current.phase r.current.protective_reason
current-IsConsistent r t l = ground (arith, l)

-- A transition that succeeds was a lawful one from the stored state, the state read back
-- afterwards is the receipt's, and exactly one row for it was added to the log.
pub transition_receipt :
    (faults : Faults) (t : AccountTransition) (store : AccountStore) (r : TransitionReceipt)
    → (transition faults t store).0 ≡ ok r
    → let after = (transition faults t store).1 in
      IsLawful r t
      × (snapshot faults store ≡ ok r.previous)
      × (snapshot no_faults after ≡ ok r.current)
      × (after.database.account_transitions ≡ log_row r ∷ store.database.account_transitions)
transition_receipt faults t store r h =
    let w = transition_writes faults t store r h in
    let l = transition-IsLawful faults t store r h in
    (l.0, l.1, rw (w, reads_back store r (current-IsConsistent r t l.0) l.2), rw w)

validate_transition_complete :
    (previous : AccountSnapshot) (t : AccountTransition)
    → allowed previous.phase t.next ≡ true
    → previous.updated_at_ms ≤ t.occurred_at_ms
    → IsConsistent t.next t.protective_reason
    → validate_transition previous t ≡ ok tt
unfolding validate_transition validate_reason
validate_transition_complete previous t a u c = ground arith

snapshot_decodes :
    (faults : Faults) (store : AccountStore) (s : AccountSnapshot)
    → snapshot faults store ≡ ok s
    → (row : Row) × (store.database.account_state ≡ some row)
      × (decode_row store.local_id row ≡ ok s)
unfolding snapshot
snapshot_decodes faults store s h = elim (Option-cases store.database.account_state) [
  | inl e ↦ absurd (ground arith)
  | inr (row, e) ↦ (row, e, ground arith)
]

pub snapshot_sound :
    (faults : Faults) (store : AccountStore) (s : AccountSnapshot)
    → snapshot faults store ≡ ok s
    → (store.database.account_state ≡ some (row_of s))
      × (s.local_id ≡ store.local_id)
      × IsConsistent s.phase s.protective_reason
unfolding snapshot
snapshot_sound faults store s h =
    let (row, e, d) = snapshot_decodes faults store s h in
    let (is_row, own, consistent) = decode_row_sound store.local_id row s d in
    (rw (e, is_row), own, consistent)

commit_accepts :
    (previous current : AccountSnapshot) (store : AccountStore)
    → store.database.account_state ≡ some (row_of previous)
    → current.generation ≤ i64_max
    → current.updated_at_ms ≤ i64_max
    → previous.generation ≤ i64_max
    → (commit_transition no_faults previous current store).0 ≡ ok tt
unfolding commit_transition to_i64
commit_accepts previous current store h g u p = ground arith

-- What the transition writes, given the generation that it computed.
abbrev pub next_snapshot : AccountStore → AccountTransition → ℕ → AccountSnapshot
next_snapshot store t generation = record {
  local_id = store.local_id;
  phase = t.next;
  generation = generation;
  protective_reason = t.protective_reason;
  updated_at_ms = t.occurred_at_ms;
}

accepts_with :
    (t : AccountTransition) (store : AccountStore) (previous : AccountSnapshot) (g : ℕ)
    → snapshot no_faults store ≡ ok previous
    → validate_transition previous t ≡ ok tt
    → next_generation previous t ≡ ok g
    → (commit_transition no_faults previous (next_snapshot store t g) store).0 ≡ ok tt
    → (transition no_faults t store).0
      ≡ ok (record { previous = previous; current = next_snapshot store t g })
unfolding transition
accepts_with t store previous g s v n c = ground arith

abbrev pub generation_after : AccountSnapshot → AccountTransition → ℕ
generation_after previous t =
    if is_starting t.next then previous.generation + 1 else previous.generation

-- A transition that the rules allow succeeds when the database does, if its time and its generation
-- fit a signed column, and its receipt holds the stored state and the requested one, with the
-- generation one higher when the account starts.
pub transition_accepts :
    (t : AccountTransition) (store : AccountStore) (previous : AccountSnapshot)
    → snapshot no_faults store ≡ ok previous
    → allowed previous.phase t.next ≡ true
    → previous.updated_at_ms ≤ t.occurred_at_ms
    → IsConsistent t.next t.protective_reason
    → t.occurred_at_ms ≤ i64_max
    → previous.generation < i64_max
    → (transition no_faults t store).0
      ≡ ok (record {
        previous = previous;
        current = next_snapshot store t (generation_after previous t);
      })
transition_accepts t store previous s a u c o g =
    let row = (snapshot_sound no_faults store previous s).0 in
    let valid = validate_transition_complete previous t a u c in
    let generation = generation_after previous t in
    let fits : generation ≤ i64_max = ground arith in
    accepts_with t store previous generation s valid (ground arith)
      (commit_accepts previous (next_snapshot store t generation) store row fits o (omega arith))

commit_local_id :
    (faults : Faults) (previous current : AccountSnapshot) (store : AccountStore)
    → (commit_transition faults previous current store).1.local_id ≡ store.local_id
unfolding commit_transition to_i64
commit_local_id faults previous current store = ground arith

pub transition_local_id :
    (faults : Faults) (t : AccountTransition) (store : AccountStore)
    → (transition faults t store).1.local_id ≡ store.local_id
unfolding transition
transition_local_id faults t store = grind (arith, commit_local_id)

pub snapshot_same :
    (faults : Faults) (store : AccountStore) (a b : AccountSnapshot)
    → snapshot faults store ≡ ok a
    → snapshot no_faults store ≡ ok b
    → a ≡ b
unfolding snapshot
snapshot_same faults store a b h k = ground arith
