-- ===== src/Account/Store/Rows.antt =====
-- A row of the database and the snapshot it decodes to.
use lirvena.Base.{ℕ, ◌≡◌, refl, Option, none, some, arith, ok}
use lirvena.Base.Int.{pos}
use lirvena.Account.Model.{
  AccountPhase, stopped, starting, active, protective_offline, phase_code, phase_from_stored,
  ProtectiveReason, process_restart, ceylith_continuity, grant_unavailable, profile_unavailable,
  remote_session_ended, worker_failure, reason_code, reason_from_stored, AccountSnapshot,
  AccountLocalId,
}
use lirvena.Account.Store.{
  Row, decode_row, validate_reason, is_offline, has_reason, reason_column, get_u8,
}

-- A reason stands exactly with the protective phase.
abbrev pub IsConsistent : AccountPhase → Option ProtectiveReason → Type 0
IsConsistent phase reason = is_offline phase ≡ has_reason reason

abbrev pub row_of : AccountSnapshot → Row
row_of s = record {
  phase = pos (phase_code s.phase);
  generation = pos s.generation;
  protective_reason = reason_column s.protective_reason;
  updated_at_ms = pos s.updated_at_ms;
}

pub phase-phase_code : (p : AccountPhase) → phase_from_stored (phase_code p) ≡ some p
unfolding phase_from_stored
phase-phase_code stopped = refl
phase-phase_code starting = refl
phase-phase_code active = refl
phase-phase_code protective_offline = refl

pub reason-reason_code : (r : ProtectiveReason) → reason_from_stored (reason_code r) ≡ some r
unfolding reason_from_stored
reason-reason_code process_restart = refl
reason-reason_code ceylith_continuity = refl
reason-reason_code grant_unavailable = refl
reason-reason_code profile_unavailable = refl
reason-reason_code remote_session_ended = refl
reason-reason_code worker_failure = refl

pub phase_code_of : (n : ℕ) (p : AccountPhase) → phase_from_stored n ≡ some p → n ≡ phase_code p
unfolding phase_from_stored
phase_code_of n stopped h = ground arith
phase_code_of n starting h = ground arith
phase_code_of n active h = ground arith
phase_code_of n protective_offline h = ground arith

pub reason_code_of :
    (n : ℕ) (r : ProtectiveReason) → reason_from_stored n ≡ some r → n ≡ reason_code r
unfolding reason_from_stored
reason_code_of n process_restart h = ground arith
reason_code_of n ceylith_continuity h = ground arith
reason_code_of n grant_unavailable h = ground arith
reason_code_of n profile_unavailable h = ground arith
reason_code_of n remote_session_ended h = ground arith
reason_code_of n worker_failure h = ground arith

phase_code_small : (p : AccountPhase) → get_u8 (pos (phase_code p)) ≡ ok (phase_code p)
phase_code_small stopped = refl
phase_code_small starting = refl
phase_code_small active = refl
phase_code_small protective_offline = refl

reason_code_small : (r : ProtectiveReason) → get_u8 (pos (reason_code r)) ≡ ok (reason_code r)
reason_code_small process_restart = refl
reason_code_small ceylith_continuity = refl
reason_code_small grant_unavailable = refl
reason_code_small profile_unavailable = refl
reason_code_small remote_session_ended = refl
reason_code_small worker_failure = refl

consistent_validates :
    (p : AccountPhase) (r : Option ProtectiveReason)
    → IsConsistent p r
    → validate_reason p r ≡ ok tt
unfolding validate_reason
consistent_validates p r h = ground arith

pub validate_reason_sound :
    (p : AccountPhase) (r : Option ProtectiveReason)
    → validate_reason p r ≡ ok tt
    → IsConsistent p r
unfolding validate_reason
validate_reason_sound p r h = ground arith

decode_fields :
    (id : AccountLocalId) (p : AccountPhase) (g : ℕ) (r : Option ProtectiveReason) (u : ℕ)
    → IsConsistent p r
    → let s : AccountSnapshot = record {
      local_id = id;
      phase = p;
      generation = g;
      protective_reason = r;
      updated_at_ms = u;
    } in
      decode_row id (row_of s) ≡ ok s
unfolding decode_row
decode_fields id p g none u h =
    rw (phase_code_small p, phase-phase_code p, consistent_validates p none h)
decode_fields id p g (some r) u h = rw (
  phase_code_small p,
  phase-phase_code p,
  reason_code_small r,
  reason-reason_code r,
  consistent_validates p (some r) h,
)

-- What is written for a consistent snapshot is read back as that snapshot.
pub decode-row_of :
    (s : AccountSnapshot)
    → IsConsistent s.phase s.protective_reason
    → decode_row s.local_id (row_of s) ≡ ok s
decode-row_of s h =
    decode_fields s.local_id s.phase s.generation s.protective_reason s.updated_at_ms h

pub decode_row_sound :
    (id : AccountLocalId) (row : Row) (s : AccountSnapshot)
    → decode_row id row ≡ ok s
    → (row ≡ row_of s) × (s.local_id ≡ id) × IsConsistent s.phase s.protective_reason
unfolding decode_row validate_reason
decode_row_sound id row s h = grind (arith, phase_code_of, reason_code_of)
