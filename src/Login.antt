-- ===== src/Login.antt =====
-- crates/qq-domain/src/login.rs: the login state machine.
pub mod Progress
mod Tests
use lirvena.Base.{ℕ, Bool, true, false, not, if◌then◌else◌, List, [], ◌∷◌, Result, ok, err, Method}

pub data LoginFailure : Type 0 where
  transport protocol profile ceylith_continuity rejected : LoginFailure

pub data LoginState : Type 0 where
  stopped fetching_qr awaiting_scan awaiting_confirmation exchanging_credentials registering :
      LoginState
  online protective_offline : LoginState
  failed : LoginFailure → LoginState
  qr_expired qr_canceled : LoginState

pub record TransitionError : Type 0 where
  pub from : LoginState
  pub to : LoginState

pub record LoginMachine : Type 0 where
  pub state : LoginState

abbrev pub new : LoginMachine
new = record { state = stopped }

-- The destinations of the alternatives of `is_allowed`, each with `(_, Stopped)`.
abbrev pub from_rest : LoginState → Bool
from_rest fetching_qr = true
from_rest stopped = true
from_rest _ = false

abbrev pub from_fetching : LoginState → Bool
from_fetching awaiting_scan = true
from_fetching (failed f) = true
from_fetching stopped = true
from_fetching _ = false

abbrev pub from_awaiting : LoginState → Bool
from_awaiting awaiting_scan = true
from_awaiting awaiting_confirmation = true
from_awaiting exchanging_credentials = true
from_awaiting qr_expired = true
from_awaiting qr_canceled = true
from_awaiting (failed f) = true
from_awaiting stopped = true
from_awaiting _ = false

abbrev pub from_exchanging : LoginState → Bool
from_exchanging registering = true
from_exchanging protective_offline = true
from_exchanging (failed f) = true
from_exchanging stopped = true
from_exchanging _ = false

abbrev pub from_registering : LoginState → Bool
from_registering online = true
from_registering protective_offline = true
from_registering (failed f) = true
from_registering stopped = true
from_registering _ = false

abbrev pub from_online : LoginState → Bool
from_online protective_offline = true
from_online (failed f) = true
from_online stopped = true
from_online _ = false

unfoldable pub is_allowed : LoginState → LoginState → Bool
is_allowed stopped to = from_rest to
is_allowed protective_offline to = from_rest to
is_allowed (failed f) to = from_rest to
is_allowed qr_expired to = from_rest to
is_allowed qr_canceled to = from_rest to
is_allowed fetching_qr to = from_fetching to
is_allowed awaiting_scan to = from_awaiting to
is_allowed awaiting_confirmation to = from_awaiting to
is_allowed exchanging_credentials to = from_exchanging to
is_allowed registering to = from_registering to
is_allowed online to = from_online to

unfoldable pub transition : LoginState → Method LoginMachine TransitionError LoginState
unfolding is_allowed
transition next m =
    if not (is_allowed m.state next)
    then (err (record { from = m.state; to = next }), m)
    else (ok m.state, record m { state = next })
