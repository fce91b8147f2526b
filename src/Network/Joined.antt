-- ===== src/Network/Joined.antt =====
-- src/network/connection.rs: both directions of the relay under `try_join!`. Writes succeed.
mod Tests
use xray_lite.Prelude.{ℕ, ◌≡◌, Bool, true, false, List, [], ◌∷◌, ◌++◌, arith, append_assoc}
use xray_lite.Prelude.Bytes.{Bytes}
use xray_lite.Network.{Event, received, read_error, idle_timeout, relay}

pub data Side : Type 0 where
  client remote : Side

pub data JoinEnd : Type 0 where
  -- Both directions are over; one failed, and the other is dropped.
  closed broken : JoinEnd
  -- The reads go on; no end of the program.
  still_open : JoinEnd

-- What was written to each side, and the end.
pub record Joined : Type 0 where
  pub to_remote : Bytes
  pub to_client : Bytes
  pub end : JoinEnd

abbrev stopped_with : JoinEnd → Joined
stopped_with end = record { to_remote = []; to_client = []; end = end }

-- One read of a direction that may be over; `same` is what follows while it runs or is over as before, and
-- `over` what follows once it is over.
unfoldable pub from_client : Bool → Event → Joined → Joined → Joined
from_client false event same over = same
from_client true (received []) same over = over
from_client true (received (x ∷ xs)) same over = record same {
  to_remote = (x ∷ xs) ++ same.to_remote;
}
from_client true read_error same over = stopped_with broken
from_client true idle_timeout same over = over

unfoldable pub from_remote : Bool → Event → Joined → Joined → Joined
from_remote false event same over = same
from_remote true (received []) same over = over
from_remote true (received (x ∷ xs)) same over = record same {
  to_client = (x ∷ xs) ++ same.to_client;
}
from_remote true read_error same over = stopped_with broken
from_remote true idle_timeout same over = over

-- The join is over when both directions are.
unfoldable pub unless_over : Bool → Bool → Joined → Joined
unless_over false false rest = stopped_with closed
unless_over false true rest = rest
unless_over true runs rest = rest

-- `relay`, over the reads of both directions in the order in which they answer; the flags say which of them
-- still run.
unfoldable pub joined : Bool → Bool → List (Side × Event) → Joined
joined c r [] = unless_over c r (stopped_with still_open)
joined c r ((client, event) ∷ events) =
    unless_over c r (from_client c event (joined c r events) (joined false r events))
joined c r ((remote, event) ∷ events) =
    unless_over c r (from_remote r event (joined c r events) (joined c false events))

-- The reads of one side.
abbrev pub client_events : List (Side × Event) → List Event
client_events [] = []
client_events ((client, event) ∷ events) = event ∷ client_events events
client_events ((remote, event) ∷ events) = client_events events

abbrev pub remote_events : List (Side × Event) → List Event
remote_events [] = []
remote_events ((client, event) ∷ events) = remote_events events
remote_events ((remote, event) ∷ events) = event ∷ remote_events events

-- What one direction writes by itself, if it still runs.
abbrev alone : Bool → List Event → Bytes
alone false events = []
alone true events = (relay events).0

abbrev Carries : Bool → Bool → List Event → List Event → Joined → Type 0
Carries c r cs rs j = (j.to_remote ≡ alone c cs) × (j.to_client ≡ alone r rs)
