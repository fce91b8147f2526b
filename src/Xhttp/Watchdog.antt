-- ===== src/Xhttp/Watchdog.antt =====
-- src/transport/xhttp/h2.rs: the loop of `handle` over the requests of a connection, and its watchdog.
-- The streams run beside the loop, and may end between any two of its steps.
mod Tests
use xray_lite.Prelude.{ℕ, zero, suc, ◌+◌, ◌-◌, ◌<◌, ◌≡◌, refl, Bool, true, false, ◌==◌, arith}

-- The counter of active streams, what the round found it to be (0 or not), whether a round is about to start,
-- and whether the loop goes on.
pub record Connection : Type 0 where
  pub active_streams : ℕ
  pub is_idle : Bool
  pub at_top : Bool
  pub is_open : Bool

abbrev pub accepted_connection : Connection
accepted_connection = record { active_streams = 0; is_idle = false; at_top = true; is_open = true }

pub data Step (s : Connection) : Connection → Type 0 where
  -- `active_streams.load(..) == 0`, and into the `select!`
  load :
      s.is_open ≡ true
      → s.at_top ≡ true
      → Step s (record s { is_idle = s.active_streams == 0; at_top = false })
  -- A request: the count is raised before its stream is spawned.
  request :
      s.is_open ≡ true
      → s.at_top ≡ false
      → Step s (record s { active_streams = s.active_streams + 1; at_top = true })
  -- A stream is over.
  stream_ends : 0 < s.active_streams → Step s (record s { active_streams = s.active_streams - 1 })
  -- The client hangs up, or the connection breaks.
  hung_up : s.is_open ≡ true → s.at_top ≡ false → Step s (record s { is_open = false })
  -- The sleep of 300 seconds is over; it is an arm of the `select!` only if the round found no stream.
  watchdog :
      s.is_open ≡ true → s.at_top ≡ false → s.is_idle ≡ true → Step s (record s { is_open = false })

pub data Steps (s : Connection) : Connection → Type 0 where
  here : Steps s s
  next : {t u : Connection} → Steps s t → Step t u → Steps s u

abbrev pub Quiet : Connection → Type 0
Quiet s = s.at_top ≡ false → s.is_idle ≡ true → s.active_streams ≡ 0

Step-Quiet : {s t : Connection} → Step s t → Quiet s → Quiet t
Step-Quiet (load on top) q = λ inside idle. ground (arith, idle)
Step-Quiet (request on inside) q = λ top idle. absurd (ground (arith, top))
Step-Quiet (stream_ends some_active) q = λ inside idle. omega (arith, q inside idle, some_active)
Step-Quiet (hung_up on inside) q = q
Step-Quiet (watchdog on inside idle) q = q

-- The watchdog never ends a connection under a running stream: in every state that the loop and its streams
-- reach, in any order of their steps, where the sleep is an arm of the `select!`, no stream is active.
pub Steps-Quiet :
    {s : Connection}
    → Steps accepted_connection s
    → s.at_top ≡ false
    → s.is_idle ≡ true
    → s.active_streams ≡ 0
Steps-Quiet here top idle = absurd (ground (arith, top))
Steps-Quiet (next before step) top idle = Step-Quiet step (Steps-Quiet before) top idle
