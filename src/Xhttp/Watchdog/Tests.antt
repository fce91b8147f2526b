-- ===== src/Xhttp/Watchdog/Tests.antt =====
-- Runs of the watchdog of a connection.
use xray_lite.Prelude.{◌≡◌, refl, true, false, arith}
use xray_lite.Xhttp.Watchdog.{
  Connection, accepted_connection, load, request, stream_ends, Steps, here, next, Steps-Quiet,
}

-- A request came and its stream ended.
abbrev rested : Connection
rested = record { active_streams = 0; is_idle = true; at_top = false; is_open = true }

-- After a round that found a stream, the end of that stream does not arm the watchdog.
zombie_reached :
    Steps accepted_connection
      (record { active_streams = 0; is_idle = false; at_top = false; is_open = true })
zombie_reached =
    next (next (next (next here (load refl refl)) (request refl refl)) (load refl refl))
      (stream_ends (omega arith))

rested_reached : Steps accepted_connection rested
rested_reached =
    next (next (next (next here (load refl refl)) (request refl refl)) (stream_ends (omega arith)))
      (load refl refl)

Steps-Quiet_example : rested.active_streams ≡ 0
Steps-Quiet_example = Steps-Quiet rested_reached refl refl
