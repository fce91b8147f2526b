-- ===== src/Network/Joined/Tests.antt =====
-- Runs of both directions of the relay.
use xray_lite.Prelude.{List, [], ◌∷◌}
use xray_lite.Network.{Event, received, idle_timeout}
use xray_lite.Network.Joined.{Side, client, remote}

-- The client asks and is done; the remote side answers in two reads, and falls silent.
abbrev talk : List (Side × Event)
talk =
    (client, received (1 ∷ 2 ∷ []))
    ∷ (remote, received (3 ∷ []))
    ∷ (client, received [])
    ∷ (remote, received (4 ∷ 5 ∷ []))
    ∷ (remote, idle_timeout)
    ∷ []
