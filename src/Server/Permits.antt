-- ===== src/Server/Permits.antt =====
-- src/server.rs: the accept loop of `run_inbound` and its semaphore. The loop and the connections
-- that it spawned take turns in any order.
use xray_lite.Prelude.{ℕ, ◌+◌, ◌-◌, ◌<◌, ◌≡◌, refl, Bool, true, false, if◌then◌else◌, arith}

abbrev pub max_connections : ℕ
max_connections = 10000

-- The permits that are free, whether the loop holds one, and the connections that hold one each.
pub record AcceptLoop : Type 0 where
  pub permits : ℕ
  pub holding : Bool
  pub connections : ℕ

abbrev pub started : AcceptLoop
started = record { permits = max_connections; holding = false; connections = 0 }

pub data Step (s : AcceptLoop) : AcceptLoop → Type 0 where
  -- `acquire_owned`
  acquire :
      s.holding ≡ false
      → 0 < s.permits
      → Step s (record s { permits = s.permits - 1; holding = true })
  -- `accept` answers a stream: the permit goes with the spawned connection.
  spawn : s.holding ≡ true → Step s (record s { holding = false; connections = s.connections + 1 })
  -- `accept` fails, in any of the three ways: the permit is dropped at the end of the round.
  accept_failed : s.holding ≡ true → Step s (record s { permits = s.permits + 1; holding = false })
  -- A connection is over, and drops its permit.
  closed :
      0 < s.connections
      → Step s (record s { permits = s.permits + 1; connections = s.connections - 1 })

pub data Steps (s : AcceptLoop) : AcceptLoop → Type 0 where
  here : Steps s s
  next : {t u : AcceptLoop} → Steps s t → Step t u → Steps s u

abbrev pub Conserved : AcceptLoop → Type 0
Conserved s = s.permits + (if s.holding then 1 else 0) + s.connections ≡ max_connections

Step-Conserved : {s t : AcceptLoop} → Step s t → Conserved s → Conserved t
Step-Conserved (acquire loose free) c = ground (arith, loose, free, c)
Step-Conserved (spawn held) c = ground (arith, held, c)
Step-Conserved (accept_failed held) c = ground (arith, held, c)
Step-Conserved (closed some_open) c = ground (arith, some_open, c)

-- In every state that the loop and its connections reach from the start, the free permits, the one
-- that the loop holds and the open connections are 10000 together: no permit is lost, and never
-- more than 10000 connections are open.
pub Steps-Conserved : {s : AcceptLoop} → Steps started s → Conserved s
Steps-Conserved here = refl
Steps-Conserved (next before step) = Step-Conserved step (Steps-Conserved before)

-- While fewer than 10000 connections are open, the loop can go on to one more: a permit is free or
-- held already, and after it only an accepted stream is needed.
pub can_spawn :
    {s : AcceptLoop}
    → Steps started s
    → s.connections < max_connections
    → (t : AcceptLoop) × Steps s t × (t.connections ≡ s.connections + 1)
can_spawn {s} reached room = go s.holding refl
  where
    go :
        (held : Bool)
        → s.holding ≡ held
        → (t : AcceptLoop) × Steps s t × (t.connections ≡ s.connections + 1)
    go true e =
        (record s { holding = false; connections = s.connections + 1 }, next here (spawn e), refl)
    go false e = (
      record s { permits = s.permits - 1; holding = false; connections = s.connections + 1 },
      next (next here (acquire e (ground (arith, e, Steps-Conserved reached)))) (spawn refl),
      refl,
    )
