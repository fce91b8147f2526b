-- ===== src/Network.antt =====
-- src/network/connection.rs: the pool of buffers and the count of connections. One
-- direction of the relay is a function of what its reads answer.
pub mod Relay
pub mod Joined
use xray_lite.Prelude.{
  ℕ, zero, suc, ◌+◌, ◌-◌, ◌*◌, ◌%◌, ◌^◌, Bool, true, false, List, [], ◌∷◌, ◌++◌, length, replicate,
  ltb, if◌then◌else◌,
}
use xray_lite.Prelude.Bytes.{Bytes}

abbrev pub buffer_size : ℕ
buffer_size = 16 * 1024

-- `PooledBuffer::get`: a buffer, and the pool that is left.
unfoldable pub get : List Bytes → Bytes × List Bytes
get [] = (replicate buffer_size 0, [])
get (buf ∷ pool) = (buf, pool)

-- `drop` of a `PooledBuffer`
unfoldable pub put_back : Bytes → List Bytes → List Bytes
put_back buf pool = if ltb (length pool) 512 then buf ∷ pool else pool

-- What one read of a direction answers.
pub data Event : Type 0 where
  received : Bytes → Event
  read_error idle_timeout : Event

-- How a direction ends: with its writer shut down, after the idle timeout, or with an error.
pub data End : Type 0 where
  shut_down timed_out errored : End
  -- The reads go on; no end of the program.
  running : End

-- One direction: what was written, and how it ended. Writes succeed.
unfoldable pub relay : List Event → Bytes × End
relay [] = ([], running)
relay (received [] ∷ events) = ([], shut_down)
relay (received (x ∷ xs) ∷ events) = let (written, end) = relay events in ((x ∷ xs) ++ written, end)
relay (read_error ∷ events) = ([], errored)
relay (idle_timeout ∷ events) = ([], timed_out)

-- The steps of the manager's counter: the entry and the exit of `handle_connection`.
pub data Step : Type 0 where
  connect disconnect : Step

-- `fetch_add(1)` and `fetch_sub(1)` on an `AtomicUsize` of 64 bits, over any interleaving of connections.
unfoldable pub active_count : List Step → ℕ → ℕ
active_count [] n = n
active_count (connect ∷ steps) n = active_count steps ((n + 1) % 2 ^ 64)
active_count (disconnect ∷ steps) n = active_count steps ((n + (2 ^ 64 - 1)) % 2 ^ 64)
