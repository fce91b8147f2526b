-- ===== src/Network/Relay.antt =====
-- src/network/connection.rs: one direction of the relay, the counter and the pool.
use xray_lite.Prelude.{
  ℕ, ◌+◌, ◌≤◌, ◌≡◌, ◌<◌, ◌^◌, refl, subst, List, [], ◌∷◌, ◌++◌, length, arith, All,
}
use xray_lite.Prelude.Bytes.{Bytes}
use xray_lite.Network.{
  Event, received, read_error, idle_timeout, shut_down, timed_out, errored, relay, Step, connect,
  disconnect, active_count, get, put_back,
}

-- Reads that bring bytes.
abbrev pub events_of : List Bytes → List Event
events_of [] = []
events_of (b ∷ bs) = received b ∷ events_of bs

abbrev pub concat : List Bytes → Bytes
concat [] = []
concat (b ∷ bs) = b ++ concat bs

abbrev pub IsFilled : Bytes → Type 0
IsFilled [] = ⊥
IsFilled (x ∷ xs) = Unit {0}

-- Until an event ends it, one direction writes just what it read, in order; after that event it
-- neither reads nor writes.
pub relay_lem :
    (chunks : List Bytes) (later : List Event)
    → All IsFilled chunks
    → (relay (events_of chunks ++ received [] ∷ later) ≡ (concat chunks, shut_down))
      × ((relay (events_of chunks ++ read_error ∷ later) ≡ (concat chunks, errored))
          × (relay (events_of chunks ++ idle_timeout ∷ later) ≡ (concat chunks, timed_out)))
unfolding relay
relay_lem [] later v = (refl, (refl, refl))
relay_lem ([] ∷ chunks) later v = absurd v.0
relay_lem ((x ∷ xs) ∷ chunks) later (u, v) =
    let (eof, (bad, idle)) = relay_lem chunks later v in (rw eof refl, (rw bad refl, rw idle refl))

-- The pool never grows over 512 buffers, whatever is taken from it and put back.
pub pool_bounded :
    (buf : Bytes) (pool : List Bytes)
    → length pool ≤ 512
    → (length (put_back buf pool) ≤ 512) × (length (get pool).1 ≤ 512)
unfolding put_back get
pool_bounded buf [] h = (omega arith, omega arith)
pool_bounded buf (p ∷ pool) h = (ground arith, omega arith)

-- Connections that come and go in any order, each going after it came, and fewer than 2^64 at a time.
pub data IsRun : ℕ → List Step → ℕ → Type 0 where
  nothing : (n : ℕ) → IsRun n [] n
  come :
      (n m : ℕ) (steps : List Step)
      → n + 1 < 2 ^ 64
      → IsRun (n + 1) steps m
      → IsRun n (connect ∷ steps) m
  go :
      (n m : ℕ) (steps : List Step)
      → n + 1 < 2 ^ 64
      → IsRun n steps m
      → IsRun (n + 1) (disconnect ∷ steps) m

-- In any interleaving the counter is the number of connections that are open: it never wraps.
pub active_count_lem : (n m : ℕ) (steps : List Step) → IsRun n steps m → active_count steps n ≡ m
unfolding active_count
active_count_lem n m steps (nothing k) = refl
active_count_lem n m steps (come k j more h r) =
    subst (λ q. active_count more q ≡ j) (omega arith) (active_count_lem (k + 1) j more r)
active_count_lem n m steps (go k j more h r) =
    subst (λ q. active_count more q ≡ j) (omega arith) (active_count_lem k j more r)
