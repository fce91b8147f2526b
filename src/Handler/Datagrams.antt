-- ===== src/Handler/Datagrams.antt =====
-- The UDP side of src/handler.rs: datagrams in a stream, each behind its length in two bytes.
-- `send_task` runs on the bytes that the client's stream still gives before it ends or falls silent,
-- `recv_task` on what the socket answers. The answers to the nth send and write are parameters.
use xray_lite.Prelude.{
  ℕ, zero, suc, ◌+◌, ◌/◌, ◌%◌, ◌<◌, ◌≤◌, ◌≡◌, ◌≢◌, refl, ap, Bool, true, ◌||◌, List, [], ◌∷◌, ◌++◌,
  length, take, drop, get_or, map, ltb, ◌==◌, if◌then◌else◌, All, arith, length-append, length-drop,
  take-append_at, drop-append_at, take_all,
}
use xray_lite.Prelude.Bytes.{Bytes, be16, as_u8}

abbrev pub datagram_limit : ℕ
datagram_limit = 16384

-- How the loop of `send_task` ends. `out_of_fuel` is no end of the program.
pub data SendEnd : Type 0 where
  closed bad_length send_failed out_of_fuel : SendEnd

abbrev pub with_datagram : Bytes → List Bytes × SendEnd → List Bytes × SendEnd
with_datagram payload (sent, end) = (payload ∷ sent, end)

module _ (send_ok : ℕ → Bool) where
  send_from : ℕ → ℕ → Bytes → List Bytes × SendEnd
  send_from zero i s = ([], out_of_fuel)
  send_from (suc fuel) i s =
      let len = be16 (get_or s 0 0) (get_or s 1 0) in
      let rest = send_from fuel (i + 1) (drop len (drop 2 s)) in
      let payload = take len (drop 2 s) in
      let sent = (if send_ok i then with_datagram payload rest else (payload ∷ [], send_failed)) in
      if ltb (length s) 2
      then ([], closed)
      else if len == 0 || ltb datagram_limit len
      then ([], bad_length)
      else if ltb (length (drop 2 s)) len
      then ([], closed)
      else sent

  -- The datagrams that are handed to the socket, and how the loop ends.
  pub send_task : Bytes → List Bytes × SendEnd
  send_task s = send_from (suc (length s)) 0 s

  send_from_ends : (fuel i : ℕ) (s : Bytes) → length s < fuel → (send_from fuel i s).1 ≢ out_of_fuel
  unfolding send_from
  send_from_ends zero i s h = absurd (omega arith)
  send_from_ends (suc fuel) i s h =
      let len = be16 (get_or s 0 0) (get_or s 1 0) in
      ground (
        arith,
        send_from_ends fuel (i + 1) (drop len (drop 2 s)),
        length-drop 2 s,
        length-drop len (drop 2 s),
      )

  -- The loop of `send_task` ends on every stream: each round takes two bytes or more.
  pub send_task_ends : (s : Bytes) → (send_task s).1 ≢ out_of_fuel
  unfolding send_task
  send_task_ends s = send_from_ends (suc (length s)) 0 s (omega arith)

-- What `recv_from` answers; a datagram that is longer than the buffer is cut by the socket.
pub data Arrival : Type 0 where
  arrived : Bytes → Arrival
  recv_failed recv_timeout : Arrival

unfoldable pub frame : Bytes → Bytes
frame payload = as_u8 (length payload / 256) ∷ length payload % 256 ∷ payload

module _ (write_ok : ℕ → Bool) where
  recv_from : ℕ → List Arrival → Bytes
  recv_from i [] = []
  recv_from i (recv_failed ∷ arrivals) = []
  recv_from i (recv_timeout ∷ arrivals) = []
  recv_from i (arrived datagram ∷ arrivals) =
      let rest = recv_from (i + 1) arrivals in
      let payload = take datagram_limit datagram in
      if length payload == 0
      then []
      else if write_ok i
      then frame payload ++ rest
      else frame payload

  -- The bytes that are written to the client.
  pub recv_task : List Arrival → Bytes
  recv_task arrivals = recv_from 0 arrivals

abbrev pub always : ℕ → Bool
always n = true

-- A datagram that one frame carries.
abbrev pub IsDatagram : Bytes → Type 0
IsDatagram d = (0 < length d) × (length d ≤ datagram_limit)

send_from-frame :
    (fuel i : ℕ) (d rest : Bytes)
    → IsDatagram d
    → send_from always (suc fuel) i (frame d ++ rest)
      ≡ with_datagram d (send_from always fuel (i + 1) rest)
unfolding send_from frame
send_from-frame fuel i d rest h = ground (
  arith,
  length-append {0} d rest,
  take-append_at {0} (length d) d rest,
  drop-append_at {0} (length d) d rest,
)

recv_from-arrived :
    (i : ℕ) (d : Bytes) (arrivals : List Arrival)
    → IsDatagram d
    → recv_from always i (arrived d ∷ arrivals) ≡ frame d ++ recv_from always (i + 1) arrivals
unfolding recv_from
recv_from-arrived i d arrivals h = ground (arith, take_all {0} datagram_limit d)

send_from-recv_from :
    (ds : List Bytes) (fuel i j : ℕ)
    → All IsDatagram ds
    → length (recv_from always j (map arrived ds)) < fuel
    → send_from always fuel i (recv_from always j (map arrived ds)) ≡ (ds, closed)
send_from-recv_from [] (suc fuel) i j h f = unfold send_from recv_from in refl
send_from-recv_from [] zero i j h f = absurd (omega arith)
send_from-recv_from (d ∷ ds) zero i j h f = absurd (omega arith)
send_from-recv_from (d ∷ ds) (suc fuel) i j h f =
    let rest = recv_from always (j + 1) (map arrived ds) in
    let step = recv_from-arrived j d (map arrived ds) h.0 in
    let size : length (frame d ++ rest) ≡ 2 + (length d + length rest) =
      unfold frame in omega (arith, length-append {0} d rest) in
    rw step (
      rw (send_from-frame fuel i d rest h.0) (
        rw (send_from-recv_from ds fuel (i + 1) (j + 1) h.1 (omega (arith, ap length step, size)))
          refl))

-- What the relay writes to the client for datagrams of 1 to 16384 bytes is what the relay itself
-- reads from a client: the same datagrams, in the same order, to the end of the stream. Every
-- write to the client and every send of a datagram succeeds.
pub send_task-recv_task :
    (ds : List Bytes)
    → All IsDatagram ds
    → send_task always (recv_task always (map arrived ds)) ≡ (ds, closed)
unfolding send_task recv_task
send_task-recv_task ds h =
    send_from-recv_from ds (suc (length (recv_from always 0 (map arrived ds)))) 0 0 h (omega arith)
