-- ===== src/Reality/Stream/Calls.antt =====
-- src/transport/reality/stream.rs: a caller that writes and flushes, and stops at the first error.
use xray_lite.Prelude.{ℕ, Option, List, [], ◌∷◌, ◌++◌, take}
use xray_lite.Prelude.Bytes.{Bytes}
use xray_lite.Reality.Stream.{
  TlsStream, Poll, Sink, ready, pending, failed, partial_write, incomplete_record, panicked,
  out_of_fuel, protection_failed, poll_write, poll_flush,
}

-- A call, with what the transport answers to a record and, for a flush, to its own flush.
pub data Call : Type 0 where
  write : Bytes → Sink → Call
  flush : Sink → Poll Unit → Call

-- A call that was answered: the bytes that it took, those that went out, and the stream after it.
pub data Answer (Key : Type 0) : Type 0 where
  answered : Bytes → Bytes → TlsStream Key → Answer Key
  errored : Answer Key

module _ {Key : Type 0} where
  abbrev pub write_answer : Bytes → Poll ℕ × TlsStream Key × Bytes → Answer Key
  write_answer buf (ready n, s, wire) = answered (take n buf) wire s
  write_answer buf (pending, s, wire) = answered [] wire s
  write_answer buf (failed, s, wire) = errored
  write_answer buf (partial_write, s, wire) = errored
  write_answer buf (incomplete_record, s, wire) = errored
  write_answer buf (panicked, s, wire) = errored
  write_answer buf (out_of_fuel, s, wire) = errored
  write_answer buf (protection_failed e, s, wire) = errored

  abbrev pub flush_answer : Poll Unit × TlsStream Key × Bytes → Answer Key
  flush_answer (ready u, s, wire) = answered [] wire s
  flush_answer (pending, s, wire) = answered [] wire s
  flush_answer (failed, s, wire) = errored
  flush_answer (partial_write, s, wire) = errored
  flush_answer (incomplete_record, s, wire) = errored
  flush_answer (panicked, s, wire) = errored
  flush_answer (out_of_fuel, s, wire) = errored
  flush_answer (protection_failed e, s, wire) = errored

module _ {Key : Type 0} (seal : Key → Bytes → Bytes → Bytes → Option Bytes) (tag_len : ℕ) where
  unfoldable pub answer : TlsStream Key → Call → Answer Key
  answer s (write buf sink) = write_answer buf (poll_write seal tag_len s buf sink)
  answer s (flush sink below) = flush_answer (poll_flush seal tag_len s sink below)

  abbrev pub before_rest :
      Bytes → Bytes → Bytes × Bytes × TlsStream Key → Bytes × Bytes × TlsStream Key
  before_rest taken wire (all_taken, all_wire, s) = (taken ++ all_taken, wire ++ all_wire, s)

  abbrev pub after_answer :
      TlsStream Key
      → Answer Key
      → (TlsStream Key → Bytes × Bytes × TlsStream Key)
      → Bytes × Bytes × TlsStream Key
  after_answer s (answered taken wire t) rest = before_rest taken wire (rest t)
  after_answer s errored rest = ([], [], s)

  -- All the bytes that were taken, all that went out, and the stream in the end.
  unfoldable pub run : List Call → TlsStream Key → Bytes × Bytes × TlsStream Key
  run [] s = ([], [], s)
  run (call ∷ calls) s = after_answer s (answer s call) (run calls)
