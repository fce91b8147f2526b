-- ===== src/Reality/Stream.antt =====
-- src/transport/reality/stream.rs: the byte stream over protected records. The transport below is an
-- argument of each poll: what its own poll would answer. Keys and AEAD are those of Crypto.
mod Tests
pub mod Writes
pub mod Calls
pub mod Fifo
pub mod Runs
pub mod Delivery
pub mod Reads
use xray_lite.Prelude.{
  ℕ, zero, suc, ◌+◌, ◌-◌, Bool, true, false, Option, none, some, List, [], ◌∷◌, ◌++◌, length, take,
  drop, get_or, ltb, if◌then◌else◌, ◌==◌,
}
use xray_lite.Prelude.Outcome.{Outcome, ok, err, panic}
use xray_lite.Prelude.Bytes.{Bytes, be16}
use xray_lite.Reality.Crypto.{CryptoError, TlsKeys, decrypt_client_record, encrypt_server_record}

pub record TlsStream (Key : Type 0) : Type 0 where
  pub keys : TlsKeys Key
  pub input_buffer : Bytes
  pub decrypted_buffer : Bytes
  pub write_buffer : Bytes
  pub read_seq : ℕ
  pub write_seq : ℕ

-- What a poll answers, with a value where it is ready.
pub data Poll (A : Type 0) : Type 0 where
  ready : A → Poll A
  failed partial_write incomplete_record panicked : Poll A
  protection_failed : CryptoError → Poll A
  pending : Poll A
  -- No answer of the program: the loop outran the model's fuel.
  out_of_fuel : Poll A

-- What the transport's `poll_write` answers to a record: it took so many bytes, or none yet, or failed.
pub data Sink : Type 0 where
  took : ℕ → Sink
  sink_failed sink_pending : Sink

unfoldable pub new_with_buffer : {Key : Type 0} → TlsKeys Key → Bytes → TlsStream Key
new_with_buffer keys initial_data = record {
  keys = keys;
  input_buffer = initial_data;
  decrypted_buffer = [];
  write_buffer = [];
  read_seq = 0;
  write_seq = 0;
}

unfoldable pub new : {Key : Type 0} → TlsKeys Key → TlsStream Key
unfolding new_with_buffer
new keys = new_with_buffer keys []

module _ {Key : Type 0} (open_in_place : Key → Bytes → Bytes → Bytes → Option Bytes) where
  -- The record is split off the input before it is opened, and is gone if that fails.
  abbrev take_record : TlsStream Key → ℕ → TlsStream Key
  take_record s len = record s { input_buffer = drop (5 + len) s.input_buffer }

  abbrev keep_content : TlsStream Key → ℕ → Bytes → TlsStream Key
  keep_content s content_type content = record s {
    read_seq = s.read_seq + 1;
    decrypted_buffer =
        if content_type == 23 then s.decrypted_buffer ++ content else s.decrypted_buffer;
  }

  opened :
      TlsStream Key → Outcome CryptoError (ℕ × ℕ × Bytes) → Outcome CryptoError Bool × TlsStream Key
  opened s (ok (content_type, len, plain)) = (ok true, keep_content s content_type (take len plain))
  opened s (err e) = (err e, s)
  opened s panic = (panic, s)

  -- `ok true`: a record was processed. `ok false`: more bytes are needed.
  pub process_record : TlsStream Key → Outcome CryptoError Bool × TlsStream Key
  process_record s =
      if ltb (length s.input_buffer) 5
      then (ok false, s)
      else let len = be16 (get_or s.input_buffer 3 0) (get_or s.input_buffer 4 0) in
        if ltb (length s.input_buffer) (5 + len)
        then (ok false, s)
        else opened (take_record s len) (
            decrypt_client_record open_in_place s.keys s.read_seq (take 5 s.input_buffer)
              (take len (drop 5 s.input_buffer)))

-- What the transport's `poll_read` answers: bytes, none of them at the end of the stream, or a failure.
-- A list of answers that is used up stands for `Pending`.
pub data Source : Type 0 where
  got : Bytes → Source
  source_failed : Source

module _ {Key : Type 0} (open_in_place : Key → Bytes → Bytes → Bytes → Option Bytes) where
  -- As many of the decrypted bytes as the caller has room for.
  abbrev drain : ℕ → TlsStream Key → Poll Bytes × TlsStream Key
  drain remaining s = (
    ready (take remaining s.decrypted_buffer),
    record s { decrypted_buffer = drop remaining s.decrypted_buffer },
  )

  end_of_stream : TlsStream Key → Poll Bytes × TlsStream Key
  end_of_stream s = if length s.input_buffer == 0 then (ready [], s) else (incomplete_record, s)

  after_record :
      ℕ
      → (TlsStream Key → List Source → Poll Bytes × TlsStream Key)
      → List Source
      → Outcome CryptoError Bool × TlsStream Key
      → Poll Bytes × TlsStream Key
  after_record remaining rest answers (ok true, s) =
      if ltb 0 (length s.decrypted_buffer) then drain remaining s else rest s answers
  after_record remaining rest [] (ok false, s) = (pending, s)
  after_record remaining rest (got [] ∷ answers) (ok false, s) = end_of_stream s
  after_record remaining rest (got (x ∷ xs) ∷ answers) (ok false, s) =
      rest (record s { input_buffer = s.input_buffer ++ (x ∷ xs) }) answers
  after_record remaining rest (source_failed ∷ answers) (ok false, s) = (failed, s)
  after_record remaining rest answers (err e, s) = (protection_failed e, s)
  after_record remaining rest answers (panic, s) = (panicked, s)

  -- `loop { … }`
  read_loop : ℕ → ℕ → TlsStream Key → List Source → Poll Bytes × TlsStream Key
  read_loop zero remaining s answers = (out_of_fuel, s)
  read_loop (suc fuel) remaining s answers =
      let rest = read_loop fuel remaining in
      after_record remaining rest answers (process_record open_in_place s)

  abbrev pub bytes_to_come : List Source → ℕ
  bytes_to_come [] = 0
  bytes_to_come (got xs ∷ answers) = length xs + suc (bytes_to_come answers)
  bytes_to_come (source_failed ∷ answers) = suc (bytes_to_come answers)

  pub poll_read : ℕ → TlsStream Key → List Source → Poll Bytes × TlsStream Key
  poll_read remaining s answers =
      if ltb 0 (length s.decrypted_buffer)
      then drain remaining s
      else read_loop (suc (length s.input_buffer + bytes_to_come answers)) remaining s answers

module _ {Key : Type 0} (seal : Key → Bytes → Bytes → Bytes → Option Bytes) (tag_len : ℕ) where
  -- The transport's answer to a whole record; the bytes that went out come with it.
  after_sink : TlsStream Key → Bytes → Sink → Poll Unit × TlsStream Key × Bytes
  after_sink s wire (took n) =
      if ltb n (length wire)
      then (partial_write, s, take n wire)
      else (ready tt, record s { write_seq = s.write_seq + 1; write_buffer = [] }, wire)
  after_sink s wire sink_failed = (failed, s, [])
  after_sink s wire sink_pending = (pending, s, [])

  sealed_record :
      TlsStream Key → Sink → Outcome CryptoError Bytes → Poll Unit × TlsStream Key × Bytes
  sealed_record s sink (ok wire) = after_sink s wire sink
  sealed_record s sink (err e) = (protection_failed e, s, [])
  sealed_record s sink panic = (panicked, s, [])

  pub flush_write_buffer : TlsStream Key → Sink → Poll Unit × TlsStream Key × Bytes
  flush_write_buffer s sink =
      if ltb 0 (length s.write_buffer)
      then sealed_record s sink
          (encrypt_server_record seal tag_len s.keys s.write_seq s.write_buffer 23)
      else (ready tt, s, [])

  -- Whether the buffer may be filled after a flush: it must be empty.
  after_flush : Bytes → Poll Unit × TlsStream Key × Bytes → Poll ℕ × TlsStream Key × Bytes
  after_flush buf (ready u, s, wire) =
      (ready (length buf), record s { write_buffer = s.write_buffer ++ buf }, wire)
  after_flush buf (failed, s, wire) = (failed, s, wire)
  after_flush buf (partial_write, s, wire) = (partial_write, s, wire)
  after_flush buf (panicked, s, wire) = (panicked, s, wire)
  after_flush buf (out_of_fuel, s, wire) = (out_of_fuel, s, wire)
  after_flush buf (incomplete_record, s, wire) = (incomplete_record, s, wire)
  after_flush buf (protection_failed e, s, wire) = (protection_failed e, s, wire)
  after_flush buf (pending, s, wire) =
      if ltb 0 (length s.write_buffer)
      then (pending, s, wire)
      else (ready (length buf), record s { write_buffer = s.write_buffer ++ buf }, wire)

  -- Up to 14336 bytes are gathered before a record is sent.
  pub poll_write : TlsStream Key → Bytes → Sink → Poll ℕ × TlsStream Key × Bytes
  poll_write s buf sink =
      if ltb 14336 (length s.write_buffer + length buf)
      then after_flush buf (flush_write_buffer s sink)
      else (ready (length buf), record s { write_buffer = s.write_buffer ++ buf }, [])

  -- A transport's own `poll_flush` or `poll_shutdown`, once all is sent; `below` is what it answers.
  after_sent : Poll Unit → Poll Unit × TlsStream Key × Bytes → Poll Unit × TlsStream Key × Bytes
  after_sent below (ready u, s, wire) = (below, s, wire)
  after_sent below (failed, s, wire) = (failed, s, wire)
  after_sent below (partial_write, s, wire) = (partial_write, s, wire)
  after_sent below (panicked, s, wire) = (panicked, s, wire)
  after_sent below (out_of_fuel, s, wire) = (out_of_fuel, s, wire)
  after_sent below (incomplete_record, s, wire) = (incomplete_record, s, wire)
  after_sent below (protection_failed e, s, wire) = (protection_failed e, s, wire)
  after_sent below (pending, s, wire) = (pending, s, wire)

  pub poll_flush : TlsStream Key → Sink → Poll Unit → Poll Unit × TlsStream Key × Bytes
  poll_flush s sink below = after_sent below (flush_write_buffer s sink)

  pub poll_shutdown : TlsStream Key → Sink → Poll Unit → Poll Unit × TlsStream Key × Bytes
  poll_shutdown s sink below = after_sent below (flush_write_buffer s sink)
