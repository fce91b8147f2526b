-- ===== src/Reality/Stream/Tests.antt =====
-- Runs of the protected stream.
use xray_lite.Prelude.{ℕ, ◌+◌, ◌≡◌, refl, true, List, [], ◌∷◌, ◌++◌, length, arith}
use xray_lite.Prelude.Outcome.{ok}
use xray_lite.Prelude.Bytes.{Bytes, IsU16}
use xray_lite.Reality.Crypto.{encrypt_server_record}
use xray_lite.Reality.Stream.{
  TlsStream, process_record, poll_write, flush_write_buffer, sealed_record, after_sink, poll_flush,
  after_sent, took, ready,
}
use xray_lite.Reality.Stream.Reads.{process-encrypt_record}
use xray_lite.Reality.Stream.Calls.{Call, write, flush, run, answer}
use xray_lite.Reality.Stream.Fifo.{Moves}
use xray_lite.Reality.Stream.Runs.{run_refines}
use xray_lite.Reality.Stream.Delivery.{process_all, run_delivered}
use xray_lite.Reality.Crypto.Tests.{seal, unseal, seal-law, keys, wire_hi, hi_sealed}

abbrev stream : TlsStream ℕ
stream = record {
  keys = keys;
  input_buffer = [];
  decrypted_buffer = [];
  write_buffer = 104 ∷ 105 ∷ [];
  read_seq = 0;
  write_seq = 0;
}

process-encrypt_record_example :
    process_record unseal (record stream { input_buffer = wire_hi ++ 23 ∷ [] }) ≡ (
      ok true,
      record stream {
        input_buffer = 23 ∷ [];
        read_seq = 0 + 1;
        decrypted_buffer = [] ++ 104 ∷ 105 ∷ [];
      },
    )
process-encrypt_record_example =
    process-encrypt_record unseal seal 1 seal-law keys stream (104 ∷ 105 ∷ []) wire_hi (23 ∷ [])
      refl refl hi_sealed (omega arith)

abbrev flushed : TlsStream ℕ
flushed = record stream { write_seq = 0 + 1; write_buffer = [] }

hi_flushed : flush_write_buffer seal 1 stream (took 9) ≡ (ready tt, flushed, wire_hi)
unfolding flush_write_buffer sealed_record after_sink encrypt_server_record
hi_flushed = refl

abbrev written : TlsStream ℕ
written = record stream { write_buffer = (104 ∷ 105 ∷ []) ++ 33 ∷ [] }

abbrev unsent : Bytes
unsent = []

hi_written : poll_write seal 1 stream (33 ∷ []) (took 9) ≡ (ready 1, written, unsent)
unfolding poll_write
hi_written = refl

-- Two bytes are written and flushed over a transport that takes everything.
abbrev two_calls : List Call
two_calls = write (104 ∷ 105 ∷ []) (took 99) ∷ flush (took 99) (ready tt) ∷ []

abbrev fresh : TlsStream ℕ
fresh = record stream { write_buffer = [] }

two_run : run seal 1 two_calls fresh ≡ (104 ∷ 105 ∷ [], wire_hi, record fresh { write_seq = 1 })
unfolding run answer poll_write poll_flush after_sent flush_write_buffer sealed_record after_sink
    encrypt_server_record
two_run = refl

run_refines_example :
    let (taken, wire, t) = run seal 1 two_calls fresh in Moves seal 1 fresh taken wire t
run_refines_example = run_refines seal 1 two_calls fresh

two_small : IsU16 (length (run seal 1 two_calls fresh).1)
two_small = rw two_run (omega arith)

two_flushed : (run seal 1 two_calls fresh).2.write_buffer ≡ []
two_flushed = rw two_run refl

run_delivered_example :
    (n : ℕ) × (process_all unseal n
        (record fresh { input_buffer = (run seal 1 two_calls fresh).1 ++ 23 ∷ [] })
      ≡ record fresh {
        input_buffer = 23 ∷ [];
        read_seq = 0 + n;
        decrypted_buffer = [] ++ (run seal 1 two_calls fresh).0;
      })
run_delivered_example =
    run_delivered unseal seal 1 seal-law two_calls fresh fresh (23 ∷ []) refl refl refl refl
      two_flushed two_small
