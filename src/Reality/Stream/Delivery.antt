-- ===== src/Reality/Stream/Delivery.antt =====
-- src/transport/reality/stream.rs: two ends of a connection.
use xray_lite.Prelude.{
  ℕ, zero, suc, ◌+◌, ◌≤◌, ◌<◌, ◌≡◌, ◌∙◌, sym, ap, subst, Bool, Option, some, List, [], ◌∷◌, ◌++◌,
  length, arith, append_assoc, append-nil, length-append,
}
use xray_lite.Prelude.Outcome.{Outcome, ok}
use xray_lite.Prelude.Bytes.{Bytes, IsU16}
use xray_lite.Reality.Crypto.{TlsKeys, CryptoError, encrypt_server_record}
use xray_lite.Reality.Stream.{
  TlsStream, Poll, took, process_record, flush_write_buffer, sealed_record, after_sink, poll_flush,
  after_sent,
}
use xray_lite.Reality.Stream.Reads.{process-encrypt_record}
use xray_lite.Reality.Stream.Calls.{Call, run}
use xray_lite.Reality.Stream.Fifo.{concat, Sealed}
use xray_lite.Reality.Stream.Runs.{run_refines}

module _ {Key : Type 0} (seal : Key → Bytes → Bytes → Bytes → Option Bytes) (tag_len : ℕ) where
  -- Each of the records is short enough for its length field.
  abbrev pub ShortRecords :
      (keys : TlsKeys Key) (seq : ℕ) (pieces : List Bytes) (wire : Bytes)
      → Sealed seal tag_len keys seq pieces wire
      → Type 0
  ShortRecords keys seq [] wire h = Unit {0}
  ShortRecords keys seq (piece ∷ pieces) wire (sealed, rest, split, done, more) =
      IsU16 (length sealed) × ShortRecords keys (seq + 1) pieces rest more

  short_of_small :
      (keys : TlsKeys Key) (pieces : List Bytes) (seq : ℕ) (wire : Bytes)
      → (h : Sealed seal tag_len keys seq pieces wire) → IsU16 (length wire)
      → ShortRecords keys seq pieces wire h
  short_of_small keys [] seq wire h small = tt
  short_of_small keys (p ∷ ps) seq wire (sealed, rest, split, done, later) small = (
    omega (arith, small, ap length split, length-append {0} sealed rest),
    short_of_small keys ps (seq + 1) rest later
        (omega (arith, small, ap length split, length-append {0} sealed rest)),
  )

  -- A transport that takes whole records gets everything that is in the buffer.
  pub poll_flush_delivers :
      (s : TlsStream Key) (n : ℕ) (below : Poll Unit) (wire : Bytes)
      → 0 < length s.write_buffer
      → encrypt_server_record seal tag_len s.keys s.write_seq s.write_buffer 23 ≡ ok wire
      → length wire ≤ n
      → poll_flush seal tag_len s (took n) below
        ≡ (below, record s { write_seq = s.write_seq + 1; write_buffer = [] }, wire)
  unfolding poll_flush flush_write_buffer sealed_record after_sink after_sent
  poll_flush_delivers s n below wire filled sealed big = ground (arith, filled, sealed, big)

module _ {Key : Type 0} (open_in_place : Key → Bytes → Bytes → Bytes → Option Bytes) where
  -- That many records processed, one after the other.
  pub process_all : ℕ → TlsStream Key → TlsStream Key
  process_all zero r = r
  process_all (suc n) r = process_all n (process_record open_in_place r).1

  module _ (seal : Key → Bytes → Bytes → Bytes → Option Bytes) (tag_len : ℕ)
      (law : (key : Key) (n aad plain sealed : Bytes)
        → seal key n aad plain ≡ some sealed
        → (open_in_place key n aad sealed ≡ some plain)
          × (length sealed ≡ length plain + tag_len)) where
    process_all-Sealed :
        (keys : TlsKeys Key) (pieces : List Bytes) (r : TlsStream Key) (wire more : Bytes)
        → keys.server_write_key ≡ r.keys.client_write_key
        → keys.server_iv ≡ r.keys.client_iv
        → (h : Sealed seal tag_len keys r.read_seq pieces wire)
        → ShortRecords seal tag_len keys r.read_seq pieces wire h
        → process_all (length pieces) (record r { input_buffer = wire ++ more }) ≡ record r {
          input_buffer = more;
          read_seq = r.read_seq + length pieces;
          decrypted_buffer = r.decrypted_buffer ++ concat pieces;
        }
    unfolding process_all
    process_all-Sealed keys [] r wire more ek ei h short =
        ground (arith, h, append-nil r.decrypted_buffer)
    process_all-Sealed keys (p ∷ ps) r wire more ek ei (sealed, rest, split, done, later) short =
        let r' : TlsStream Key = record r {
          read_seq = r.read_seq + 1;
          decrypted_buffer = r.decrypted_buffer ++ p;
        } in
        let front : wire ++ more ≡ sealed ++ (rest ++ more) =
          ap (λ bytes. bytes ++ more) split ∙ append_assoc sealed rest more in
        ap (λ (bytes : Bytes). process_all (suc (length ps)) (record r { input_buffer = bytes }))
          front
        ∙ ap (λ (x : Outcome CryptoError Bool × TlsStream Key). process_all (length ps) x.1)
            (process-encrypt_record open_in_place seal tag_len law keys r p sealed (rest ++ more) ek
              ei done short.0)
        ∙ process_all-Sealed keys ps r' rest more ek ei later short.1
        ∙ ground (arith, append_assoc r.decrypted_buffer p (concat ps))

    -- Everything that was written is read at the other end: after any writes and flushes, up to the first
    -- error, that leave the writer's buffer empty, a reader that processes the bytes that went out
    -- has all the bytes that were taken behind what it had, in order, and keeps what follows. Both
    -- ends are at one sequence number, with matching keys and ivs, the AEAD opens what it sealed,
    -- and fewer than 65536 bytes went out.
    pub run_delivered :
        (calls : List Call) (s r : TlsStream Key) (more : Bytes)
        → s.keys.server_write_key ≡ r.keys.client_write_key
        → s.keys.server_iv ≡ r.keys.client_iv
        → s.write_seq ≡ r.read_seq
        → s.write_buffer ≡ []
        → (run seal tag_len calls s).2.write_buffer ≡ []
        → IsU16 (length (run seal tag_len calls s).1)
        → (n : ℕ) × (process_all n
              (record r { input_buffer = (run seal tag_len calls s).1 ++ more })
            ≡ record r {
              input_buffer = more;
              read_seq = r.read_seq + n;
              decrypted_buffer = r.decrypted_buffer ++ (run seal tag_len calls s).0;
            })
    run_delivered calls s r more ek ei same empty flushed small =
        let (taken, wire, t) = run seal tag_len calls s in
        let m = run_refines seal tag_len calls s in
        let all : concat m.pieces ≡ taken =
          sym (append-nil (concat m.pieces))
          ∙ ap (λ bytes. concat m.pieces ++ bytes) (sym flushed)
          ∙ m.queue
          ∙ ap (λ bytes. bytes ++ taken) empty in
        let sealed = subst (λ seq. Sealed seal tag_len s.keys seq m.pieces wire) same m.sealed in
        (
          length m.pieces,
          process_all-Sealed s.keys m.pieces r wire more ek ei sealed
                (short_of_small seal tag_len s.keys m.pieces r.read_seq wire sealed small)
              ∙ ap
                  (λ bytes. record r {
                    input_buffer = more;
                    read_seq = r.read_seq + length m.pieces;
                    decrypted_buffer = r.decrypted_buffer ++ bytes;
                  })
                  all,
        )
