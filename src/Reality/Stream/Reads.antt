-- ===== src/Reality/Stream/Reads.antt =====
-- src/transport/reality/stream.rs: reading.
use xray_lite.Prelude.{
  ℕ, zero, suc, ◌+◌, ◌≤◌, ◌<◌, ◌≡◌, ◌≢◌, ◌⊎◌, refl, Bool, true, false, Option, some, List, [], ◌∷◌,
  ◌++◌, length, take, drop, get_or, ltb, arith, Bool-cases, inl, inr, take-append, drop-append,
  length-append, length-drop,
}
use xray_lite.Prelude.Outcome.{Outcome, ok, err, panic}
use xray_lite.Prelude.Bytes.{Bytes, IsU16, be16}
use xray_lite.Reality.Crypto.{
  CryptoError, TlsKeys, decrypt_client_record, encrypt_server_record, record_header,
}
use xray_lite.Reality.Crypto.Protection.{decrypt-encrypt_record}
use xray_lite.Reality.Stream.{
  TlsStream, Poll, Source, got, source_failed, out_of_fuel, process_record, opened, poll_read,
  read_loop, after_record, end_of_stream, bytes_to_come,
}

module _ {Key : Type 0} (open_in_place : Key → Bytes → Bytes → Bytes → Option Bytes) where
  -- A whole record at the front of the input.
  process_front :
      (s : TlsStream Key) (sealed more plaintext plain : Bytes)
      → IsU16 (length sealed)
      → decrypt_client_record open_in_place s.keys s.read_seq (record_header (length sealed)) sealed
        ≡ ok (23, length plaintext, plaintext ++ plain)
      → process_record open_in_place
          (record s { input_buffer = record_header (length sealed) ++ (sealed ++ more) })
        ≡ (
          ok true,
          record s {
            input_buffer = more;
            read_seq = s.read_seq + 1;
            decrypted_buffer = s.decrypted_buffer ++ plaintext;
          },
        )
  unfolding process_record opened
  process_front s sealed more plaintext plain short d = ground (
    arith,
    d,
    take-append sealed more,
    drop-append sealed more,
    length-append {0} sealed more,
    take-append plaintext plain,
  )

  opened_shrinks :
      (s t : TlsStream Key) (b : Bool) (len : ℕ) (o : Outcome CryptoError (ℕ × ℕ × Bytes))
      → 5 ≤ length s.input_buffer
      → opened open_in_place (record s { input_buffer = drop (5 + len) s.input_buffer }) o
        ≡ (ok b, t)
      → ((b ≡ true) × (suc (length t.input_buffer) ≤ length s.input_buffer))
        ⊎ ((b ≡ false) × (t ≡ s))
  unfolding opened
  opened_shrinks s t b len (ok (c, k, plain)) h e =
      inl (ground arith, ground (arith, length-drop {0} (5 + len) s.input_buffer))
  opened_shrinks s t b len (err x) h e = absurd (ground arith)
  opened_shrinks s t b len panic h e = absurd (ground arith)

  -- The shape of a step: either the input is the same and more is needed, or it got shorter.
  process_shrinks :
      (s t : TlsStream Key) (b : Bool)
      → process_record open_in_place s ≡ (ok b, t)
      → ((b ≡ true) × (suc (length t.input_buffer) ≤ length s.input_buffer))
        ⊎ ((b ≡ false) × (t ≡ s))
  unfolding process_record opened
  process_shrinks s t b e = elim (Bool-cases (ltb (length s.input_buffer) 5)) [
    | inl short ↦ inr (ground (arith, short), ground (arith, short))
    | inr header ↦
        elim (Bool-cases (
          ltb (length s.input_buffer)
            (5 + be16 (get_or s.input_buffer 3 0) (get_or s.input_buffer 4 0)))) [
              | inl cut ↦ inr (ground (arith, header, cut), ground (arith, header, cut))
              | inr whole ↦
                  opened_shrinks s t b
                    (be16 (get_or s.input_buffer 3 0) (get_or s.input_buffer 4 0))
                    (decrypt_client_record open_in_place s.keys s.read_seq (take 5 s.input_buffer) (
                      take (be16 (get_or s.input_buffer 3 0) (get_or s.input_buffer 4 0))
                        (drop 5 s.input_buffer)))
                    (ground (arith, header)) (ground (arith, header, whole))
            ]
  ]

  end_of_stream_ends : (s : TlsStream Key) → (end_of_stream open_in_place s).0 ≢ out_of_fuel
  unfolding end_of_stream
  end_of_stream_ends s = ground arith

  -- One round: the loop goes on only with less to read than before.
  after_record_ends :
      (remaining k : ℕ) (rest : TlsStream Key → List Source → Poll Bytes × TlsStream Key)
      (s t : TlsStream Key) (answers : List Source) (o : Outcome CryptoError Bool)
      → ((b : Bool)
          → o ≡ ok b
          → ((b ≡ true) × (suc (length t.input_buffer) ≤ length s.input_buffer))
            ⊎ ((b ≡ false) × (t ≡ s)))
      → length s.input_buffer + bytes_to_come open_in_place answers < suc k
      → ((u : TlsStream Key) (later : List Source)
          → length u.input_buffer + bytes_to_come open_in_place later < k
          → (rest u later).0 ≢ out_of_fuel)
      → (after_record open_in_place remaining rest answers (o, t)).0 ≢ out_of_fuel
  unfolding after_record
  after_record_ends n k rest s t answers (ok true) h l ih = elim (h true refl) [
    | inl (yes', less) ↦ ground (arith, less, ih t answers)
    | inr (other, same) ↦ absurd (ground arith)
  ]
  after_record_ends n k rest s t [] (ok false) h l ih = λ p. cc
  after_record_ends n k rest s t (got [] ∷ answers) (ok false) h l ih = end_of_stream_ends t
  after_record_ends n k rest s t (got (x ∷ xs) ∷ answers) (ok false) h l ih = elim (h false refl) [
    | inl (other, less) ↦ absurd (ground arith)
    | inr (yes', same) ↦
        ih _ answers (ground (arith, same, length-append {0} t.input_buffer (x ∷ xs)))
  ]
  after_record_ends n k rest s t (source_failed ∷ answers) (ok false) h l ih = λ p. cc
  after_record_ends n k rest s t answers (err e) h l ih = λ p. cc
  after_record_ends n k rest s t answers panic h l ih = λ p. cc

  read_loop_ends :
      (fuel remaining : ℕ) (s : TlsStream Key) (answers : List Source)
      → length s.input_buffer + bytes_to_come open_in_place answers < fuel
      → (read_loop open_in_place fuel remaining s answers).0 ≢ out_of_fuel
  unfolding read_loop
  read_loop_ends zero n s answers h = absurd (omega arith)
  read_loop_ends (suc fuel) n s answers h =
      after_record_ends n fuel (read_loop open_in_place fuel n) s (process_record open_in_place s).1
        answers (process_record open_in_place s).0
        (λ b e. process_shrinks s _ b (ground (arith, e))) h (read_loop_ends fuel n)

  -- Whatever the transport answers, a read ends: with bytes, an error, or `Pending`.
  pub poll_read_ends :
      (remaining : ℕ) (s : TlsStream Key) (answers : List Source)
      → (poll_read open_in_place remaining s answers).0 ≢ out_of_fuel
  unfolding poll_read
  poll_read_ends n s answers = elim (Bool-cases (ltb 0 (length s.decrypted_buffer))) [
    | inl filled ↦ rw filled (λ p. cc)
    | inr empty ↦ rw empty (
        read_loop_ends (suc (length s.input_buffer + bytes_to_come open_in_place answers)) n s
          answers (omega arith))
  ]

  -- A record that the peer's `encrypt_server_record` made of some plaintext as application data (type
  -- 23), of fewer than 65536 bytes and at the front of the input, adds that plaintext to what can be
  -- read, counts the sequence number up, and leaves what stands behind it. The keys and ivs of
  -- the two sides agree, and the AEAD opens what it sealed.
  pub process-encrypt_record :
      (seal : Key → Bytes → Bytes → Bytes → Option Bytes) (tag_len : ℕ)
      → ((key : Key) (n aad plain sealed : Bytes)
          → seal key n aad plain ≡ some sealed
          → (open_in_place key n aad sealed ≡ some plain)
            × (length sealed ≡ length plain + tag_len))
      → (sender : TlsKeys Key) (s : TlsStream Key) (plaintext wire more : Bytes)
      → sender.server_write_key ≡ s.keys.client_write_key
      → sender.server_iv ≡ s.keys.client_iv
      → encrypt_server_record seal tag_len sender s.read_seq plaintext 23 ≡ ok wire
      → IsU16 (length wire)
      → process_record open_in_place (record s { input_buffer = wire ++ more }) ≡ (
        ok true,
        record s {
          input_buffer = more;
          read_seq = s.read_seq + 1;
          decrypted_buffer = s.decrypted_buffer ++ plaintext;
        },
      )
  process-encrypt_record seal tag_len law sender s plaintext wire more ek ei e short =
      let (sealed, layout, opens) =
        decrypt-encrypt_record seal open_in_place tag_len law sender s.keys s.read_seq plaintext 23
          wire ek ei (λ p. omega (arith, p)) e in
      rw layout
        (process_front s sealed more plaintext (23 ∷ []) (ground (arith, layout, short)) opens)
