-- ===== src/Reality/Handshake/Finished.antt =====
-- src/transport/reality/handshake.rs: the wait for the client's Finished.
use xray_lite.Prelude.{
  ℕ, zero, suc, ◌+◌, ◌<◌, ◌≡◌, ◌≢◌, ◌∙◌, refl, ap, Bool, true, false, Option, some, List, [], ◌∷◌,
  ◌++◌, length, take, drop, get_or, ltb, arith, Bool-cases, inl, inr, take-append, drop-append,
  length-append, length-drop,
}
use xray_lite.Prelude.Outcome.{Outcome, ok, err, panic, ◌>>=◌}
use xray_lite.Prelude.Bytes.{Bytes, IsU16, be16}
use xray_lite.Reality.Crypto.{
  TlsKeys, CryptoError, encrypt_server_record, decrypt_client_record, record_header,
}
use xray_lite.Reality.Crypto.Protection.{decrypt-encrypt_record}
use xray_lite.Reality.Handshake.{
  HandshakeError, connection_closed, eof, out_of_fuel, client_record, inner_message, after_record,
  finished_loop, read_finished, ccs_record, to_come, of_crypto, read_more,
}

module _ {Key : Type 0} (open_in_place : Key → Bytes → Bytes → Bytes → Option Bytes) where
  inner_message_ends : (m : ℕ × ℕ × Bytes) → inner_message open_in_place m ≢ err out_of_fuel
  unfolding inner_message
  inner_message_ends (t, n, plain) = ground arith

  opened_ends :
      (o : Outcome CryptoError (ℕ × ℕ × Bytes))
      → (of_crypto o >>= inner_message open_in_place) ≢ err out_of_fuel
  opened_ends (ok m) = inner_message_ends m
  opened_ends (err e) = λ p. cc
  opened_ends panic = λ p. cc

  client_record_ends :
      (keys : TlsKeys Key) (header body : Bytes)
      → client_record open_in_place keys header body ≢ err out_of_fuel
  unfolding client_record
  client_record_ends keys header body =
      ground (arith, opened_ends (decrypt_client_record open_in_place keys 0 header body))

  after_record_ends :
      (rest : Outcome HandshakeError Bytes) (buf : Bytes) (o : Outcome HandshakeError Bool)
      → rest ≢ err out_of_fuel
      → o ≢ err out_of_fuel
      → after_record open_in_place rest buf o ≢ err out_of_fuel
  after_record_ends rest buf (ok true) h l = λ p. cc
  after_record_ends rest buf (ok false) h l = h
  after_record_ends rest buf (err e) h l = λ p. l (ground (arith, p))
  after_record_ends rest buf panic h l = λ p. cc

  read_more_ends :
      (closed : HandshakeError) (rest : Bytes → List Bytes → Outcome HandshakeError Bytes)
      (buf : Bytes) (chunks : List Bytes) (k : ℕ)
      → closed ≢ out_of_fuel
      → length buf + to_come open_in_place chunks < suc k
      → ((b : Bytes) (later : List Bytes)
          → length b + to_come open_in_place later < k
          → rest b later ≢ err out_of_fuel)
      → read_more open_in_place closed rest buf chunks ≢ err out_of_fuel
  read_more_ends closed rest buf [] k ne l ih = λ p. cc
  read_more_ends closed rest buf ([] ∷ chunks) k ne l ih = λ p. ne (ground (arith, p))
  read_more_ends closed rest buf ((x ∷ xs) ∷ chunks) k ne l ih =
      ih (buf ++ (x ∷ xs)) chunks (omega (arith, l, length-append {0} buf (x ∷ xs)))

  finished_loop_ends :
      (fuel : ℕ) (keys : TlsKeys Key) (buf : Bytes) (chunks : List Bytes)
      → length buf + to_come open_in_place chunks < fuel
      → finished_loop open_in_place fuel keys buf chunks ≢ err out_of_fuel
  unfolding finished_loop
  finished_loop_ends zero keys buf chunks h = absurd (omega arith)
  finished_loop_ends (suc fuel) keys buf chunks h =
      let rlen = be16 (get_or buf 3 0) (get_or buf 4 0) in
      let rest = finished_loop open_in_place fuel keys in
      elim (Bool-cases (ltb (length buf) 5)) [
        | inl short ↦ rw short (
            read_more_ends connection_closed rest buf chunks fuel (λ p. cc) h
              (finished_loop_ends fuel keys))
        | inr header ↦ elim (Bool-cases (ltb (length buf) (5 + rlen))) [
          | inl cut ↦
              rw (header, cut)
                (read_more_ends eof rest buf chunks fuel (λ p. cc) h (finished_loop_ends fuel keys))
          | inr whole ↦
              rw (header, whole)
                (after_record_ends (rest (drop (5 + rlen) buf) chunks) (drop (5 + rlen) buf)
                  (client_record open_in_place keys (take 5 buf) (take rlen (drop 5 buf)))
                  (finished_loop_ends fuel keys (drop (5 + rlen) buf) chunks
                    (ground (arith, h, header, length-drop {0} (5 + rlen) buf)))
                  (client_record_ends keys (take 5 buf) (take rlen (drop 5 buf))))
        ]
      ]

  -- The wait for the client's Finished ends, whatever the client sends: with what is left behind it, an
  -- error, a panic, or a wait for more.
  pub read_finished_ends :
      (keys : TlsKeys Key) (chunks : List Bytes)
      → read_finished open_in_place keys chunks ≢ err out_of_fuel
  unfolding read_finished
  read_finished_ends keys chunks =
      finished_loop_ends (suc (to_come open_in_place chunks)) keys [] chunks (omega arith)

  loop_ccs :
      (fuel : ℕ) (keys : TlsKeys Key) (more : Bytes) (chunks : List Bytes)
      → finished_loop open_in_place (suc fuel) keys (ccs_record ++ more) chunks
        ≡ finished_loop open_in_place fuel keys more chunks
  unfolding finished_loop client_record
  loop_ccs fuel keys more chunks = ground arith

  loop_sealed :
      (fuel : ℕ) (keys : TlsKeys Key) (sealed more body : Bytes) (chunks : List Bytes)
      → IsU16 (length sealed)
      → decrypt_client_record open_in_place keys 0 (record_header (length sealed)) sealed
        ≡ ok (22, suc (length body), (20 ∷ body) ++ 22 ∷ [])
      → finished_loop open_in_place
          (suc fuel)
          keys
          (record_header (length sealed) ++ (sealed ++ more))
          chunks
        ≡ ok more
  unfolding finished_loop client_record inner_message
  loop_sealed fuel keys sealed more body chunks short d =
      ground
        (arith, d, take-append sealed more, drop-append sealed more, length-append {0} sealed more)

  loop_wire :
      (fuel : ℕ) (keys : TlsKeys Key) (sealed wire more body : Bytes) (chunks : List Bytes)
      → wire ≡ record_header (length sealed) ++ sealed
      → IsU16 (length wire)
      → decrypt_client_record open_in_place keys 0 (record_header (length sealed)) sealed
        ≡ ok (22, suc (length body), (20 ∷ body) ++ 22 ∷ [])
      → finished_loop open_in_place (suc fuel) keys (wire ++ more) chunks ≡ ok more
  loop_wire fuel keys sealed wire more body chunks layout short d =
      rw layout (loop_sealed fuel keys sealed more body chunks (ground (arith, layout, short)) d)

  loop_read :
      (fuel x : ℕ) (keys : TlsKeys Key) (xs : Bytes) (chunks : List Bytes)
      → finished_loop open_in_place (suc fuel) keys [] ((x ∷ xs) ∷ chunks)
        ≡ finished_loop open_in_place fuel keys (x ∷ xs) chunks
  unfolding finished_loop
  loop_read fuel x keys xs chunks = refl

  -- A client that sends a change of cipher spec and then its Finished, in one piece, is let through, and
  -- what it sent behind them is left. Any body of the Finished will do: its verify data is not compared
  -- with anything. The keys and ivs of the two sides agree, the record fits its length field, and the
  -- AEAD opens what it sealed.
  pub read_finished-encrypt_record :
      (seal : Key → Bytes → Bytes → Bytes → Option Bytes) (tag_len : ℕ)
      → ((key : Key) (n aad plain sealed : Bytes)
          → seal key n aad plain ≡ some sealed
          → (open_in_place key n aad sealed ≡ some plain)
            × (length sealed ≡ length plain + tag_len))
      → (client keys : TlsKeys Key) (body wire more : Bytes) (chunks : List Bytes)
      → client.server_write_key ≡ keys.client_write_key
      → client.server_iv ≡ keys.client_iv
      → encrypt_server_record seal tag_len client 0 (20 ∷ body) 22 ≡ ok wire
      → IsU16 (length wire)
      → read_finished open_in_place keys ((ccs_record ++ (wire ++ more)) ∷ chunks) ≡ ok more
  unfolding read_finished
  read_finished-encrypt_record seal tag_len law client keys body wire more chunks ek ei e short =
      let (sealed, layout, opens) =
        decrypt-encrypt_record seal open_in_place tag_len law client keys 0 (20 ∷ body) 22 wire ek
          ei (λ p. omega (arith, p)) e in
      let k = 5 + (length (wire ++ more) + to_come open_in_place chunks) in
      let ccs = 3 ∷ 3 ∷ 0 ∷ 1 ∷ 1 ∷ (wire ++ more) in
      ap (λ fuel. finished_loop open_in_place fuel keys [] ((20 ∷ ccs) ∷ chunks)) (omega arith)
      ∙ loop_read (suc (suc k)) 20 keys ccs chunks
      ∙ loop_ccs (suc k) keys (wire ++ more) chunks
      ∙ loop_wire k keys sealed wire more body chunks layout short opens
