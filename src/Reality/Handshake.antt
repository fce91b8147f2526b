-- ===== src/Reality/Handshake.antt =====
-- src/transport/reality/handshake.rs: the older handshake of Reality, over tls.rs, auth.rs and crypto.rs.
-- What the client sends is the list of what the reads answer, an empty one at its end; a list that is
-- used up leaves the handshake waiting. Writes succeed.
pub mod Finished
pub mod Perform
pub mod Tests
use xray_lite.Prelude.{
  ℕ, zero, suc, ◌+◌, Bool, true, false, ◌&&◌, not, Option, none, some, List, [], ◌∷◌, ◌++◌, length,
  take, drop, get_or, ltb, ◌==◌, if◌then◌else◌,
}
use xray_lite.Prelude.Outcome.{Outcome, ok, err, panic, ◌>>=◌}
use xray_lite.Prelude.Bytes.{Bytes, be16, put_u16, put_u24, as_u16}
use xray_lite.Reality.Record
use xray_lite.Reality.Record.{
  TlsRecord, TlsError, ContentType, handshake, change_cipher_spec, alert, application_data,
}
use xray_lite.Reality.ClientHello
use xray_lite.Reality.ClientHello.{ClientHello, get_key_share}
use xray_lite.Reality.ServerHello
use xray_lite.Reality.ServerHello.{ServerHello, new_reality}
use xray_lite.Reality.Auth
use xray_lite.Reality.Auth.{RealityAuth, AuthError, verify_client_auth, modify_for_reality}
use xray_lite.Reality.Crypto.{
  TlsKeys, CryptoError, encrypt_server_record, decrypt_client_record, calculate_verify_data,
  derive_handshake_keys, derive_application_keys, derive_shared_secret,
}
use xray_lite.Reality.Stream.{TlsStream, new_with_buffer}

pub data HandshakeError : Type 0 where
  eof_hello connection_closed eof no_key_share : HandshakeError
  record_error : TlsError → HandshakeError
  auth_error : AuthError → HandshakeError
  crypto_error : CryptoError → HandshakeError
  client_alert : ℕ → ℕ → HandshakeError
  -- No errors of the program: the client has not sent enough yet, or a loop outran the model's fuel.
  waiting out_of_fuel : HandshakeError

-- `?` on the errors of the parts
abbrev pub of_tls : {A : Type 0} → Outcome TlsError A → Outcome HandshakeError A
of_tls (ok a) = ok a
of_tls (err e) = err (record_error e)
of_tls panic = panic

abbrev pub of_auth : {A : Type 0} → Outcome AuthError A → Outcome HandshakeError A
of_auth (ok a) = ok a
of_auth (err e) = err (auth_error e)
of_auth panic = panic

abbrev pub of_crypto : {A : Type 0} → Outcome CryptoError A → Outcome HandshakeError A
of_crypto (ok a) = ok a
of_crypto (err e) = err (crypto_error e)
of_crypto panic = panic

-- A ClientHello, its bytes, and what the reads after it answer.
abbrev pub Hello : Type 0
Hello = ClientHello × Bytes × List Bytes

-- What stands behind the first record in the buffer is dropped with the buffer; a first record of another
-- kind is looked at again after every read.
hello_of :
    Outcome HandshakeError Hello
    → List Bytes
    → Outcome TlsError (Option TlsRecord)
    → Outcome HandshakeError Hello
hello_of rest chunks (ok none) = rest
hello_of rest chunks (ok (some r)) = elim r.content_type [
  | handshake ↦ do hello ← of_tls (ClientHello.parse r.payload); ok (hello, r.payload, chunks)
  | change_cipher_spec ↦ rest
  | alert ↦ rest
  | application_data ↦ rest
]
hello_of rest chunks (err e) = err (record_error e)
hello_of rest chunks panic = panic

-- `read_client_hello`
unfoldable pub read_client_hello : Bytes → List Bytes → Outcome HandshakeError Hello
unfolding hello_of
read_client_hello buf [] = err waiting
read_client_hello buf ([] ∷ chunks) = err eof_hello
read_client_hello buf ((x ∷ xs) ∷ chunks) =
    hello_of (read_client_hello (buf ++ (x ∷ xs)) chunks) chunks (Record.parse (buf ++ (x ∷ xs))).0

-- `[0x14, 0x03, 0x03, 0x00, 0x01, 0x01]`
abbrev pub ccs_record : Bytes
ccs_record = 0x14 ∷ 0x03 ∷ 0x03 ∷ 0x00 ∷ 0x01 ∷ 0x01 ∷ []

-- EncryptedExtensions without extensions, and a Certificate with no certificate
abbrev pub ee_msg : Bytes
ee_msg = 8 ∷ 0 ∷ 0 ∷ 2 ∷ 0 ∷ 0 ∷ []

abbrev pub cert_msg : Bytes
cert_msg = 11 ∷ 0 ∷ 0 ∷ 4 ∷ 0 ∷ 0 ∷ 0 ∷ 0 ∷ []

unfoldable pub fin_msg : Bytes → Bytes
fin_msg verify_data = 20 ∷ (put_u24 (length verify_data) ++ verify_data)

unfoldable pub bundle : Bytes → Bytes
unfolding fin_msg
bundle verify_data = ee_msg ++ (cert_msg ++ fin_msg verify_data)

-- `fallback_to_dest`: what the destination is sent first.
unfoldable pub fallback_record : Bytes → Bytes
fallback_record client_hello =
    0x16 ∷ (put_u16 0x0303 ++ (put_u16 (as_u16 (length client_hello)) ++ client_hello))

module _ {Key : Type 0} (open_in_place : Key → Bytes → Bytes → Bytes → Option Bytes) where
  -- One record of type 23 that was opened: `ok true` is the client's Finished, whose verify data nobody
  -- looks at.
  unfoldable inner_message : ℕ × ℕ × Bytes → Outcome HandshakeError Bool
  inner_message (inner_type, plen, plain) =
      if inner_type == 21
      then err (
          client_alert (if ltb 0 plen then get_or plain 0 0 else 0)
            (if ltb 1 plen then get_or plain 1 0 else 0))
      else ok (inner_type == 22 && (ltb 0 plen && get_or plain 0 0 == 20))

  -- One whole record: whether the loop is over.
  unfoldable pub client_record : TlsKeys Key → Bytes → Bytes → Outcome HandshakeError Bool
  unfolding inner_message
  client_record hs_keys header body =
      if get_or header 0 0 == 23
      then of_crypto (decrypt_client_record open_in_place hs_keys 0 header body) >>= inner_message
      else ok false

  abbrev pub after_record :
      Outcome HandshakeError Bytes
      → Bytes
      → Outcome HandshakeError Bool
      → Outcome HandshakeError Bytes
  after_record rest buf (ok true) = ok buf
  after_record rest buf (ok false) = rest
  after_record rest buf (err e) = err e
  after_record rest buf panic = panic

  -- `read_buf`, and the next round with what it gave
  abbrev pub read_more :
      HandshakeError
      → (Bytes → List Bytes → Outcome HandshakeError Bytes)
      → Bytes
      → List Bytes
      → Outcome HandshakeError Bytes
  read_more closed rest buf [] = err waiting
  read_more closed rest buf ([] ∷ chunks) = err closed
  read_more closed rest buf ((x ∷ xs) ∷ chunks) = rest (buf ++ (x ∷ xs)) chunks

  -- The loop that waits for the client's Finished: what is left in the buffer behind it.
  unfoldable pub finished_loop : ℕ → TlsKeys Key → Bytes → List Bytes → Outcome HandshakeError Bytes
  finished_loop zero hs_keys buf chunks = err out_of_fuel
  finished_loop (suc fuel) hs_keys buf chunks =
      let rest = finished_loop fuel hs_keys in
      let rlen = be16 (get_or buf 3 0) (get_or buf 4 0) in
      let next = rest (drop (5 + rlen) buf) chunks in
      let taken =
        after_record next (drop (5 + rlen) buf)
          (client_record hs_keys (take 5 buf) (take rlen (drop 5 buf))) in
      if ltb (length buf) 5
      then read_more connection_closed rest buf chunks
      else if ltb (length buf) (5 + rlen)
      then read_more eof rest buf chunks
      else taken

  abbrev pub to_come : List Bytes → ℕ
  to_come [] = 0
  to_come (chunk ∷ chunks) = suc (length chunk + to_come chunks)

  unfoldable pub read_finished : TlsKeys Key → List Bytes → Outcome HandshakeError Bytes
  read_finished hs_keys chunks = finished_loop (suc (to_come chunks)) hs_keys [] chunks
