-- ===== src/Reality/Handshake/Perform.antt =====
-- src/transport/reality/handshake.rs: `perform` and `fallback_to_dest`, what is written to the client and how
-- the handshake ends. Writes succeed. The X25519 secret, the server random, the hash of the transcript and
-- the primitives below them are parameters.
pub mod Verified
pub mod Answers
pub mod Tunnels
mod Tests
use xray_lite.Prelude.{ℕ, Bool, true, false, Option, none, some, List, [], ◌∷◌, ◌++◌, if◌then◌else◌}
use xray_lite.Prelude.Outcome.{Outcome, ok, err, panic, ◌>>=◌}
use xray_lite.Prelude.Bytes.{Bytes}
use xray_lite.Server.{RealityConfig}
use xray_lite.Reality.ClientHello.{ClientHello, get_key_share}
use xray_lite.Reality.ServerHello
use xray_lite.Reality.ServerHello.{ServerHello, new_reality}
use xray_lite.Reality.Auth
use xray_lite.Reality.Auth.{RealityAuth, verify_client_auth, modify_for_reality}
use xray_lite.Reality.Crypto.{
  TlsKeys, encrypt_server_record, calculate_verify_data, derive_handshake_keys,
  derive_application_keys, derive_shared_secret,
}
use xray_lite.Reality.Stream.{TlsStream, new_with_buffer}
use xray_lite.Reality.Handshake.{
  HandshakeError, no_key_share, of_tls, of_auth, of_crypto, Hello, read_client_hello, ccs_record,
  ee_msg, cert_msg, fin_msg, bundle, fallback_record, read_finished,
}

-- How a handshake that ends without an error of its own ends: with a tunnel, or with the connection relayed to
-- a destination, which is sent this record first (to the caller that is an error too).
pub data Performed (Key : Type 0) : Type 0 where
  tunnel : TlsStream Key → Performed Key
  relayed : Bytes → Bytes → Performed Key

-- What `perform` calls and cannot be read here: base64, HMAC, the hash, X25519 with the secret that was made,
-- HKDF, and the AEAD.
pub record Primitives (Key Prk : Type 0) : Type 0 where
  pub standard : Bytes → Option Bytes
  pub url_safe : Bytes → Option Bytes
  pub sign : Bytes → Bytes → Bytes
  pub hash : Bytes → Bytes
  pub my_public_key : Bytes
  pub diffie_hellman : Bytes → Bytes
  pub extract : Bytes → Bytes → Prk
  pub expand : Prk → Bytes → ℕ → Option Bytes
  pub unbound_key : Bytes → Option Key
  pub seal : Key → Bytes → Bytes → Bytes → Option Bytes
  pub tag_len : ℕ
  pub open_in_place : Key → Bytes → Bytes → Bytes → Option Bytes
  pub server_random : Bytes

-- The keys and the secret of the handshake, the verify data, and the record with the server's messages.
pub record Flight (Key Prk : Type 0) : Type 0 where
  pub hs_keys : TlsKeys Key
  pub handshake_secret : Prk
  pub verify_data : Bytes
  pub bundled_record : Bytes

module _ {Key Prk : Type 0} (p : Primitives Key Prk) (config : RealityConfig) where
  abbrev pub Result : Type 0
  Result = List Bytes × Outcome HandshakeError (Performed Key)

  share_of : Option Bytes → Outcome HandshakeError Bytes
  share_of none = err no_key_share
  share_of (some key) = ok key

  -- The tagged ServerHello and the shared secret.
  unfoldable pub server_hello_for : ClientHello → Outcome HandshakeError (ServerHello × Bytes)
  unfolding share_of
  server_hello_for client_hello = do
    found ← of_tls (get_key_share client_hello)
    client_key_share ← share_of found
    shared_secret ←
        of_crypto
          (derive_shared_secret {Secret = Unit {0}} (λ u. p.diffie_hellman) tt client_key_share)
    let plain = new_reality client_hello.session_id p.server_random p.my_public_key
    raw_data ← of_auth (
        modify_for_reality p.sign p.standard p.url_safe plain.raw_data config.private_key
          client_hello.random)
    ok (record { raw_data = raw_data }, shared_secret)

  -- What stands behind the ClientHello and the ServerHello in the transcript.
  unfoldable pub flight : Bytes → Bytes → Outcome HandshakeError (Flight Key Prk)
  flight hellos shared_secret = do
    derived ← of_crypto (
        derive_handshake_keys p.sign p.unbound_key p.extract p.expand shared_secret (p.hash hellos))
    verify_data ← of_crypto (
        calculate_verify_data p.sign derived.0.server_traffic_secret
          (p.hash (hellos ++ (ee_msg ++ cert_msg))))
    bundled_record ←
        of_crypto (encrypt_server_record p.seal p.tag_len derived.0 0 (bundle verify_data) 22)
    ok (record {
      hs_keys = derived.0;
      handshake_secret = derived.1;
      verify_data = verify_data;
      bundled_record = bundled_record;
    })

  -- The wait for the client's Finished, and the tunnel.
  unfoldable pub finish :
      Bytes → List Bytes → Flight Key Prk → Outcome HandshakeError (Performed Key)
  finish hellos chunks f = do
    buf ← read_finished p.open_in_place f.hs_keys chunks
    app_keys ← of_crypto (
        derive_application_keys p.sign p.unbound_key p.extract p.expand f.handshake_secret
          (p.hash (hellos ++ (ee_msg ++ (cert_msg ++ fin_msg f.verify_data)))))
    ok (tunnel (new_with_buffer app_keys buf))

  abbrev after_flight :
      List Bytes → Bytes → List Bytes → Outcome HandshakeError (Flight Key Prk) → Result
  after_flight sent hellos chunks (ok f) = (sent ++ f.bundled_record ∷ [], finish hellos chunks f)
  after_flight sent hellos chunks (err e) = (sent, err e)
  after_flight sent hellos chunks panic = (sent, panic)

  abbrev after_server_hello :
      Bytes → List Bytes → Outcome HandshakeError (ServerHello × Bytes) → Result
  after_server_hello raw chunks (ok (server_hello, shared_secret)) =
      after_flight (ServerHello.encode server_hello ∷ ccs_record ∷ [])
        (raw ++ server_hello.raw_data) chunks (flight (raw ++ server_hello.raw_data) shared_secret)
  after_server_hello raw chunks (err e) = ([], err e)
  after_server_hello raw chunks panic = ([], panic)

  unfoldable pub by_auth : Hello → Outcome HandshakeError RealityAuth → Result
  by_auth (client_hello, raw, chunks) (ok auth) =
      let served = after_server_hello raw chunks (server_hello_for client_hello) in
      if verify_client_auth p.sign auth client_hello.random client_hello.session_id
      then served
      else ([], ok (relayed config.dest (fallback_record raw)))
  by_auth hello (err e) = ([], err e)
  by_auth hello panic = ([], panic)

  unfoldable pub after_hello : Outcome HandshakeError Hello → Result
  after_hello (ok hello) =
      by_auth hello (of_auth (Auth.new p.standard p.url_safe config.private_key))
  after_hello (err e) = ([], err e)
  after_hello panic = ([], panic)

  -- `perform`: the writes to the client, and the end.
  unfoldable pub perform : List Bytes → Result
  perform chunks = after_hello (read_client_hello [] chunks)
