-- ===== src/Reality/Handshake/Perform/Answers.antt =====
-- src/transport/reality/handshake.rs: what the holder of a key is answered.
use xray_lite.Prelude.{ℕ, ◌+◌, ◌≡◌, subst, true, some, List, [], ◌∷◌, ◌++◌, length, arith}
use xray_lite.Prelude.Outcome.{ok, IsOk}
use xray_lite.Prelude.Bytes.{Bytes}
use xray_lite.Server.{RealityConfig}
use xray_lite.Reality.ClientHello.{ClientHello, get_key_share}
use xray_lite.Reality.ServerHello
use xray_lite.Reality.ServerHello.{ServerHello, new_reality}
use xray_lite.Reality.ServerHello.Shape.{modify-new_reality}
use xray_lite.Reality.Auth
use xray_lite.Reality.Auth.{
  RealityAuth, verify_client_auth, inject_auth_into_random, modify_for_reality,
}
use xray_lite.Reality.Crypto.{
  TlsKeys, record_header, nonce, encrypt_server_record, derive_shared_secret, derive_handshake_keys,
  calculate_verify_data,
}
use xray_lite.Reality.Crypto.Schedule.{derive_handshake_keys-IsOk, calculate_verify_data_lem}
use xray_lite.Reality.Handshake.{read_client_hello, ccs_record, bundle, ee_msg, cert_msg, fin_msg}
use xray_lite.Reality.Handshake.Perform.{
  Primitives, Flight, perform, after_hello, by_auth, server_hello_for, flight,
}

-- What the handshake relies on: an HMAC of 32 bytes, a random of 32, keys of every 16 bytes, an HKDF that
-- expands to 32 bytes, and an AEAD that seals.
pub record IsWorking {Key Prk : Type 0} (p : Primitives Key Prk) : Type 0 where
  pub signs : (key message : Bytes) → length (p.sign key message) ≡ 32
  pub random : length p.server_random ≡ 32
  pub keys : (bytes : Bytes) → length bytes ≡ 16 → (key : Key) × (p.unbound_key bytes ≡ some key)
  pub expands : (prk : Prk) (info : Bytes) → (out : Bytes) × (p.expand prk info 32 ≡ some out)
  pub seals :
      (key : Key) (n aad plain : Bytes) → (sealed : Bytes) × (p.seal key n aad plain ≡ some sealed)

module _ {Key Prk : Type 0} (p : Primitives Key Prk) where
  encrypt-IsOk :
      (w : IsWorking p) (keys : TlsKeys Key) (plaintext : Bytes) (content_type : ℕ)
      → IsOk (encrypt_server_record p.seal p.tag_len keys 0 plaintext content_type)
  unfolding encrypt_server_record
  encrypt-IsOk w keys plaintext content_type =
      let buffer = plaintext ++ content_type ∷ [] in
      let header = record_header (length buffer + p.tag_len) in
      let (sealed, done) = w.seals keys.server_write_key (nonce keys.server_iv 0) header buffer in
      (header ++ sealed, ground (arith, done))

  -- EncryptedExtensions and Certificate, both empty, and a Finished with these verify data
  abbrev pub server_messages : Bytes → Bytes
  server_messages verify_data =
      8 ∷ 0 ∷ 0 ∷ 2 ∷ 0 ∷ 0 ∷ 11 ∷ 0 ∷ 0 ∷ 4 ∷ 0 ∷ 0 ∷ 0 ∷ 0 ∷ 20 ∷ 0 ∷ 0 ∷ 32 ∷ verify_data

  bundle_messages :
      (verify_data : Bytes)
      → length verify_data ≡ 32
      → bundle verify_data ≡ server_messages verify_data
  unfolding bundle fin_msg
  bundle_messages verify_data h = ground (arith, h)

  -- The server's part of a handshake over these hellos: keys of the shared secret and the hash of the
  -- hellos, the verify data of a Finished behind two empty messages, and all three messages
  -- sealed under the keys as handshake data.
  pub record Seals (hellos shared_secret : Bytes) (f : Flight Key Prk) : Type 0 where
    pub keyed :
        derive_handshake_keys p.sign p.unbound_key p.extract p.expand shared_secret (p.hash hellos)
        ≡ ok (f.hs_keys, f.handshake_secret)
    pub verified :
        calculate_verify_data p.sign f.hs_keys.server_traffic_secret
          (p.hash (hellos ++ 8 ∷ 0 ∷ 0 ∷ 2 ∷ 0 ∷ 0 ∷ 11 ∷ 0 ∷ 0 ∷ 4 ∷ 0 ∷ 0 ∷ 0 ∷ 0 ∷ []))
        ≡ ok f.verify_data
    pub sealed :
        encrypt_server_record p.seal p.tag_len f.hs_keys 0 (server_messages f.verify_data) 22
        ≡ ok f.bundled_record

  module _ (config : RealityConfig) where
    flight-Seals :
        (w : IsWorking p) (hellos shared_secret : Bytes)
        → (f : Flight Key Prk) × (flight p config hellos shared_secret ≡ ok f)
          × Seals hellos shared_secret f
    unfolding flight
    flight-Seals w hellos shared_secret =
        let (derived, keyed) =
          derive_handshake_keys-IsOk p.sign w.signs p.unbound_key w.keys p.extract p.expand
            w.expands shared_secret (p.hash hellos) in
        let (verify_data, verified, len) =
          calculate_verify_data_lem p.sign w.signs derived.0.server_traffic_secret
            (p.hash (hellos ++ (ee_msg ++ cert_msg))) in
        let (bundled_record, sealed) = encrypt-IsOk w derived.0 (bundle verify_data) 22 in
        let f : Flight Key Prk = record {
          hs_keys = derived.0;
          handshake_secret = derived.1;
          verify_data = verify_data;
          bundled_record = bundled_record;
        } in
        (
          f,
          ground (arith, keyed, verified, sealed),
          record {
            keyed = keyed;
            verified = verified;
            sealed =
                subst
                  (λ (messages : Bytes).
                    encrypt_server_record p.seal p.tag_len derived.0 0 messages 22
                    ≡ ok bundled_record)
                  (bundle_messages verify_data len) sealed;
          },
        )

    -- The ServerHello that a client with a key share of 32 bytes gets: the one with the tagged random.
    abbrev pub tagged_hello : RealityAuth → ClientHello → ServerHello
    tagged_hello auth hello =
        new_reality hello.session_id
          (inject_auth_into_random p.sign auth p.server_random hello.random) p.my_public_key

    pub server_hello_for-tagged :
        (w : IsWorking p) (hello : ClientHello) (auth : RealityAuth) (share : Bytes)
        → Auth.new p.standard p.url_safe config.private_key ≡ ok auth
        → get_key_share hello ≡ ok (some share)
        → length share ≡ 32
        → server_hello_for p config hello ≡ ok (tagged_hello auth hello, p.diffie_hellman share)
    unfolding server_hello_for modify_for_reality derive_shared_secret
    server_hello_for-tagged w hello auth share keyed shared len = ground (
      arith,
      keyed,
      shared,
      len,
      modify-new_reality p.sign auth hello.session_id p.server_random p.my_public_key hello.random
          w.signs w.random,
    )

    -- A client whose ClientHello was read, carries the tag of the configuration's key and a key share of
    -- 32 bytes is answered, whatever it sends then: with the ServerHello that has the tag in its
    -- random, a change of cipher spec, and a record in which empty EncryptedExtensions, an empty
    -- Certificate and a Finished are sealed under keys derived from the shared secret and both
    -- hellos. The verify data of the Finished are those of the transcript. The primitives work.
    pub perform_answers :
        (w : IsWorking p) (chunks later : List Bytes) (hello : ClientHello) (raw share : Bytes)
        (auth : RealityAuth)
        → read_client_hello [] chunks ≡ ok (hello, raw, later)
        → Auth.new p.standard p.url_safe config.private_key ≡ ok auth
        → verify_client_auth p.sign auth hello.random hello.session_id ≡ true
        → get_key_share hello ≡ ok (some share)
        → length share ≡ 32
        → (f : Flight Key Prk) × ((perform p config chunks).0
            ≡ ServerHello.encode (tagged_hello auth hello) ∷ ccs_record ∷ f.bundled_record ∷ [])
          × Seals (raw ++ (tagged_hello auth hello).raw_data) (p.diffie_hellman share) f
    unfolding perform after_hello by_auth
    perform_answers w chunks later hello raw share auth was_read keyed verified shared len =
        let (f, made, seals) =
          flight-Seals w (raw ++ (tagged_hello auth hello).raw_data) (p.diffie_hellman share) in
        (
          f,
          ground (
            arith,
            was_read,
            keyed,
            verified,
            server_hello_for-tagged w hello auth share keyed shared len,
            made,
          ),
          seals,
        )
