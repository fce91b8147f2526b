-- ===== src/Reality/Handshake/Perform/Tunnels.antt =====
-- src/transport/reality/handshake.rs: a handshake that ends in a tunnel.
use xray_lite.Prelude.{◌+◌, ◌≡◌, true, some, List, [], ◌∷◌, ◌++◌, length, arith}
use xray_lite.Prelude.Outcome.{ok}
use xray_lite.Prelude.Bytes.{Bytes, IsU16}
use xray_lite.Server.{RealityConfig}
use xray_lite.Reality.ClientHello.{ClientHello, get_key_share}
use xray_lite.Reality.Auth
use xray_lite.Reality.Auth.{RealityAuth, verify_client_auth}
use xray_lite.Reality.Crypto.{TlsKeys, encrypt_server_record}
use xray_lite.Reality.Crypto.Schedule.{derive_application_keys-IsOk}
use xray_lite.Reality.Stream.{new_with_buffer}
use xray_lite.Reality.Handshake.{
  read_client_hello, read_finished, ccs_record, ee_msg, cert_msg, fin_msg,
}
use xray_lite.Reality.Handshake.Finished.{read_finished-encrypt_record}
use xray_lite.Reality.Handshake.Perform.{
  Primitives, Flight, perform, after_hello, by_auth, flight, finish, tunnel,
}
use xray_lite.Reality.Handshake.Perform.Answers.{IsWorking, tagged_hello, server_hello_for-tagged}

module _ {Key Prk : Type 0} (p : Primitives Key Prk) (config : RealityConfig) where
  finish_tunnels :
      (w : IsWorking p) (hellos more : Bytes) (chunks : List Bytes) (f : Flight Key Prk)
      → read_finished p.open_in_place f.hs_keys chunks ≡ ok more
      → (app_keys : TlsKeys Key) × (finish p config hellos chunks f
          ≡ ok (tunnel (new_with_buffer app_keys more)))
  unfolding finish
  finish_tunnels w hellos more chunks f finished =
      let (app_keys, made) =
        derive_application_keys-IsOk p.sign w.signs p.unbound_key w.keys p.extract p.expand
          w.expands f.handshake_secret
          (p.hash (hellos ++ (ee_msg ++ (cert_msg ++ fin_msg f.verify_data)))) in
      (app_keys, ground (arith, finished, made))

  -- A client that was answered, and sends a change of cipher spec, its Finished under the same handshake
  -- keys and what follows them in one piece, gets a tunnel, and the bytes behind the Finished are the
  -- first that the tunnel reads. His ClientHello carries the tag of the configuration's key and a
  -- key share of 32 bytes, the record of his Finished fits its length field, and the primitives work.
  pub perform_tunnels :
      (w : IsWorking p)
      → ((key : Key) (n aad plain sealed : Bytes)
          → p.seal key n aad plain ≡ some sealed
          → (p.open_in_place key n aad sealed ≡ some plain)
            × (length sealed ≡ length plain + p.tag_len))
      → (chunks later : List Bytes) (hello : ClientHello) (raw share body wire more : Bytes)
        (auth : RealityAuth) (f : Flight Key Prk) (client : TlsKeys Key)
      → read_client_hello [] chunks ≡ ok (hello, raw, (ccs_record ++ (wire ++ more)) ∷ later)
      → Auth.new p.standard p.url_safe config.private_key ≡ ok auth
      → verify_client_auth p.sign auth hello.random hello.session_id ≡ true
      → get_key_share hello ≡ ok (some share)
      → length share ≡ 32
      → flight p config
          (raw ++ (tagged_hello p config auth hello).raw_data)
          (p.diffie_hellman share)
        ≡ ok f
      → client.server_write_key ≡ f.hs_keys.client_write_key
      → client.server_iv ≡ f.hs_keys.client_iv
      → encrypt_server_record p.seal p.tag_len client 0 (20 ∷ body) 22 ≡ ok wire
      → IsU16 (length wire)
      → (app_keys : TlsKeys Key) × ((perform p config chunks).1
          ≡ ok (tunnel (new_with_buffer app_keys more)))
  unfolding perform after_hello by_auth
  perform_tunnels w law chunks later hello raw share body wire more auth f client was_read keyed
        verified shared len made same_key same_iv sealed short =
      let hellos = raw ++ (tagged_hello p config auth hello).raw_data in
      let rest = (ccs_record ++ (wire ++ more)) ∷ later in
      let (app_keys, done) = finish_tunnels w hellos more rest f (
        read_finished-encrypt_record p.open_in_place p.seal p.tag_len law client f.hs_keys body wire
          more later same_key same_iv sealed short) in
      (
        app_keys,
        ground (
          arith,
          was_read,
          keyed,
          verified,
          server_hello_for-tagged p config w hello auth share keyed shared len,
          made,
          done,
        ),
      )
