-- ===== src/Reality/Handshake/Perform/Verified.antt =====
-- src/transport/reality/handshake.rs: who is answered.
use xray_lite.Prelude.{
  ◌≤◌, ◌<◌, ◌≡◌, refl, true, List, [], length, take, arith, Bool-cases, inl, inr,
}
use xray_lite.Prelude.Outcome.{Outcome, ok, err, panic}
use xray_lite.Prelude.Bytes.{Bytes}
use xray_lite.Server.{RealityConfig}
use xray_lite.Reality.Auth
use xray_lite.Reality.Auth.{RealityAuth, AuthError, verify_client_auth}
use xray_lite.Reality.Auth.Tags.{verify_client_auth_iff}
use xray_lite.Reality.Handshake.{HandshakeError, of_auth, Hello, read_client_hello}
use xray_lite.Reality.Handshake.Perform.{Primitives, perform, after_hello, by_auth}

module _ {Key Prk : Type 0} (p : Primitives Key Prk) (config : RealityConfig) where
  -- What a client that is answered has sent: a ClientHello whose session id starts with the first eight bytes of
  -- the HMAC of its random under the key of the configuration.
  pub record FromKeyHolder (chunks : List Bytes) : Type 0 where
    pub hello : Hello
    pub auth : RealityAuth
    pub was_read : read_client_hello [] chunks ≡ ok hello
    pub keyed : Auth.new p.standard p.url_safe config.private_key ≡ ok auth
    pub long : 8 ≤ length hello.0.session_id
    pub tagged : take 8 hello.0.session_id ≡ take 8 (p.sign auth.private_key_bytes hello.0.random)

  of_auth-eq-ok :
      (o : Outcome AuthError RealityAuth) (auth : RealityAuth) → of_auth o ≡ ok auth → o ≡ ok auth
  of_auth-eq-ok (ok a) auth e = ground arith
  of_auth-eq-ok (err x) auth e = absurd (ground arith)
  of_auth-eq-ok panic auth e = absurd (ground arith)

  by_auth_verified :
      (hello : Hello) (o : Outcome HandshakeError RealityAuth)
      → 0 < length (by_auth p config hello o).0
      → (auth : RealityAuth) × (o ≡ ok auth)
        × (verify_client_auth p.sign auth hello.0.random hello.0.session_id ≡ true)
  unfolding by_auth
  by_auth_verified hello (ok auth) h =
      elim (Bool-cases (verify_client_auth p.sign auth hello.0.random hello.0.session_id)) [
        | inl verified ↦ (auth, refl, verified)
        | inr other ↦ absurd (ground (arith, other, h))
      ]
  by_auth_verified hello (err e) h = absurd (omega arith)
  by_auth_verified hello panic h = absurd (omega arith)

  after_hello_verified :
      (chunks : List Bytes) (o : Outcome HandshakeError Hello)
      → read_client_hello [] chunks ≡ o
      → 0 < length (after_hello p config o).0
      → FromKeyHolder chunks
  unfolding after_hello
  after_hello_verified chunks (ok hello) e h =
      let (auth, made, verified) = by_auth_verified hello _ h in
      let (long, tagged) =
        (verify_client_auth_iff p.sign auth hello.0.random hello.0.session_id).0 verified in
      record {
        hello = hello;
        auth = auth;
        was_read = e;
        keyed = of_auth-eq-ok _ auth made;
        long = long;
        tagged = tagged;
      }
  after_hello_verified chunks (err x) e h = absurd (omega arith)
  after_hello_verified chunks panic e h = absurd (omega arith)

  -- A client to whom the handshake writes as much as a byte has sent a ClientHello whose session id starts with
  -- the first eight bytes of the HMAC of its random, under the key that the configuration holds in base64.
  pub perform_authenticates :
      (chunks : List Bytes) → 0 < length (perform p config chunks).0 → FromKeyHolder chunks
  unfolding perform
  perform_authenticates chunks h = after_hello_verified chunks (read_client_hello [] chunks) refl h
