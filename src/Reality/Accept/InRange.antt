-- ===== src/Reality/Accept/InRange.antt =====
-- src/transport/reality/server_rustls.rs: the check of a client with a key of 32 bytes.
use xray_lite.Prelude.{
  ℕ, not, ltb, ◌≤◌, ◌≡◌, ◌≢◌, refl, Bool, true, false, Option, none, some, List, [], ◌∷◌, length,
  ◌==◌, arith, Bool-cases, inl, inr,
}
use xray_lite.Prelude.Outcome.{Outcome, ok, err, panic, >>=-ne-panic, guard, ◌>>=◌, ◌>>◌}
use xray_lite.Prelude.Bytes.{Bytes, slice}
use xray_lite.Reality.HelloParser.{ClientHelloInfo, HelloError, parse_client_hello}
use xray_lite.Reality.HelloParser.Safety.{parse_client_hello-ne-panic}
use xray_lite.Reality.HelloParser.Shape.{parse_client_hello-shape}
use xray_lite.Reality.Accept.{
  RealityServerRustls, Refusal, crash, decide, by_hello, by_check, match_short_id, verify_key,
  verify_client_reality, handshake_of, or_refuse, exact, hkdf_info, aad_of, hkdf_failed, bad_tag,
  bad_hello_shape, bad_public_key, short_plaintext,
}

match_short_id-ne-panic :
    (ids : List Bytes) (buf : Bytes) → 16 ≤ length buf → match_short_id ids buf ≢ panic
unfolding match_short_id
match_short_id-ne-panic [] buf long = λ p. cc
match_short_id-ne-panic (i ∷ ids) buf long =
    ground (arith, long, match_short_id-ne-panic ids buf long)

or_refuse-bind :
    {A B : Type 0} (x : Refusal) (o : Option A) (f : A → Outcome Refusal B)
    → ((a : A) → f a ≢ panic)
    → or_refuse x o >>= f ≢ panic
or_refuse-bind x none f h = λ p. cc
or_refuse-bind x (some a) f h = h a

guard-bind :
    {B : Type 0} (b : Bool) (x : Refusal) (m : Outcome Refusal B)
    → m ≢ panic
    → guard b x >> m ≢ panic
guard-bind true x m h = h
guard-bind false x m h = λ p. cc

ok-ne-panic : {A : Type 0} (a : A) → ◌≢◌ {A = Outcome Refusal A} (ok a) panic
ok-ne-panic a = λ p. cc

exact-ne-panic : (bytes : Bytes) → length bytes ≡ 32 → exact 32 bytes ≢ panic
exact-ne-panic bytes h = ground (arith, h)

checked-ne-panic :
    (ids : List Bytes) (buf key : Bytes)
    → ◌>>◌ {B = ℕ × Bytes}
        (guard (not (ltb (length buf) 16)) short_plaintext)
        (match_short_id ids buf >>= λ offset. ok (offset, key))
      ≢ panic
checked-ne-panic ids buf key = elim (Bool-cases (ltb (length buf) 16)) [
  | inl short ↦ rw short (λ p. cc)
  | inr long ↦ rw long (
      >>=-ne-panic (match_short_id ids buf) _
        (match_short_id-ne-panic ids buf (ground (arith, long))) λ offset _. ok-ne-panic _)
]

slice_in : (xs : Bytes) (i j : ℕ) → i ≤ j → j ≤ length xs → slice {E = Refusal} xs i j ≢ panic
slice_in xs i j h k = ground arith

handshake_of-ne-panic : (hello : Bytes) → 5 ≤ length hello → handshake_of hello ≢ panic
unfolding handshake_of
handshake_of-ne-panic hello long = ground arith

module _ (diffie_hellman : Bytes → Bytes → Bytes) (hkdf : Bytes → Bytes → Bytes → Option Bytes)
    (decrypt_in_place : Bytes → Bytes → Bytes → Bytes → Option Bytes) where
  verify_key-ne-panic :
      (server : RealityServerRustls) (info : ClientHelloInfo) (message share : Bytes)
      → length info.client_random ≡ 32
      → verify_key diffie_hellman hkdf decrypt_in_place server info message share ≢ panic
  unfolding verify_key
  verify_key-ne-panic server info message share h =
      >>=-ne-panic (slice info.client_random 0 20) _
        (slice_in info.client_random 0 20 (omega arith) (omega arith))
        λ salt _.
          or_refuse-bind hkdf_failed (hkdf salt (diffie_hellman server.private_key share) hkdf_info)
            _
            λ auth_key.
              >>=-ne-panic (slice info.client_random 20 32) _
                (slice_in info.client_random 20 32 (omega arith) (omega arith))
                λ nonce _.
                  or_refuse-bind bad_tag
                    (decrypt_in_place auth_key nonce (aad_of info.session_id message)
                      info.session_id)
                    _ λ buf. checked-ne-panic server.short_ids buf auth_key

  verify-ne-panic :
      (server : RealityServerRustls) (info : ClientHelloInfo) (hello : Bytes)
      → length server.private_key ≡ 32
      → length info.client_random ≡ 32
      → 5 ≤ length hello
      → verify_client_reality diffie_hellman hkdf decrypt_in_place server info hello ≢ panic
  unfolding verify_client_reality
  verify-ne-panic server info hello key random long =
      guard-bind (length info.session_id == 32) bad_hello_shape _ (
        or_refuse-bind bad_hello_shape info.public_key _ λ share.
          >>=-ne-panic (exact 32 server.private_key) _ (exact-ne-panic server.private_key key)
            λ priv _. guard-bind (length share == 32) bad_public_key _ (
              >>=-ne-panic (handshake_of hello) _ (handshake_of-ne-panic hello long)
                λ message _. verify_key-ne-panic server info message share random))

  by_check-ne-crash : (o : Outcome Refusal (ℕ × Bytes)) → o ≢ panic → by_check o ≢ crash
  by_check-ne-crash (ok (offset, key)) h = λ p. cc
  by_check-ne-crash (err x) h = λ p. cc
  by_check-ne-crash panic h = absurd (h refl)

  by_hello-ne-crash :
      (server : RealityServerRustls) (buffer : Bytes)
      (o : Outcome HelloError (Option ClientHelloInfo))
      → length server.private_key ≡ 32
      → parse_client_hello buffer ≡ o
      → by_hello diffie_hellman hkdf decrypt_in_place server buffer o ≢ crash
  unfolding by_hello
  by_hello-ne-crash server buffer (ok (some info)) key e =
      let (long, random) = parse_client_hello-shape buffer info e in
      ground (
        arith,
        by_check-ne-crash
            (verify_client_reality diffie_hellman hkdf decrypt_in_place server info buffer)
            (verify-ne-panic server info buffer key random long),
      )
  by_hello-ne-crash server buffer (ok none) key e = λ p. cc
  by_hello-ne-crash server buffer (err x) key e = λ p. cc
  by_hello-ne-crash server buffer panic key e = absurd (parse_client_hello-ne-panic buffer e)

  -- The decision over the gathered bytes is never a panic, if the private key has 32 bytes.
  pub decide-ne-crash :
      (server : RealityServerRustls) (buffer : Bytes)
      → length server.private_key ≡ 32
      → decide diffie_hellman hkdf decrypt_in_place server buffer ≢ crash
  unfolding decide
  decide-ne-crash server buffer key =
      by_hello-ne-crash server buffer (parse_client_hello buffer) key refl
