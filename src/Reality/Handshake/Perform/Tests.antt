-- ===== src/Reality/Handshake/Perform/Tests.antt =====
-- Runs of whole handshakes, with small stand-ins for the cryptography.
use xray_lite.Prelude.{
  ℕ, ◌+◌, ◌<◌, ◌≡◌, refl, true, none, some, List, [], ◌∷◌, ◌++◌, length, replicate, arith,
}
use xray_lite.Prelude.Outcome.{ok}
use xray_lite.Prelude.Bytes.{Bytes}
use xray_lite.Prelude.Read.{advance, get_u16, take_bytes}
use xray_lite.Server.{RealityConfig}
use xray_lite.Reality.Record
use xray_lite.Reality.ClientHello.{ClientHello, get_key_share}
use xray_lite.Reality.ClientHello.Layout.{IsValid, parse-hello_bytes}
use xray_lite.Reality.Auth
use xray_lite.Reality.Auth.{RealityAuth, verify_client_auth}
use xray_lite.Reality.Crypto.{
  TlsKeys, encrypt_server_record, record_header, derive_handshake_keys, calculate_verify_data,
}
use xray_lite.Reality.Crypto.Tests.{sign, sign-length, seal, unseal, seal-law}
use xray_lite.Reality.Stream.{new_with_buffer}
use xray_lite.Reality.ServerHello
use xray_lite.Reality.Handshake.{read_client_hello, ccs_record, bundle}
use xray_lite.Reality.Handshake.Tests.{wire_finished}
use xray_lite.Reality.Handshake.Perform.{Primitives, Flight, perform, flight, tunnel}
use xray_lite.Reality.Handshake.Perform.Answers.{IsWorking, Seals, tagged_hello, perform_answers}
use xray_lite.Reality.Handshake.Perform.Tunnels.{perform_tunnels}
use xray_lite.Reality.Handshake.Perform.Verified.{FromKeyHolder, perform_authenticates}

abbrev primitives : Primitives ℕ Bytes
primitives = record {
  standard = λ key. some (replicate 32 7);
  url_safe = λ key. none;
  sign = sign;
  hash = λ messages. [];
  my_public_key = replicate 32 8;
  diffie_hellman = λ share. share;
  extract = λ salt secret. [];
  expand = λ prk info len. some (replicate len 5);
  unbound_key = λ bytes. some 1;
  seal = seal;
  tag_len = 1;
  open_in_place = unseal;
  server_random = replicate 32 6;
}

primitives-IsWorking : IsWorking primitives
primitives-IsWorking = record {
  signs = sign-length;
  random = refl;
  keys = λ bytes h. (1, refl);
  expands = λ prk info. (replicate 32 5, refl);
  seals = λ key n aad plain. (170 ∷ plain, refl);
}

abbrev config : RealityConfig
config = record {
  dest = 100 ∷ [];
  server_names = [];
  private_key = 107 ∷ [];
  public_key = none;
  short_ids = [];
  fingerprint = [];
}

abbrev auth : RealityAuth
auth = record { private_key_bytes = replicate 32 7 }

-- The key share extension of the ClientHello, and the ClientHello, whose session id is the tag.
abbrev share_body : Bytes
share_body = 0 ∷ 36 ∷ 0 ∷ 29 ∷ 0 ∷ 32 ∷ replicate 32 4

abbrev raw : Bytes
raw =
    1
    ∷ 0
    ∷ 0
    ∷ 117
    ∷ 3
    ∷ 3
    ∷ (replicate 32 9
        ++ (32
            ∷ (replicate 32 32
                ++ (0 ∷ 2 ∷ 19 ∷ 1 ∷ 1 ∷ 0 ∷ 0 ∷ 42 ∷ 0 ∷ 51 ∷ 0 ∷ 38 ∷ share_body))))

abbrev hello : ClientHello
hello = record {
  version = 0x0303;
  random = replicate 32 9;
  session_id = replicate 32 32;
  cipher_suites = 0x1301 ∷ [];
  compression_methods = 0 ∷ [];
  extensions = record { extension_type = 51; body = share_body } ∷ [];
  raw_data = raw;
}

abbrev finished_chunk : Bytes
finished_chunk = ccs_record ++ (wire_finished ++ 77 ∷ [])

abbrev chunks : List Bytes
chunks = (22 ∷ 3 ∷ 1 ∷ 0 ∷ 121 ∷ raw) ∷ finished_chunk ∷ []

hello-IsValid : IsValid hello
hello-IsValid = record {
  version = omega arith;
  random = refl;
  suites = (omega arith, tt);
  suites_fit = omega arith;
  extensions = ((omega arith, omega arith), tt);
  extensions_fit = omega arith;
}

hello_read : read_client_hello [] chunks ≡ ok (hello, raw, finished_chunk ∷ [])
unfolding read_client_hello Record.parse Record.content_type_from_u8 Record.split_record advance
    take_bytes
hello_read = rw (parse-hello_bytes hello 0 0 117 [] hello-IsValid refl) refl

hello_keyed : Auth.new primitives.standard primitives.url_safe config.private_key ≡ ok auth
unfolding Auth.new
hello_keyed = refl

hello_verified : verify_client_auth sign auth hello.random hello.session_id ≡ true
unfolding verify_client_auth
hello_verified = refl

hello_share : get_key_share hello ≡ ok (some (replicate 32 4))
unfolding get_key_share advance get_u16 take_bytes
hello_share = refl

-- A key of 1 and an iv of the length of its label, from each side's secret.
abbrev hs_keys : TlsKeys ℕ
hs_keys = record {
  client_write_key = 1;
  server_write_key = 1;
  client_iv = replicate 12 13;
  server_iv = replicate 12 13;
  client_traffic_secret = replicate 32 5;
  server_traffic_secret = replicate 32 5;
}

abbrev answered : Flight ℕ Bytes
answered = record {
  hs_keys = hs_keys;
  handshake_secret = [];
  verify_data = replicate 32 0;
  bundled_record =
      record_header (length (bundle (replicate 32 0)) + 2)
      ++ (170 ∷ (bundle (replicate 32 0) ++ 22 ∷ []));
}

hello_answered :
    flight primitives config
      (raw ++ (tagged_hello primitives config auth hello).raw_data)
      (replicate 32 4)
    ≡ ok answered
unfolding flight derive_handshake_keys calculate_verify_data encrypt_server_record bundle
hello_answered = refl

finished_sealed :
    encrypt_server_record seal 1 hs_keys 0 (20 ∷ 0 ∷ 0 ∷ 2 ∷ 7 ∷ 7 ∷ []) 22 ≡ ok wire_finished
unfolding encrypt_server_record
finished_sealed = refl

perform_tunnels_example :
    (app_keys : TlsKeys ℕ) × ((perform primitives config chunks).1
      ≡ ok (tunnel (new_with_buffer app_keys (77 ∷ []))))
perform_tunnels_example =
    perform_tunnels primitives config primitives-IsWorking seal-law chunks [] hello raw
      (replicate 32 4) (0 ∷ 0 ∷ 2 ∷ 7 ∷ 7 ∷ []) wire_finished (77 ∷ []) auth answered hs_keys
      hello_read hello_keyed hello_verified hello_share refl hello_answered refl refl
      finished_sealed (omega arith)

perform_answers_example :
    (f : Flight ℕ Bytes) × ((perform primitives config chunks).0
      ≡ ServerHello.encode (tagged_hello primitives config auth hello)
        ∷ ccs_record
        ∷ f.bundled_record
        ∷ [])
    × Seals primitives
        (raw ++ (tagged_hello primitives config auth hello).raw_data)
        (replicate 32 4)
        f
perform_answers_example =
    perform_answers primitives config primitives-IsWorking chunks (finished_chunk ∷ []) hello raw
      (replicate 32 4) auth hello_read hello_keyed hello_verified hello_share refl

sends_something : 0 < length (perform primitives config chunks).0
sends_something =
    let (f, sent, made) =
      perform_answers primitives config primitives-IsWorking chunks (finished_chunk ∷ []) hello raw
        (replicate 32 4) auth hello_read hello_keyed hello_verified hello_share refl in
    rw sent (omega arith)

perform_authenticates_example : FromKeyHolder primitives config chunks
perform_authenticates_example = perform_authenticates primitives config chunks sends_something
