-- ===== src/Reality/Accept/Tests.antt =====
-- A client that is let in, and the gathering of its first record.
use xray_lite.Prelude.{◌≡◌, refl, true, Option, some, List, [], ◌∷◌, replicate}
use xray_lite.Prelude.Outcome.{ok}
use xray_lite.Prelude.Bytes.{Bytes}
use xray_lite.Reality.HelloParser.{ClientHelloInfo, parse_client_hello}
use xray_lite.Reality.Accept.{
  RealityServerRustls, decide, serve, fall_back, sni_valid, read_header, gathered, match_short_id,
  by_hello, verify_client_reality, aad_of,
}
use xray_lite.Reality.Accept.Verified.{decide_serves, IsVerified}
use xray_lite.Reality.HelloParser.Tests.{reality_hello, hello_parsed, plain_text, plain_refused}

abbrev pub server : RealityServerRustls
server = record {
  private_key = replicate 32 1;
  short_ids = (104 ∷ 105 ∷ 106 ∷ 107 ∷ 108 ∷ 109 ∷ 110 ∷ 111 ∷ []) ∷ [];
  server_names = (97 ∷ 46 ∷ 98 ∷ []) ∷ [];
}

abbrev pub agree : Bytes → Bytes → Bytes
agree secret public = public

abbrev pub expand : Bytes → Bytes → Bytes → Option Bytes
expand salt secret info = some secret

abbrev pub decipher : Bytes → Bytes → Bytes → Bytes → Option Bytes
decipher key n aad buf = some buf

abbrev auth_key : Bytes
auth_key = replicate 32 66

hello_served : decide agree expand decipher server reality_hello ≡ serve 4 auth_key
unfolding decide by_hello sni_valid verify_client_reality match_short_id aad_of
hello_served = rw hello_parsed refl

decide_serves_example :
    (info : ClientHelloInfo) × (parse_client_hello reality_hello ≡ ok (some info))
    × (sni_valid server.server_names info.server_name ≡ true)
    × IsVerified agree expand decipher server info reality_hello 4 auth_key
decide_serves_example =
    decide_serves agree expand decipher server reality_hello 4 auth_key hello_served

abbrev two_chunks : List Bytes
two_chunks = (0x16 ∷ 3 ∷ 1 ∷ []) ∷ (0 ∷ 2 ∷ 1 ∷ 0 ∷ []) ∷ []

two_gathered : read_header [] two_chunks ≡ gathered (0x16 ∷ 3 ∷ 1 ∷ 0 ∷ 2 ∷ 1 ∷ 0 ∷ []) []
unfolding read_header
two_gathered = refl

pub plain_falls_back : decide agree expand decipher server plain_text ≡ fall_back
unfolding decide by_hello
plain_falls_back = rw plain_refused refl
