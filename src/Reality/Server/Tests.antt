-- ===== src/Reality/Server/Tests.antt =====
-- A server, its connections and its certificates.
use xray_lite.Prelude.{
  ◌+◌, ◌<◌, ◌≡◌, ◌≢◌, refl, true, Option, none, some, [], ◌∷◌, ◌++◌, length, replicate, arith,
}
use xray_lite.Prelude.Outcome.{ok}
use xray_lite.Prelude.Bytes.{Bytes}
use xray_lite.Server.{RealityConfig}
use xray_lite.Reality.Auth.{inject_auth_into_random}
use xray_lite.Reality.Crypto.Tests.{sign, sign-length}
use xray_lite.Reality.Inject
use xray_lite.Reality.Inject.{inject_auth, inject_auth-eq_inject}
use xray_lite.Reality.HelloParser.Tests.{plain_text}
use xray_lite.Reality.Accept.{read_header}
use xray_lite.Reality.Accept.Gathered.{concat}
use xray_lite.Reality.Accept.Tests.{server, agree, expand, decipher, plain_falls_back}
use xray_lite.Reality.Server.{
  RealityServer, Template, new, new_rustls, decode_short_ids, accept, fallback, panicked, by_gather,
  by_decision, generate_reality_cert, template_for, overwrite,
}
use xray_lite.Reality.Server.Made.{Makes, new_sound}
use xray_lite.Reality.Server.Accepts.{accept-ne-panicked, accept-Replays}
use xray_lite.Reality.Server.Cert.{Keeps, Shows, generate_reality_cert_again}

-- Decoders that decode nothing.
abbrev as_is : Bytes → Option Bytes
as_is text = some text

abbrev settings : RealityConfig
settings = record {
  dest = 97 ∷ 58 ∷ 52 ∷ [];
  server_names = server.server_names;
  private_key = server.private_key;
  public_key = none;
  short_ids = server.short_ids;
  fingerprint = [];
}

abbrev made : RealityServer
made = record {
  reality_config = record {
    private_key = server.private_key;
    verify_client = true;
    dest = some (97 ∷ 58 ∷ 52 ∷ []);
    short_ids = server.short_ids;
  };
  server_names = server.server_names;
}

settings_made : new as_is as_is as_is settings ≡ ok made
unfolding new new_rustls decode_short_ids Inject.new Inject.with_dest Inject.with_short_ids
    Inject.with_verify_client Inject.validate
settings_made = refl

new_sound_example : Makes as_is as_is as_is settings made
new_sound_example = new_sound as_is as_is as_is settings made settings_made

accept-ne-panicked_example : accept agree expand decipher made (plain_text ∷ []) ≢ panicked
accept-ne-panicked_example =
    accept-ne-panicked agree expand decipher as_is as_is as_is settings made (plain_text ∷ [])
      settings_made

plain_fallback :
    accept agree expand decipher made (plain_text ∷ (1 ∷ []) ∷ [])
    ≡ fallback (97 ∷ 58 ∷ 52 ∷ []) plain_text ((1 ∷ []) ∷ [])
unfolding accept by_gather by_decision read_header
plain_fallback = rw plain_falls_back refl

accept-Replays_example :
    (length plain_text < 16384 + 1024)
    × (plain_text ++ concat ((1 ∷ []) ∷ []) ≡ concat (plain_text ∷ (1 ∷ []) ∷ []))
accept-Replays_example =
    accept-Replays agree expand decipher made (plain_text ∷ (1 ∷ []) ∷ []) plain_text
      ((1 ∷ []) ∷ []) (omega arith, (omega arith, tt)) (rw plain_fallback (refl, refl))

-- A cache of one entry, which forgets nothing.
abbrev one_get : Option Template → Bytes → Option Template × Option Template
one_get c host = (c, c)

abbrev one_put : Option Template → Bytes → Template → Option Template
one_put c host t = some t

abbrev template : Template
template = record { cert_der = replicate 70 48; priv_key_der = 1 ∷ []; pub_key_raw = 2 ∷ [] }

abbrev generate : Bytes → Option Template
generate host = some template

abbrev tag : Bytes → Bytes → Bytes
tag key message = replicate 64 9

one_get-Keeps : Keeps one_get one_put generate tag []
one_get-Keeps = record { stored = λ c t. refl; found = λ c t h. h }

tag-length : (key message : Bytes) → length (tag key message) ≡ 64
tag-length key message = refl

abbrev shown : Bytes × Bytes
shown = (replicate 6 48 ++ replicate 64 9, 1 ∷ [])

template_shown : (generate_reality_cert one_get one_put generate tag none [] []).0 ≡ ok shown
unfolding generate_reality_cert template_for overwrite
template_shown = refl

generate_reality_cert_again_example :
    (t : Template) × Shows one_get one_put generate tag t [] shown
    × ((second : Bytes × Bytes) × ((generate_reality_cert one_get one_put generate tag
            (generate_reality_cert one_get one_put generate tag none [] []).1
            (7 ∷ [])
            []).0
          ≡ ok second)
        × Shows one_get one_put generate tag t (7 ∷ []) second)
generate_reality_cert_again_example =
    generate_reality_cert_again one_get one_put generate tag none [] [] (7 ∷ []) shown one_get-Keeps
      tag-length template_shown

inject_auth-eq_inject_example :
    inject_auth sign (replicate 32 5) made.reality_config (replicate 32 6)
    ≡ ok (
        inject_auth_into_random sign
          (record { private_key_bytes = made.reality_config.private_key })
          (replicate 32 5)
          (replicate 32 6))
inject_auth-eq_inject_example =
    inject_auth-eq_inject sign (replicate 32 5) (replicate 32 6) made.reality_config refl refl
      sign-length
