-- ===== src/Handler/Probes.antt =====
-- src/handler.rs: the search for HTTP probes in bytes that are no request.
use xray_lite.Prelude.{ℕ, ◌≤◌, ◌≡◌, ◌≢◌, refl, Bool, [], ◌∷◌, length, arith, if◌then◌else◌}
use xray_lite.Prelude.Outcome.{err}
use xray_lite.Prelude.Bytes.{Bytes}
use xray_lite.Prelude.Read.{get_u8}
use xray_lite.Vless.Error.{unsupported_version}
use xray_lite.Vless.Request
use xray_lite.Vless.Codec.{Codec, decode_request}
use xray_lite.Handler.World.{Env, answer, got, finished, stopped, decode_error}
use xray_lite.Handler.{no_content, is_http_probe, after_decode, serve_first, serve_vless}

decode-other_version :
    (codec : Codec) (b : ℕ) (text : Bytes)
    → b ≢ 0
    → 21 ≤ length text
    → decode_request codec (b ∷ text) ≡ (err (unsupported_version b), text)
unfolding decode_request Request.decode get_u8
decode-other_version codec b text other long = ground arith

module _ {Addr : Type 0} (show_ipv6 : Bytes → Bytes) (codec : Codec) (env : Env Addr)
    (sniff : Bool) where
  -- Bytes of 22 or more whose first is not the version 0 are searched for a probe without that first
  -- byte, which the decoder has taken: the rest decides between the answer 204 and an error, and
  -- nothing else is done. So `GET `, `POST` or `HEAD` at the very start is not seen.
  pub serve_vless-probe :
      (b : ℕ) (text : Bytes)
      → env.first ≡ got (b ∷ text)
      → b ≢ 0
      → 21 ≤ length text
      → serve_vless show_ipv6 env codec sniff ≡ (
          if is_http_probe text
          then (answer no_content ∷ [], finished)
          else ([], stopped (decode_error (unsupported_version b))))
  unfolding serve_vless serve_first after_decode
  serve_vless-probe b text first other long =
      rw (first, decode-other_version codec b text other long) refl
