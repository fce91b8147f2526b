-- ===== src/Reality/Server.antt =====
-- src/transport/reality/server.rs, and server_rustls.rs beside it: the making of the server, what
-- `accept` does with a connection, and the certificate that it shows. Base64, hex, the generation of
-- certificates, the cache and HMAC-SHA512 are parameters.
pub mod Made
pub mod Accepts
pub mod Cert
mod Tests
use xray_lite.Prelude.{
  ℕ, zero, suc, ◌+◌, ◌-◌, Bool, true, false, not, Option, none, some, List, [], ◌∷◌, ◌++◌, length,
  take, drop, ltb, ◌==◌, if◌then◌else◌,
}
use xray_lite.Prelude.Outcome.{Outcome, ok, err, panic, ◌>>=◌, ◌>>◌, guard}
use xray_lite.Prelude.Bytes.{Bytes}
use xray_lite.Config.Validator.{is_empty}
use xray_lite.Server.{RealityConfig}
use xray_lite.Reality.Inject
use xray_lite.Reality.CertFetch.{host_part}
use xray_lite.Reality.Accept
use xray_lite.Reality.Accept.{
  RealityServerRustls, Decision, serve, fall_back, crash, decide, Gather, gathered, closed_early,
  timed_out, out_of_range, read_header,
}

pub data RealityError : Type 0 where
  empty_dest empty_private_key not_base64 bad_short_id config_refused : RealityError
  key_length : ℕ → RealityError

-- `RealityServerRustls`, with the configuration of the patched rustls
pub record RealityServer : Type 0 where
  pub reality_config : Inject.RealityConfig
  pub server_names : List Bytes

-- What the check of a client reads of it.
abbrev pub verifier : RealityServer → RealityServerRustls
verifier s = record {
  private_key = s.reality_config.private_key;
  short_ids = s.reality_config.short_ids;
  server_names = s.server_names;
}

-- "www.microsoft.com:443" and "www.microsoft.com"
abbrev pub default_dest : Bytes
default_dest =
    0x77 ∷ 0x77 ∷ 0x77 ∷ 0x2e ∷ 0x6d ∷ 0x69 ∷ 0x63 ∷ 0x72 ∷ 0x6f ∷ 0x73 ∷ 0x6f ∷ 0x66 ∷ 0x74 ∷ 0x2e
    ∷ 0x63 ∷ 0x6f ∷ 0x6d ∷ 0x3a ∷ 0x34 ∷ 0x34 ∷ 0x33 ∷ []

abbrev pub dest_or_default : Option Bytes → Bytes
dest_or_default none = default_dest
dest_or_default (some dest) = dest

abbrev or_fail : {A : Type 0} → RealityError → Option A → Outcome RealityError A
or_fail e none = err e
or_fail e (some a) = ok a

abbrev first_some : Option Bytes → Option Bytes → Option Bytes
first_some none second = second
first_some (some bytes) second = some bytes

abbrev validated : Outcome Inject.InjectError (Unit {0}) → Outcome RealityError (Unit {0})
validated (ok u) = ok tt
validated (err e) = err config_refused
validated panic = panic

module _ (hex_decode : Bytes → Option Bytes) where
  -- `for id in short_ids`
  unfoldable pub decode_short_ids : List Bytes → Outcome RealityError (List Bytes)
  decode_short_ids [] = ok []
  decode_short_ids (id ∷ ids) = do
    bytes ← or_fail bad_short_id (hex_decode id)
    others ← decode_short_ids ids
    ok (bytes ∷ others)

  -- `RealityServerRustls::new`
  unfoldable pub new_rustls :
      Bytes → Option Bytes → List Bytes → List Bytes → Outcome RealityError RealityServer
  new_rustls private_key dest short_ids server_names = do
    short_ids_bytes ← decode_short_ids short_ids
    let reality_config =
        Inject.with_dest
          (Inject.with_short_ids (Inject.with_verify_client (Inject.new private_key) true)
            short_ids_bytes)
          (dest_or_default dest)
    validated (Inject.validate reality_config)
    ok (record { reality_config = reality_config; server_names = server_names })

  -- `RealityServer::new`: the URL-safe alphabet first.
  unfoldable pub new :
      (Bytes → Option Bytes)
      → (Bytes → Option Bytes)
      → RealityConfig
      → Outcome RealityError RealityServer
  new url_safe standard config = do
    guard (not (is_empty config.dest)) empty_dest
    guard (not (is_empty config.private_key)) empty_private_key
    private_key_bytes ←
        or_fail not_base64 (first_some (url_safe config.private_key) (standard config.private_key))
    guard (length private_key_bytes == 32) (key_length (length private_key_bytes))
    new_rustls private_key_bytes (some config.dest) config.short_ids config.server_names

-- The DER of a certificate, its private key, and its raw public key.
pub record Template : Type 0 where
  pub cert_der : Bytes
  pub priv_key_der : Bytes
  pub pub_key_raw : Bytes

pub data CertError : Type 0 where
  generation_failed short_der : CertError

module _ {Cache : Type 0} (cache_get : Cache → Bytes → Option Template × Cache)
    (cache_put : Cache → Bytes → Template → Cache) (generate : Bytes → Option Template)
    (sign : Bytes → Bytes → Bytes) where
  -- A hit is cloned; a miss is generated and stored.
  template_for : Bytes → Option Template × Cache → Outcome CertError Template × Cache
  template_for host (some template, cache) = (ok template, cache)
  template_for host (none, cache) = elim (generate host) [
    | none ↦ (err generation_failed, cache)
    | some template ↦ (ok template, cache_put cache host template)
  ]

  -- The last 64 bytes are overwritten; `copy_from_slice` panics unless the tag has as many.
  overwrite : Bytes → Template → Outcome CertError (Bytes × Bytes)
  overwrite auth_key t =
      let tag = sign auth_key t.pub_key_raw in
      if ltb (length t.cert_der) 64
      then err short_der
      else if length tag == 64
      then ok (take (length t.cert_der - 64) t.cert_der ++ tag, t.priv_key_der)
      else panic

  -- The certificate and its private key, and the cache.
  unfoldable pub generate_reality_cert :
      Cache → Bytes → Bytes → Outcome CertError (Bytes × Bytes) × Cache
  unfolding template_for overwrite
  generate_reality_cert cache auth_key host =
      let (template, cache') = template_for host (cache_get cache host) in
      (template >>= overwrite auth_key, cache')

-- What `accept` does with a connection: a TLS handshake under this key and for this host, or a relay to the
-- destination, both over the bytes that it read and then what the connection still gives; or an end.
pub data Accepted : Type 0 where
  tls : ℕ → Bytes → Bytes → Bytes → List Bytes → Accepted
  fallback : Bytes → Bytes → List Bytes → Accepted
  closed timeout panicked : Accepted

module _ (diffie_hellman : Bytes → Bytes → Bytes) (hkdf : Bytes → Bytes → Bytes → Option Bytes)
    (decrypt_in_place : Bytes → Bytes → Bytes → Bytes → Option Bytes) where
  by_decision : RealityServer → Bytes → List Bytes → Decision → Accepted
  by_decision s buffer left (serve offset auth_key) =
      tls offset auth_key (host_part (dest_or_default s.reality_config.dest)) buffer left
  by_decision s buffer left fall_back = fallback (dest_or_default s.reality_config.dest) buffer left
  by_decision s buffer left crash = panicked

  by_gather : RealityServer → Gather → Accepted
  by_gather s (gathered buffer left) =
      by_decision s buffer left (decide diffie_hellman hkdf decrypt_in_place (verifier s) buffer)
  by_gather s closed_early = closed
  by_gather s timed_out = timeout
  by_gather s out_of_range = panicked

  -- The chunks are what the reads of the connection answer.
  pub accept : RealityServer → List Bytes → Accepted
  accept s chunks = by_gather s (read_header [] chunks)
