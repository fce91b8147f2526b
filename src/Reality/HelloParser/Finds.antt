-- ===== src/Reality/HelloParser/Finds.antt =====
-- src/transport/reality/hello_parser.rs on the ClientHello that cert_fetch.rs writes.
use xray_lite.Prelude.{
  ℕ, suc, ◌+◌, ◌/◌, ◌%◌, ◌<◌, ◌≡◌, true, Option, none, some, [], ◌∷◌, ◌++◌, length, arith,
  length-append, take_all, take-append, drop-append, ◌∙◌, drop_all, take-append_at, drop-append_at,
}
use xray_lite.Prelude.Outcome.{ok}
use xray_lite.Prelude.Bytes.{Bytes, IsU16, put_u16}
use xray_lite.Prelude.Utf8.{is_utf8}
use xray_lite.Prelude.Read.{Read, get_u8, get_u16, take_bytes, advance}
use xray_lite.Reality.CertFetch.{
  build_simple_client_hello, hello_fields, hello_extensions, host_part,
}
use xray_lite.Reality.HelloParser.{
  HelloError, ClientHelloInfo, name_entry, scan_names, scan_sni, scan_extension, scan_extensions,
  next_round, parse_extensions, parse_suites, parse_body, parse_handshake, parse_record,
  parse_client_hello,
}

scan_names_finds :
    (fuel : ℕ) (old : Option Bytes) (sni : Bytes)
    → IsU16 (length sni)
    → is_utf8 sni ≡ true
    → scan_names (suc fuel) old (0 ∷ (put_u16 (length sni) ++ sni)) ≡ (ok (some sni), [])
unfolding scan_names name_entry get_u8 get_u16 take_bytes
scan_names_finds fuel old sni h u = ground (
  arith,
  u,
  take_all {0} (length sni) sni (omega arith),
  drop_all {0} (length sni) sni (omega arith),
)

scan_sni_finds :
    (old : Option Bytes) (sni : Bytes)
    → length sni + 3 < 65536
    → is_utf8 sni ≡ true
    → (scan_sni old (put_u16 (length sni + 3) ++ (0 ∷ (put_u16 (length sni) ++ sni)))).0
      ≡ ok (some sni)
unfolding scan_sni get_u16 take_bytes
scan_sni_finds old sni h u =
    let body = 0 ∷ (put_u16 (length sni) ++ sni) in
    ground (
      arith,
      scan_names_finds (length body) old sni (omega arith) u,
      take_all {0} (length sni + 3) body (omega arith),
      drop_all {0} (length sni + 3) body (omega arith),
    )

-- The supported versions behind the server name are passed over.
scan_versions :
    (fuel : ℕ) (sni : Bytes)
    → scan_extensions (suc (suc fuel)) (none, some sni) (0 ∷ 0x2b ∷ 0 ∷ 3 ∷ 2 ∷ 3 ∷ 4 ∷ [])
      ≡ (ok (none, some sni), [])
unfolding scan_extensions scan_extension next_round get_u16 take_bytes
scan_versions fuel sni = ground arith

scan_extension_name :
    (body more sni : Bytes)
    (rest : Option Bytes × Option Bytes → Read HelloError (Option Bytes × Option Bytes))
    → (scan_sni none body).0 ≡ ok (some sni)
    → scan_extension 0 body (none, none) rest more ≡ rest (none, some sni) more
unfolding scan_extension next_round
scan_extension_name body more sni rest e = ground (arith, e)

scan_extensions_step :
    (fuel : ℕ) (body more : Bytes)
    → IsU16 (length body)
    → scan_extensions (suc fuel) (none, none) (0 ∷ 0 ∷ put_u16 (length body) ++ (body ++ more))
      ≡ scan_extension 0 body (none, none) (scan_extensions fuel) more
unfolding scan_extensions get_u16 take_bytes
scan_extensions_step fuel body more h =
    ground (arith, length-append {0} body more, take-append body more, drop-append body more)

scan_extensions_finds :
    (fuel : ℕ) (sni : Bytes)
    → length sni + 5 < 65536
    → is_utf8 sni ≡ true
    → scan_extensions (suc (suc (suc fuel))) (none, none) (hello_extensions sni)
      ≡ (ok (none, some sni), [])
unfolding hello_extensions
scan_extensions_finds fuel sni h u =
    let body = put_u16 (length sni + 3) ++ (0 ∷ (put_u16 (length sni) ++ sni)) in
    let versions = 0 ∷ 0x2b ∷ 0 ∷ 3 ∷ 2 ∷ 3 ∷ 4 ∷ [] in
    scan_extensions_step (suc (suc fuel)) body versions (omega arith)
    ∙ scan_extension_name body versions sni (scan_extensions (suc (suc fuel)))
        (scan_sni_finds none sni (omega arith) u)
    ∙ scan_versions fuel sni

length-hello_extensions : (sni : Bytes) → length (hello_extensions sni) ≡ length sni + 16
unfolding hello_extensions
length-hello_extensions sni =
    omega (arith, length-append {0} sni (0 ∷ 0x2b ∷ 0 ∷ 3 ∷ 2 ∷ 3 ∷ 4 ∷ []))

parse_extensions_finds :
    (id random sni : Bytes)
    → length sni + 16 < 65536
    → is_utf8 sni ≡ true
    → (parse_extensions id random
        (put_u16 (length (hello_extensions sni)) ++ hello_extensions sni)).0
      ≡ ok (
          some (record {
            session_id = id;
            client_random = random;
            public_key = none;
            server_name = some sni;
          }))
unfolding parse_extensions get_u16 take_bytes
parse_extensions_finds id random sni h u = ground (
  arith,
  length-hello_extensions sni,
  scan_extensions_finds (length sni + 14) sni (omega arith) u,
  take_all {0} (length (hello_extensions sni)) (hello_extensions sni) (omega arith),
  drop_all {0} (length (hello_extensions sni)) (hello_extensions sni) (omega arith),
)

abbrev asked : Bytes → Bytes → Option ClientHelloInfo
asked random sni =
    some (record {
      session_id = [];
      client_random = random;
      public_key = none;
      server_name = some sni;
    })

parse_suites_finds :
    (random sni : Bytes)
    → length sni + 16 < 65536
    → is_utf8 sni ≡ true
    → (parse_suites [] random (
        0
        ∷ 2
        ∷ 0x13
        ∷ 1
        ∷ 1
        ∷ 0
        ∷ (put_u16 (length (hello_extensions sni)) ++ hello_extensions sni))).0
      ≡ ok (asked random sni)
unfolding parse_suites get_u8 get_u16 advance
parse_suites_finds random sni h u = ground (arith, parse_extensions_finds [] random sni h u)

parse_body_finds :
    (x y z : ℕ) (random sni : Bytes)
    → length random ≡ 32
    → length sni + 16 < 65536
    → is_utf8 sni ≡ true
    → (parse_body (x ∷ y ∷ z ∷ hello_fields random sni)).0 ≡ ok (asked random sni)
unfolding parse_body hello_fields get_u8 advance take_bytes
parse_body_finds x y z random sni r h u =
    let tail =
      0
      ∷ 2
      ∷ 0x13
      ∷ 1
      ∷ 1
      ∷ 0
      ∷ (put_u16 (length (hello_extensions sni)) ++ hello_extensions sni) in
    ground (
      arith,
      parse_suites_finds random sni h u,
      length-append {0} random (0 ∷ tail),
      take-append_at 32 random (0 ∷ tail) r,
      drop-append_at 32 random (0 ∷ tail) r,
    )

length-hello_fields :
    (random sni : Bytes) → length random ≡ 32 → length (hello_fields random sni) ≡ length sni + 59
unfolding hello_fields
length-hello_fields random sni r = omega (
  arith,
  length-hello_extensions sni,
  length-append {0} random (
      0
      ∷ 0
      ∷ 2
      ∷ 0x13
      ∷ 1
      ∷ 1
      ∷ 0
      ∷ (put_u16 (length (hello_extensions sni)) ++ hello_extensions sni)),
)

parse_handshake_finds :
    (x y z : ℕ) (random sni : Bytes)
    → length random ≡ 32
    → length sni + 16 < 65536
    → is_utf8 sni ≡ true
    → (parse_handshake (1 ∷ x ∷ y ∷ z ∷ hello_fields random sni)).0 ≡ ok (asked random sni)
unfolding parse_handshake get_u8
parse_handshake_finds x y z random sni r h u =
    ground (arith, parse_body_finds x y z random sni r h u)

-- The ClientHello that the program writes to fetch a certificate is read by its own Reality parser
-- as one without session id and key share, for the host part of the address: the host is UTF-8 and
-- leaves the message below 65536 bytes.
pub parse-build_simple_client_hello :
    (random server_name : Bytes)
    → length random ≡ 32
    → length (host_part server_name) + 63 < 65536
    → is_utf8 (host_part server_name) ≡ true
    → parse_client_hello (build_simple_client_hello random server_name)
      ≡ ok (
          some (record {
            session_id = [];
            client_random = random;
            public_key = none;
            server_name = some (host_part server_name);
          }))
unfolding parse_client_hello parse_record build_simple_client_hello
parse-build_simple_client_hello random server_name r h u = ground (
  arith,
  length-hello_fields random (host_part server_name) r,
  parse_handshake_finds (length (hello_fields random (host_part server_name)) / 65536 % 256)
      (length (hello_fields random (host_part server_name)) / 256 % 256)
      (length (hello_fields random (host_part server_name)) % 256) random (host_part server_name) r
      (omega arith) u,
)
