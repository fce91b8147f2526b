-- ===== src/Reality/HelloParser/Tests.antt =====
-- Runs of the parser of the Reality ClientHello.
use xray_lite.Prelude.{
  ◌+◌, ◌≡◌, ◌≢◌, ◌<◌, refl, true, none, some, [], ◌∷◌, length, take, replicate, arith,
}
use xray_lite.Prelude.Outcome.{ok, err, panic}
use xray_lite.Prelude.Bytes.{Bytes}
use xray_lite.Prelude.Utf8.{is_utf8}
use xray_lite.Prelude.Read.{get_u8, get_u16, take_bytes, advance}
use xray_lite.Reality.HelloParser.{
  out_of_fuel, ClientHelloInfo, parse_client_hello, parse_record, parse_handshake, parse_body,
  parse_suites, parse_extensions, scan_extensions, scan_extension, next_round, after_shares,
  scan_key_share, scan_shares, share_entry, scan_sni, scan_names, name_entry,
}
use xray_lite.Reality.HelloParser.Termination.{parse_client_hello_returns}
use xray_lite.Reality.HelloParser.Finds.{parse-build_simple_client_hello}
use xray_lite.Reality.CertFetch.{build_simple_client_hello, host_part}

-- A whole ClientHello with a key share, for the host "a.b", whose session id holds the short id
-- that starts with 104.
abbrev pub reality_hello : Bytes
reality_hello =
    22 ∷ 3 ∷ 1 ∷ 0 ∷ 133 ∷ 1 ∷ 0 ∷ 0 ∷ 129 ∷ 3 ∷ 3 ∷ 5 ∷ 5 ∷ 5 ∷ 5 ∷ 5 ∷ 5 ∷ 5 ∷ 5 ∷ 5 ∷ 5 ∷ 5 ∷ 5
    ∷ 5 ∷ 5 ∷ 5 ∷ 5 ∷ 5 ∷ 5 ∷ 5 ∷ 5 ∷ 5 ∷ 5 ∷ 5 ∷ 5 ∷ 5 ∷ 5 ∷ 5 ∷ 5 ∷ 5 ∷ 5 ∷ 5 ∷ 5 ∷ 32 ∷ 100 ∷ 101
    ∷ 102 ∷ 103 ∷ 104 ∷ 105 ∷ 106 ∷ 107 ∷ 108 ∷ 109 ∷ 110 ∷ 111 ∷ 112 ∷ 113 ∷ 114 ∷ 115 ∷ 116 ∷ 117
    ∷ 118 ∷ 119 ∷ 120 ∷ 121 ∷ 122 ∷ 123 ∷ 124 ∷ 125 ∷ 126 ∷ 127 ∷ 128 ∷ 129 ∷ 130 ∷ 131 ∷ 0 ∷ 2 ∷ 19
    ∷ 1 ∷ 1 ∷ 0 ∷ 0 ∷ 54 ∷ 0 ∷ 51 ∷ 0 ∷ 38 ∷ 0 ∷ 36 ∷ 0 ∷ 29 ∷ 0 ∷ 32 ∷ 66 ∷ 66 ∷ 66 ∷ 66 ∷ 66 ∷ 66
    ∷ 66 ∷ 66 ∷ 66 ∷ 66 ∷ 66 ∷ 66 ∷ 66 ∷ 66 ∷ 66 ∷ 66 ∷ 66 ∷ 66 ∷ 66 ∷ 66 ∷ 66 ∷ 66 ∷ 66 ∷ 66 ∷ 66
    ∷ 66 ∷ 66 ∷ 66 ∷ 66 ∷ 66 ∷ 66 ∷ 66 ∷ 0 ∷ 0 ∷ 0 ∷ 8 ∷ 0 ∷ 6 ∷ 0 ∷ 0 ∷ 3 ∷ 97 ∷ 46 ∷ 98 ∷ []

abbrev pub reality_info : ClientHelloInfo
reality_info = record {
  session_id =
      100 ∷ 101 ∷ 102 ∷ 103 ∷ 104 ∷ 105 ∷ 106 ∷ 107 ∷ 108 ∷ 109 ∷ 110 ∷ 111 ∷ 112 ∷ 113 ∷ 114 ∷ 115
      ∷ 116 ∷ 117 ∷ 118 ∷ 119 ∷ 120 ∷ 121 ∷ 122 ∷ 123 ∷ 124 ∷ 125 ∷ 126 ∷ 127 ∷ 128 ∷ 129 ∷ 130
      ∷ 131 ∷ [];
  client_random = replicate 32 5;
  public_key = some (replicate 32 66);
  server_name = some (97 ∷ 46 ∷ 98 ∷ []);
}

pub hello_parsed : parse_client_hello reality_hello ≡ ok (some reality_info)
unfolding parse_client_hello parse_record parse_handshake parse_body parse_suites parse_extensions
    scan_extensions scan_extension next_round after_shares scan_key_share scan_shares share_entry
    scan_sni scan_names name_entry is_utf8 get_u8 get_u16 take_bytes advance
hello_parsed = refl

-- The same hello, cut off in its extensions.
parse_client_hello_returns_example :
    (parse_client_hello (take 90 reality_hello) ≢ panic)
    × (parse_client_hello (take 90 reality_hello) ≢ err out_of_fuel)
parse_client_hello_returns_example = parse_client_hello_returns (take 90 reality_hello)

-- "a.b:443"
abbrev address : Bytes
address = 97 ∷ 46 ∷ 98 ∷ 58 ∷ 52 ∷ 52 ∷ 51 ∷ []

host_utf8 : is_utf8 (host_part address) ≡ true
unfolding is_utf8 host_part
host_utf8 = refl

host_short : length (host_part address) + 63 < 65536
unfolding host_part
host_short = omega arith

parse-build_simple_client_hello_example :
    parse_client_hello (build_simple_client_hello (replicate 32 5) address)
    ≡ ok (
        some (record {
          session_id = [];
          client_random = replicate 32 5;
          public_key = none;
          server_name = some (host_part address);
        }))
parse-build_simple_client_hello_example =
    parse-build_simple_client_hello (replicate 32 5) address refl host_short host_utf8

-- Bytes that are no TLS record.
abbrev pub plain_text : Bytes
plain_text = 0x47 ∷ 0x45 ∷ 0x54 ∷ 0x20 ∷ 0x2f ∷ []

pub plain_refused : parse_client_hello plain_text ≡ ok none
unfolding parse_client_hello
plain_refused = refl
