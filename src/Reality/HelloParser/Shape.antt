-- ===== src/Reality/HelloParser/Shape.antt =====
-- src/transport/reality/hello_parser.rs: the random of a parsed ClientHello.
use xray_lite.Prelude.{suc, ◌≡◌, ◌≤◌, not, Option, none, some, length, drop, ◌==◌, arith}
use xray_lite.Prelude.Outcome.{ok}
use xray_lite.Prelude.Bytes.{Bytes}
use xray_lite.Prelude.Read.{require, within, get_u8, get_u16, take_bytes, advance}
use xray_lite.Prelude.Gives.{
  Gives, Gives-pure, Gives-if_short, Gives-if, Gives-bind, Gives-any, Gives-take_bytes,
}
use xray_lite.Reality.HelloParser.{
  ClientHelloInfo, info, scan_extensions, short_extensions, short_cipher_suites_len,
  short_cipher_suites, short_compression_len, short_compression, short_version, short_random,
  short_session_id_len, short_session_id, short_buffer, parse_extensions, parse_suites, parse_body,
  parse_handshake, parse_record, parse_client_hello,
}

-- A ClientHello, where there is one, with a whole random.
abbrev HasRandom : Option ClientHelloInfo → Type 0
HasRandom none = Unit {0}
HasRandom (some i) = length i.client_random ≡ 32

parse_extensions-Gives :
    (session_id random : Bytes)
    → length random ≡ 32
    → Gives HasRandom (parse_extensions session_id random)
unfolding parse_extensions
parse_extensions-Gives session_id random h =
    Gives-if_short 2 (Gives-pure (info session_id random (none, none)) h) (
      Gives-any get_u16 λ n. Gives-any (require n short_extensions) λ u.
        Gives-any (take_bytes n) λ xs.
          Gives-any (within xs (scan_extensions (suc (length xs)) (none, none)))
            λ found. Gives-pure (info session_id random found) h)

parse_suites-Gives :
    (session_id random : Bytes)
    → length random ≡ 32
    → Gives HasRandom (parse_suites session_id random)
unfolding parse_suites
parse_suites-Gives session_id random h = Gives-any (require 2 short_cipher_suites_len) λ a.
    Gives-any get_u16 λ n. Gives-any (require n short_cipher_suites) λ b. Gives-any (advance n) λ c.
      Gives-any (require 1 short_compression_len) λ d. Gives-any get_u8 λ k.
        Gives-any (require k short_compression)
          λ x. Gives-any (advance k) λ y. parse_extensions-Gives session_id random h

parse_body-Gives : Gives HasRandom parse_body
unfolding parse_body
parse_body-Gives = Gives-any (advance 3) λ a. Gives-any (require 2 short_version) λ b.
    Gives-any (advance 2) λ c. Gives-any (require 32 short_random) λ d.
      Gives-bind (Gives-take_bytes 32) λ random h. Gives-any (require 1 short_session_id_len) λ x.
        Gives-any get_u8 λ n.
          Gives-any (require n short_session_id)
            λ y. Gives-any (take_bytes n) λ session_id. parse_suites-Gives session_id random h

parse_handshake-Gives : Gives HasRandom parse_handshake
unfolding parse_handshake
parse_handshake-Gives =
    Gives-any (require 4 short_buffer)
      λ a. Gives-any get_u8 λ t. Gives-if (not (t == 0x01)) (Gives-pure none tt) parse_body-Gives

-- What is parsed came from five bytes or more, and its random has 32.
pub parse_client_hello-shape :
    (bytes : Bytes) (i : ClientHelloInfo)
    → parse_client_hello bytes ≡ ok (some i)
    → (5 ≤ length bytes) × (length i.client_random ≡ 32)
unfolding parse_client_hello parse_record
parse_client_hello-shape bytes i e =
    ground (arith, e, parse_handshake-Gives.at (drop 5 bytes) (some i))
