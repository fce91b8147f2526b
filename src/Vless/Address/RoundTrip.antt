-- ===== src/Vless/Address/RoundTrip.antt =====
-- src/protocol/vless/address.rs: decoding of what was encoded.
use xray_lite.Prelude.{ℕ, suc, ◌%◌, ◌≡◌, ◌++◌, length, length-append, arith}
use xray_lite.Prelude.Outcome.{ok}
use xray_lite.Prelude.Bytes.{Bytes}
use xray_lite.Prelude.Read.{take_bytes, take_bytes-append, get_u8, get_u16}
use xray_lite.Vless.Error.{VlessError}
use xray_lite.Vless.Address.{
  Address, ipv4, ipv6, domain, decode_ipv4, decode_domain, decode_ipv6, decode_type, decode_fuel,
  decode, encode, IsValid,
}

take_exact :
    (n : ℕ) (xs s : Bytes) → length xs ≡ n → take_bytes {E = VlessError} n (xs ++ s) ≡ (ok xs, s)
take_exact n xs s h = rw (← h) (take_bytes-append xs s)

decode_fuel-encode :
    (a : Address) (rest : Bytes) (fuel : ℕ)
    → IsValid a
    → decode_fuel (suc fuel) (encode a ++ rest) ≡ (ok a, rest)
unfolding decode_fuel decode_type decode_ipv4 decode_domain decode_ipv6 encode get_u8 get_u16
decode_fuel-encode (ipv4 ip p) rest fuel (len, hp) =
    ground (arith, take_exact 4 ip rest len, length-append ip rest)
decode_fuel-encode (ipv6 ip p) rest fuel (len, hp) =
    ground (arith, take_exact 16 ip rest len, length-append ip rest)
decode_fuel-encode (domain name p) rest fuel (len, text, hp) =
    ground (arith, take_exact (length name % 256) name rest (omega arith), length-append name rest)

pub decode-encode :
    (a : Address) (rest : Bytes) → IsValid a → decode (encode a ++ rest) ≡ (ok a, rest)
unfolding decode
decode-encode a rest h = decode_fuel-encode a rest _ h
