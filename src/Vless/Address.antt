-- ===== src/Vless/Address.antt =====
-- src/protocol/vless/address.rs: the target address, read and written port first.
pub mod RoundTrip
pub mod Safety
pub mod Mux
pub mod Text
use xray_lite.Prelude.{
  ℕ, zero, suc, ◌<◌, ◌≡◌, true, List, [], ◌∷◌, ◌++◌, length, ◌==◌, if◌then◌else◌,
}
use xray_lite.Prelude.Outcome.{Outcome}
use xray_lite.Prelude.Bytes.{Bytes, IsU16, as_u8, put_u16}
use xray_lite.Prelude.Read.{
  Read, pure, fail, ◌>>=◌, ◌>>◌, require, check, get_u8, get_u16, take_bytes,
}
use xray_lite.Prelude.Utf8.{is_utf8}
use xray_lite.Vless.Error.{
  VlessError, short_port, short_ipv4, short_domain_len, short_domain, bad_utf8, short_ipv6,
  short_mux, unknown_type, out_of_fuel,
}

-- An IP address is its octets, a domain the bytes of its text; the number is the port.
pub data Address : Type 0 where
  ipv4 : Bytes → ℕ → Address
  ipv6 : Bytes → ℕ → Address
  domain : Bytes → ℕ → Address

decode_ipv4 : ℕ → Read VlessError Address
decode_ipv4 port = do require 4 short_ipv4; octets ← take_bytes 4; pure (ipv4 octets port)

decode_domain : ℕ → Read VlessError Address
decode_domain port = do
  require 1 short_domain_len
  len ← get_u8
  require len short_domain
  name ← take_bytes len
  check (is_utf8 name) bad_utf8
  pure (domain name port)

decode_ipv6 : ℕ → Read VlessError Address
decode_ipv6 port = do require 16 short_ipv6; octets ← take_bytes 16; pure (ipv6 octets port)

-- The session id is skipped, and the real address follows.
decode_mux : Read VlessError Address → Read VlessError Address
decode_mux real_address = do require 1 short_mux; session_id ← get_u8; real_address

-- `match addr_type`
decode_type : ℕ → ℕ → Read VlessError Address → Read VlessError Address
decode_type addr_type port real_address =
    if addr_type == 0x01
    then decode_ipv4 port
    else if addr_type == 0x02
    then decode_domain port
    else if addr_type == 0x03
    then decode_ipv6 port
    else if addr_type == 0x00
    then decode_mux real_address
    else fail (unknown_type addr_type)

-- The recursion of the Mux branch is on fuel.
decode_fuel : ℕ → Read VlessError Address
decode_fuel zero = fail out_of_fuel
decode_fuel (suc fuel) =
    let real_address = decode_fuel fuel in
    do
      require 3 short_port
      port ← get_u16
      addr_type ← get_u8
      decode_type addr_type port real_address

-- Every round of the recursion takes four bytes, so the length of the buffer is fuel enough.
unfoldable pub decode : Read VlessError Address
unfolding decode_fuel decode_type decode_ipv4 decode_domain decode_ipv6 decode_mux get_u8 get_u16
    take_bytes
decode buf = decode_fuel (suc (length buf)) buf

-- What `encode` appends to the buffer.
unfoldable pub encode : Address → Bytes
encode (ipv4 ip port) = put_u16 port ++ 0x01 ∷ ip
encode (domain name port) = put_u16 port ++ 0x02 ∷ as_u8 (length name) ∷ name
encode (ipv6 ip port) = put_u16 port ++ 0x03 ∷ ip

unfoldable pub port : Address → ℕ
port (ipv4 ip p) = p
port (ipv6 ip p) = p
port (domain name p) = p

-- What Rust's types say of an address, and a name that one length byte can count.
abbrev pub IsValid : Address → Type 0
IsValid (ipv4 ip p) = (length ip ≡ 4) × IsU16 p
IsValid (ipv6 ip p) = (length ip ≡ 16) × IsU16 p
IsValid (domain name p) = (length name < 256) × (is_utf8 name ≡ true) × IsU16 p
