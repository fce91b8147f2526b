-- ===== src/ProxyProtocol.antt =====
-- src/protocol/proxy_protocol.rs: the header of a load balancer, which names the real client.
pub mod Tests
pub mod Text
pub mod Safety
pub mod Layout
use xray_lite.Prelude.{
  ℕ, ◌+◌, ◌/◌, ◌%◌, ◌*◌, Bool, true, false, not, ◌&&◌, ◌||◌, List, [], ◌∷◌, Option, none, some,
  length, take, get_elem?, ltb, leb, ◌==◌, if◌then◌else◌, replicate,
}
use xray_lite.Prelude.Outcome.{Outcome, ok, err, panic, ◌>>=◌, ◌>>◌, guard}
use xray_lite.Prelude.Bytes.{Bytes, be16, bytes_eq, index, slice}
use xray_lite.Prelude.Utf8.{is_utf8}
use xray_lite.ProxyProtocol.Text.{position, split, starts_with, parse_u16, parse_ipv4}

pub data ProxyError : Type 0 where
  bad_signature no_crlf bad_line_end bad_utf8 short_v1 bad_port bad_address : ProxyError
  unknown_protocol : Bytes → ProxyError
  short_v2 incomplete bad_ipv4_length bad_ipv6_length : ProxyError

pub data IpAddr : Type 0 where
  v4 : Bytes → IpAddr
  v6 : Bytes → IpAddr

pub record SocketAddr : Type 0 where
  pub ip : IpAddr
  pub port : ℕ

pub record ProxyHeader : Type 0 where
  pub source_addr : SocketAddr
  pub dest_addr : SocketAddr

abbrev pub socket_addr : IpAddr → ℕ → SocketAddr
socket_addr ip port = record { ip = ip; port = port }

abbrev pub header : SocketAddr → SocketAddr → ProxyHeader
header s d = record { source_addr = s; dest_addr = d }

-- `Ipv4Addr::UNSPECIFIED` with port 0, twice.
abbrev pub unspecified : ProxyHeader
unspecified = let a = socket_addr (v4 (0 ∷ 0 ∷ 0 ∷ 0 ∷ [])) 0 in header a a

-- "PROXY "
abbrev pub v1_signature : Bytes
v1_signature = 0x50 ∷ 0x52 ∷ 0x4f ∷ 0x58 ∷ 0x59 ∷ 0x20 ∷ []

abbrev pub v2_signature : Bytes
v2_signature =
    0x0d ∷ 0x0a ∷ 0x0d ∷ 0x0a ∷ 0x00 ∷ 0x0d ∷ 0x0a ∷ 0x51 ∷ 0x55 ∷ 0x49 ∷ 0x54 ∷ 0x0a ∷ []

unfoldable pub is_v2 : Bytes → Bool
unfolding bytes_eq
is_v2 bytes = leb 12 (length bytes) && bytes_eq (take 12 bytes) v2_signature

unfoldable pub is_proxy_protocol : Bytes → Bool
is_proxy_protocol bytes = starts_with v1_signature bytes || is_v2 bytes

-- `(hi as u16) << 8 | lo as u16`, on bytes
abbrev pub join : ℕ → ℕ → ℕ
join hi lo = be16 hi lo

v2_ipv4 : Bytes → ℕ → Outcome ProxyError ProxyHeader
v2_ipv4 bytes addr_len = do
  guard (not (ltb addr_len 12)) bad_ipv4_length
  a ← index bytes 16
  b ← index bytes 17
  c ← index bytes 18
  d ← index bytes 19
  e ← index bytes 20
  f ← index bytes 21
  g ← index bytes 22
  h ← index bytes 23
  sp_hi ← index bytes 24
  sp_lo ← index bytes 25
  dp_hi ← index bytes 26
  dp_lo ← index bytes 27
  ok (
      header (socket_addr (v4 (a ∷ b ∷ c ∷ d ∷ [])) (join sp_hi sp_lo))
        (socket_addr (v4 (e ∷ f ∷ g ∷ h ∷ [])) (join dp_hi dp_lo)))

v2_ipv6 : Bytes → ℕ → Outcome ProxyError ProxyHeader
v2_ipv6 bytes addr_len = do
  guard (not (ltb addr_len 36)) bad_ipv6_length
  src ← slice bytes 16 32
  dst ← slice bytes 32 48
  sp_hi ← index bytes 48
  sp_lo ← index bytes 49
  dp_hi ← index bytes 50
  dp_lo ← index bytes 51
  ok (header (socket_addr (v6 src) (join sp_hi sp_lo)) (socket_addr (v6 dst) (join dp_hi dp_lo)))

-- `match family`
v2_addresses : ℕ → Bytes → ℕ → Outcome ProxyError ProxyHeader
v2_addresses family bytes addr_len =
    if family == 1
    then v2_ipv4 bytes addr_len
    else if family == 2
    then v2_ipv6 bytes addr_len
    else ok unspecified

-- The version, command and protocol nibbles are read and not used.
pub parse_v2 : Bytes → Outcome ProxyError (ProxyHeader × ℕ)
parse_v2 bytes = do
  guard (not (ltb (length bytes) 16)) short_v2
  ver_cmd ← index bytes 12
  fam_prot ← index bytes 13
  len_hi ← index bytes 14
  len_lo ← index bytes 15
  guard (not (ltb (length bytes) (16 + join len_hi len_lo))) incomplete
  h ← v2_addresses (fam_prot / 16 % 16) bytes (join len_hi len_lo)
  ok (h, 16 + join len_hi len_lo)

-- `Option` of a std parser, with the error that `?` returns
abbrev parsed {ℓ} : {A : Type ℓ} → Option A → ProxyError → Outcome ProxyError A
parsed none e = err e
parsed (some a) e = ok a

-- `parts[i]`
abbrev part : List Bytes → ℕ → Outcome ProxyError Bytes
part parts i = elim (get_elem? parts i) [ none ↦ panic | some p ↦ ok p ]

abbrev text : Bytes → Bytes → Bool
text a b = bytes_eq a b

-- "TCP4", "UDP4", "TCP6", "UDP6", "UNKNOWN"
abbrev pub tcp4 : Bytes
tcp4 = 0x54 ∷ 0x43 ∷ 0x50 ∷ 0x34 ∷ []

abbrev pub udp4 : Bytes
udp4 = 0x55 ∷ 0x44 ∷ 0x50 ∷ 0x34 ∷ []

abbrev pub tcp6 : Bytes
tcp6 = 0x54 ∷ 0x43 ∷ 0x50 ∷ 0x36 ∷ []

abbrev pub udp6 : Bytes
udp6 = 0x55 ∷ 0x44 ∷ 0x50 ∷ 0x36 ∷ []

abbrev pub unknown : Bytes
unknown = 0x55 ∷ 0x4e ∷ 0x4b ∷ 0x4e ∷ 0x4f ∷ 0x57 ∷ 0x4e ∷ []

-- The textual form of an IPv6 address is read by the standard library: `parse_ipv6`.
module _ (parse_ipv6 : Bytes → Option Bytes) where
  -- `match protocol`
  pub v1_addresses : Bytes → Bytes → Bytes → ℕ → ℕ → Outcome ProxyError ProxyHeader
  v1_addresses protocol src_ip dst_ip src_port dst_port =
      if text protocol tcp4 || text protocol udp4
      then (do
        src ← parsed (parse_ipv4 src_ip) bad_address
        dst ← parsed (parse_ipv4 dst_ip) bad_address
        ok (header (socket_addr (v4 src) src_port) (socket_addr (v4 dst) dst_port)))
      else if text protocol tcp6 || text protocol udp6
      then (do
        src ← parsed (parse_ipv6 src_ip) bad_address
        dst ← parsed (parse_ipv6 dst_ip) bad_address
        ok (header (socket_addr (v6 src) src_port) (socket_addr (v6 dst) dst_port)))
      else if text protocol unknown
      then ok unspecified
      else err (unknown_protocol protocol)

  pub v1_parts : List Bytes → Outcome ProxyError ProxyHeader
  v1_parts parts = do
    guard (not (ltb (length parts) 6)) short_v1
    protocol ← part parts 1
    src_ip ← part parts 2
    dst_ip ← part parts 3
    src ← part parts 4
    src_port ← parsed (parse_u16 src) bad_port
    dst ← part parts 5
    dst_port ← parsed (parse_u16 dst) bad_port
    v1_addresses protocol src_ip dst_ip src_port dst_port

  pub v1_line : Bytes → Outcome ProxyError ProxyHeader
  v1_line line = do guard (is_utf8 line) bad_utf8; v1_parts (split 0x20 line)

  pub parse_v1 : Bytes → Outcome ProxyError (ProxyHeader × ℕ)
  parse_v1 bytes = do
    end ← parsed (position 0x0d bytes) no_crlf
    guard (not (ltb (length bytes) (end + 2))) bad_line_end
    lf ← index bytes (end + 1)
    guard (lf == 0x0a) bad_line_end
    line ← slice bytes 0 end
    h ← v1_line line
    ok (h, end + 2)

  pub parse_proxy_protocol : Bytes → Outcome ProxyError (ProxyHeader × ℕ)
  parse_proxy_protocol bytes =
      if starts_with v1_signature bytes
      then parse_v1 bytes
      else if is_v2 bytes
      then parse_v2 bytes
      else err bad_signature
