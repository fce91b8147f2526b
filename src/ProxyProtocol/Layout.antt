-- ===== src/ProxyProtocol/Layout.antt =====
-- src/protocol/proxy_protocol.rs: the layout of the binary header.
use xray_lite.Prelude.{
  ℕ, Option, ◌+◌, ◌≤◌, ◌<◌, ◌≡◌, ◌/◌, ◌%◌, [], ◌∷◌, ◌++◌, length, arith, length-append,
}
use xray_lite.Prelude.Outcome.{ok}
use xray_lite.Prelude.Bytes.{Bytes, IsU16, put_u16}
use xray_lite.ProxyProtocol.{
  header, socket_addr, v4, v2_ipv4, v2_addresses, parse_v2, parse_proxy_protocol, is_v2,
  v2_signature,
}
use xray_lite.ProxyProtocol.Text.{starts_with}

-- The body of an IPv4 header: two addresses, two ports, and further fields.
abbrev pub ipv4_body : (a b c d e f g h sp dp : ℕ) → Bytes → Bytes
ipv4_body a b c d e f g h sp dp more =
    a ∷ b ∷ c ∷ d ∷ e ∷ f ∷ g ∷ h ∷ put_u16 sp ++ (put_u16 dp ++ more)

-- A version 2 header as a load balancer writes it: signature, version and command, family and
-- protocol, length, body.
abbrev pub v2_header : ℕ → ℕ → Bytes → Bytes
v2_header ver_cmd fam_prot body =
    v2_signature ++ (ver_cmd ∷ fam_prot ∷ put_u16 (length body) ++ body)

v2_ipv4_reads :
    (vc fp l1 l2 a b c d e f g h sp dp n : ℕ) (more : Bytes)
    → 12 ≤ n
    → IsU16 sp
    → IsU16 dp
    → v2_ipv4 (v2_signature ++ (vc ∷ fp ∷ l1 ∷ l2 ∷ ipv4_body a b c d e f g h sp dp more)) n
      ≡ ok (
          header
            (socket_addr (v4 (a ∷ b ∷ c ∷ d ∷ [])) sp)
            (socket_addr (v4 (e ∷ f ∷ g ∷ h ∷ [])) dp))
unfolding v2_ipv4
v2_ipv4_reads vc fp l1 l2 a b c d e f g h sp dp n more k p q = ground arith

-- An IPv4 header, with anything behind it, is read in full: the addresses and ports that it holds,
-- and the number of bytes that it takes.
pub parse-v2_header :
    (parse_ipv6 : Bytes → Option Bytes) (vc fp a b c d e f g h sp dp : ℕ) (more rest : Bytes)
    → fp / 16 % 16 ≡ 1
    → IsU16 sp
    → IsU16 dp
    → 12 + length more < 65536
    → parse_proxy_protocol parse_ipv6
        (v2_header vc fp (ipv4_body a b c d e f g h sp dp more) ++ rest)
      ≡ ok (
        header
            (socket_addr (v4 (a ∷ b ∷ c ∷ d ∷ [])) sp)
            (socket_addr (v4 (e ∷ f ∷ g ∷ h ∷ [])) dp),
        28 + length more,
      )
unfolding parse_proxy_protocol parse_v2 v2_addresses starts_with is_v2
parse-v2_header p6 vc fp a b c d e f g h sp dp more rest fam hs hd hl = ground (
  arith,
  v2_ipv4_reads vc fp ((12 + length more) / 256 % 256) ((12 + length more) % 256) a b c d e f g h sp
      dp (12 + length more) (more ++ rest) (omega arith) hs hd,
  length-append more rest,
)
