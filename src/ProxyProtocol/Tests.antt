-- ===== src/ProxyProtocol/Tests.antt =====
-- A header for runs of the server, and a parser of IPv6 text.
use xray_lite.Prelude.{Option, none, [], ◌∷◌, ◌++◌}
use xray_lite.Prelude.Bytes.{Bytes}
use xray_lite.ProxyProtocol.Layout.{v2_header, ipv4_body}

-- An IPv6 parser that knows no address.
abbrev pub no_ipv6 : Bytes → Option Bytes
no_ipv6 text = none

abbrev pub balanced : Bytes
balanced = v2_header 0x21 0x11 (ipv4_body 10 0 0 1 10 0 0 2 4660 443 []) ++ 22 ∷ 3 ∷ []
