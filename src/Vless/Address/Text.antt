-- ===== src/Vless/Address/Text.antt =====
-- Address::to_string of src/protocol/vless/address.rs: the text by which a target is looked up. The
-- text of an IPv6 address, which the standard library writes, is a parameter.
use xray_lite.Prelude.{ℕ, zero, suc, ◌+◌, ◌/◌, ◌%◌, [], ◌∷◌, ◌++◌, ◌==◌, if◌then◌else◌, ◌≡◌, refl}
use xray_lite.Prelude.Bytes.{Bytes}
use xray_lite.Vless.Address.{Address, ipv4, ipv6, domain}

-- `{}` of a number: its decimal digits, the last one first in the recursion.
decimal_digits : ℕ → ℕ → Bytes → Bytes
decimal_digits zero n text = text
decimal_digits (suc fuel) n text =
    let longer = decimal_digits fuel (n / 10) ((0x30 + n % 10) ∷ text) in
    if n / 10 == 0 then (0x30 + n % 10) ∷ text else longer

-- A u16 has five digits at most.
unfoldable pub decimal : ℕ → Bytes
unfolding decimal_digits
decimal n = decimal_digits 5 n []

-- `{}` of an IPv4 address: its octets between dots.
unfoldable pub show_ipv4 : Bytes → Bytes
show_ipv4 [] = []
show_ipv4 (a ∷ []) = decimal a
show_ipv4 (a ∷ b ∷ octets) = decimal a ++ (0x2e ∷ show_ipv4 (b ∷ octets))

unfoldable pub to_string : (Bytes → Bytes) → Address → Bytes
to_string show_ipv6 (ipv4 ip port) = show_ipv4 ip ++ (0x3a ∷ decimal port)
to_string show_ipv6 (ipv6 ip port) = 0x5b ∷ (show_ipv6 ip ++ (0x5d ∷ 0x3a ∷ decimal port))
to_string show_ipv6 (domain name port) = name ++ (0x3a ∷ decimal port)

local_port_text : decimal 8080 ≡ 0x38 ∷ 0x30 ∷ 0x38 ∷ 0x30 ∷ []
unfolding decimal
local_port_text = refl
