-- ===== src/ProxyProtocol/Text.antt =====
-- The parts of the standard library that the text header goes through: searching and splitting
-- bytes, and the decimal forms of a u16 and of an IPv4 address.
use xray_lite.Prelude.{
  ℕ, zero, suc, ◌+◌, ◌*◌, ◌-◌, ◌≡◌, refl, Bool, true, false, ◌&&◌, ◌||◌, List, [], ◌∷◌, Option,
  none, some, length, ltb, leb, ◌==◌, if◌then◌else◌,
}
use xray_lite.Prelude.Bytes.{Bytes}

-- `iter().position(|&b| b == x)`
unfoldable pub position : ℕ → Bytes → Option ℕ
position x [] = none
position x (b ∷ bs) =
    let later = position x bs in
    if b == x then some zero else elim later [ none ↦ none | some n ↦ some (suc n) ]

-- `starts_with`
unfoldable pub starts_with : Bytes → Bytes → Bool
starts_with [] bs = true
starts_with (x ∷ xs) [] = false
starts_with (x ∷ xs) (b ∷ bs) = x == b && starts_with xs bs

prepend : ℕ → List Bytes → List Bytes
prepend b [] = (b ∷ []) ∷ []
prepend b (part ∷ parts) = (b ∷ part) ∷ parts

-- `split(sep).collect()`: there is always one part at least.
unfoldable pub split : ℕ → Bytes → List Bytes
unfolding prepend
split sep [] = [] ∷ []
split sep (b ∷ bs) = let rest = split sep bs in if b == sep then [] ∷ rest else prepend b rest

abbrev pub is_digit : ℕ → Bool
is_digit b = leb 0x30 b && leb b 0x39

-- Decimal digits, each result checked against `limit`.
digits : ℕ → ℕ → Bytes → Option ℕ
digits limit acc [] = some acc
digits limit acc (b ∷ bs) =
    let next = acc * 10 + (b - 0x30) in
    let rest = digits limit next bs in if is_digit b && leb next limit then rest else none

-- `str::parse::<u16>`: one leading `+` is accepted, and there must be a digit.
unfoldable pub parse_u16 : Bytes → Option ℕ
unfolding digits
parse_u16 [] = none
parse_u16 (b ∷ []) = if is_digit b then some (b - 0x30) else none
parse_u16 (b ∷ c ∷ bs) = if b == 0x2b then digits 65535 0 (c ∷ bs) else digits 65535 0 (b ∷ c ∷ bs)

-- One octet: one to three digits, at most 255, and no leading zero.
unfoldable pub parse_octet : Bytes → Option ℕ
unfolding digits
parse_octet [] = none
parse_octet (b ∷ []) = digits 255 0 (b ∷ [])
parse_octet (b ∷ c ∷ bs) =
    if b == 0x30 || ltb 3 (length (b ∷ c ∷ bs)) then none else digits 255 0 (b ∷ c ∷ bs)

four_octets : Option ℕ → Option ℕ → Option ℕ → Option ℕ → Option Bytes
four_octets (some a) (some b) (some c) (some d) = some (a ∷ b ∷ c ∷ d ∷ [])
four_octets _ _ _ _ = none

ipv4_of : List Bytes → Option Bytes
unfolding four_octets
ipv4_of (a ∷ b ∷ c ∷ d ∷ []) =
    four_octets (parse_octet a) (parse_octet b) (parse_octet c) (parse_octet d)
ipv4_of _ = none

-- `str::parse::<Ipv4Addr>`: four octets between dots.
unfoldable pub parse_ipv4 : Bytes → Option Bytes
unfolding ipv4_of parse_octet split
parse_ipv4 bs = ipv4_of (split 0x2e bs)

parse_ipv4_text :
    parse_ipv4 (0x31 ∷ 0x30 ∷ 0x2e ∷ 0x30 ∷ 0x2e ∷ 0x30 ∷ 0x2e ∷ 0x31 ∷ [])
    ≡ some (10 ∷ 0 ∷ 0 ∷ 1 ∷ [])
unfolding parse_ipv4
parse_ipv4_text = refl

parse_u16_limits :
    (parse_u16 (0x36 ∷ 0x35 ∷ 0x35 ∷ 0x33 ∷ 0x36 ∷ []) ≡ none)
    × (parse_u16 (0x2b ∷ 0x38 ∷ 0x30 ∷ []) ≡ some 80)
unfolding parse_u16
parse_u16_limits = (refl, refl)
