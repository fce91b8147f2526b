-- ===== src/ProxyProtocol/Safety.antt =====
-- src/protocol/proxy_protocol.rs on any bytes.
use xray_lite.Prelude.{
  ℕ, ◌+◌, ◌≤◌, ◌<◌, ◌≡◌, ◌≢◌, true, List, [], ◌∷◌, Option, some, length, arith, Bool-cases, inl,
  inr, Option-cases, take, leb, get_or, ◌/◌, ◌%◌,
}
use xray_lite.Prelude.Outcome.{ok, panic}
use xray_lite.Prelude.Bytes.{Bytes, be16}
use xray_lite.ProxyProtocol.Text.{position, split, starts_with, parse_u16}
use xray_lite.ProxyProtocol.{
  ProxyHeader, v2_ipv4, v2_ipv6, v2_addresses, parse_v2, v1_addresses, v1_parts, v1_line, parse_v1,
  parse_proxy_protocol, is_v2, is_proxy_protocol, v1_signature,
}

v2_ipv4-ne-panic : (bytes : Bytes) (n : ℕ) → 16 + n ≤ length bytes → v2_ipv4 bytes n ≢ panic
unfolding v2_ipv4
v2_ipv4-ne-panic bytes n h = ground arith

v2_ipv6-ne-panic : (bytes : Bytes) (n : ℕ) → 16 + n ≤ length bytes → v2_ipv6 bytes n ≢ panic
unfolding v2_ipv6
v2_ipv6-ne-panic bytes n h = ground arith

v2_addresses-ne-panic :
    (f : ℕ) (bytes : Bytes) (n : ℕ) → 16 + n ≤ length bytes → v2_addresses f bytes n ≢ panic
unfolding v2_addresses
v2_addresses-ne-panic f bytes n h =
    ground (arith, v2_ipv4-ne-panic bytes n h, v2_ipv6-ne-panic bytes n h)

parse_v2-ne-panic : (bytes : Bytes) → parse_v2 bytes ≢ panic
unfolding parse_v2
parse_v2-ne-panic bytes =
    elim (Bool-cases (leb (16 + be16 (get_or bytes 14 0) (get_or bytes 15 0)) (length bytes))) [
      | inl whole ↦ ground (
        arith,
        v2_addresses-ne-panic (get_or bytes 13 0 / 16 % 16) bytes
            (be16 (get_or bytes 14 0) (get_or bytes 15 0)) (ground arith),
      )
      | inr cut ↦ ground arith
    ]

parse_v2_consumes :
    (bytes : Bytes) {h : ProxyHeader} {n : ℕ}
    → parse_v2 bytes ≡ ok (h, n)
    → (0 < n) × (n ≤ length bytes)
unfolding parse_v2
parse_v2_consumes bytes e = ground arith

position-lt-length : (x : ℕ) (bs : Bytes) {n : ℕ} → position x bs ≡ some n → n < length bs
unfolding position
position-lt-length x [] e = absurd (ground arith)
position-lt-length x (b ∷ bs) {n} e = elim (Option-cases (position x bs)) [
  | inl none_left ↦ ground arith
  | inr (k, found) ↦ ground (arith, position-lt-length x bs found)
]

module _ (parse_ipv6 : Bytes → Option Bytes) where
  v1_addresses-ne-panic : (p s d : Bytes) (sp dp : ℕ) → v1_addresses parse_ipv6 p s d sp dp ≢ panic
  unfolding v1_addresses
  v1_addresses-ne-panic p s d sp dp = ground arith

  v1_parts-ne-panic : (parts : List Bytes) → v1_parts parse_ipv6 parts ≢ panic
  unfolding v1_parts
  v1_parts-ne-panic [] = ground arith
  v1_parts-ne-panic (a ∷ []) = ground arith
  v1_parts-ne-panic (a ∷ b ∷ []) = ground arith
  v1_parts-ne-panic (a ∷ b ∷ c ∷ []) = ground arith
  v1_parts-ne-panic (a ∷ b ∷ c ∷ d ∷ []) = ground arith
  v1_parts-ne-panic (a ∷ b ∷ c ∷ d ∷ e ∷ []) = ground arith
  v1_parts-ne-panic (a ∷ p ∷ s ∷ d ∷ x ∷ y ∷ more) = elim (Option-cases (parse_u16 x)) [
    | inl bad ↦ ground arith
    | inr (sp, good) ↦ elim (Option-cases (parse_u16 y)) [
      | inl bad ↦ ground arith
      | inr (dp, good') ↦ ground (arith, v1_addresses-ne-panic p s d sp dp)
    ]
  ]

  v1_line-ne-panic : (line : Bytes) → v1_line parse_ipv6 line ≢ panic
  unfolding v1_line
  v1_line-ne-panic line = ground (arith, v1_parts-ne-panic (split 0x20 line))

  parse_v1-ne-panic : (bytes : Bytes) → parse_v1 parse_ipv6 bytes ≢ panic
  unfolding parse_v1
  parse_v1-ne-panic bytes = elim (Option-cases (position 0x0d bytes)) [
    | inl missing ↦ ground arith
    | inr (n, found) ↦
        ground (arith, position-lt-length 0x0d bytes found, v1_line-ne-panic (take n bytes))
  ]

  parse_v1_consumes :
      (bytes : Bytes) {h : ProxyHeader} {n : ℕ}
      → parse_v1 parse_ipv6 bytes ≡ ok (h, n)
      → (0 < n) × (n ≤ length bytes)
  unfolding parse_v1
  parse_v1_consumes bytes e = ground arith

  -- Whatever the bytes, parsing a header returns one or an error of the program: no index or slice
  -- is out of range.
  pub parse_proxy_protocol-ne-panic :
      (bytes : Bytes) → parse_proxy_protocol parse_ipv6 bytes ≢ panic
  unfolding parse_proxy_protocol
  parse_proxy_protocol-ne-panic bytes =
      ground (arith, parse_v1-ne-panic bytes, parse_v2-ne-panic bytes)

  -- A header is recognised exactly by `is_proxy_protocol`, and the count of consumed bytes lies
  -- within the buffer, so that the caller's `read_buf[consumed..]` is in range.
  pub parse_consumes :
      (bytes : Bytes) {h : ProxyHeader} {n : ℕ}
      → parse_proxy_protocol parse_ipv6 bytes ≡ ok (h, n)
      → (is_proxy_protocol bytes ≡ true) × (0 < n) × (n ≤ length bytes)
  unfolding parse_proxy_protocol is_proxy_protocol
  parse_consumes bytes {h} {n} e = elim (Bool-cases (starts_with v1_signature bytes)) [
    | inl text ↦ ground (arith, parse_v1_consumes bytes {h = h} {n = n} (ground arith))
    | inr other ↦ elim (Bool-cases (is_v2 bytes)) [
      | inl binary ↦ ground (arith, parse_v2_consumes bytes {h = h} {n = n} (ground arith))
      | inr none_of_them ↦ absurd (ground arith)
    ]
  ]
