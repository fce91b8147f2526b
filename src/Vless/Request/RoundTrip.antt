-- ===== src/Vless/Request/RoundTrip.antt =====
-- src/protocol/vless/request.rs: decoding of what was encoded.
use xray_lite.Prelude.{
  ℕ, ◌≤◌, ◌≡◌, true, List, ◌∷◌, ◌++◌, length, length-append, arith, append_assoc,
}
use xray_lite.Prelude.Outcome.{ok}
use xray_lite.Prelude.Bytes.{Bytes}
use xray_lite.Prelude.Read.{get_u8, take_bytes, advance, take_bytes-append}
use xray_lite.Vless.Error.{VlessError}
use xray_lite.Vless.Address
use xray_lite.Vless.Address.{Address, ipv4, ipv6, domain}
use xray_lite.Vless.Address.RoundTrip.{decode-encode}
use xray_lite.Vless.Request.{
  Request, contains, decode, encode, from_u8, decode_addon, decode_target, command_code, IsValid,
}

length-encode : (a : Address) → Address.IsValid a → 4 ≤ length (Address.encode a)
unfolding Address.encode
length-encode (ipv4 ip p) (len, hp) = omega arith
length-encode (ipv6 ip p) (len, hp) = omega arith
length-encode (domain name p) h = omega arith

take_exact :
    (n : ℕ) (xs s : Bytes) → length xs ≡ n → take_bytes {E = VlessError} n (xs ++ s) ≡ (ok xs, s)
take_exact n xs s h = rw (← h) (take_bytes-append xs s)

-- The part of a request behind its UUID.
pub decode-encode_request :
    (allowed : List Bytes) (r : Request) (rest : Bytes)
    → IsValid r
    → contains allowed r.uuid ≡ true
    → decode allowed (encode r ++ rest) ≡ (ok r, rest)
unfolding decode decode_addon decode_target from_u8 encode get_u8 advance
decode-encode_request allowed r rest v known = ground (
  arith,
  take_exact 16 r.uuid ((0 ∷ command_code r.command ∷ Address.encode r.address) ++ rest) v.sixteen,
  decode-encode r.address rest v.address,
  length-append r.uuid ((0 ∷ command_code r.command ∷ Address.encode r.address) ++ rest),
  length-append (Address.encode r.address) rest,
  length-encode r.address v.address,
  append_assoc r.uuid (0 ∷ command_code r.command ∷ Address.encode r.address) rest,
)
