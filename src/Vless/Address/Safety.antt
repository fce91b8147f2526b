-- ===== src/Vless/Address/Safety.antt =====
-- src/protocol/vless/address.rs: decoding of any bytes.
use xray_lite.Prelude.{ℕ, zero, suc, ◌<◌, ◌≢◌, [], ◌∷◌, length, arith}
use xray_lite.Prelude.Outcome.{Outcome, err, panic}
use xray_lite.Prelude.Bytes.{Bytes, be16}
use xray_lite.Prelude.Read.{Read, get_u8, get_u16, take_bytes}
use xray_lite.Prelude.Safe.{
  Fits, Fits-pure, Fits-fail, Fits-if, Fits-require, Fits-check, Fits-take, Takes-u8, Takes-u16,
  Takes-bytes,
}
use xray_lite.Vless.Error.{VlessError, out_of_fuel}
use xray_lite.Vless.Address.{
  Address, decode_ipv4, decode_domain, decode_ipv6, decode_mux, decode_type, decode_fuel, decode,
}

decode_ipv4-Fits : (p : ℕ) → Fits 0 (decode_ipv4 p)
unfolding decode_ipv4
decode_ipv4-Fits p =
    Fits-require 0 4 _ (Fits-take 4 4 (Takes-bytes 4) (omega arith) λ o. Fits-pure 0 _)

decode_ipv6-Fits : (p : ℕ) → Fits 0 (decode_ipv6 p)
unfolding decode_ipv6
decode_ipv6-Fits p =
    Fits-require 0 16 _ (Fits-take 16 16 (Takes-bytes 16) (omega arith) λ o. Fits-pure 0 _)

decode_domain-Fits : (p : ℕ) → Fits 0 (decode_domain p)
unfolding decode_domain
decode_domain-Fits p = Fits-require 0 1 _ (
    Fits-take 1 1 Takes-u8 (omega arith) λ len.
      Fits-require 0 len _
        (Fits-take len len (Takes-bytes len) (omega arith) λ name. Fits-check _ _ (Fits-pure _ _)))

decode_mux-Fits : (m : Read VlessError Address) → Fits 0 m → Fits 0 (decode_mux m)
unfolding decode_mux
decode_mux-Fits m h = Fits-require 0 1 _ (Fits-take 1 1 Takes-u8 (omega arith) λ sid. h)

decode_type-Fits : (t p : ℕ) (m : Read VlessError Address) → Fits 0 m → Fits 0 (decode_type t p m)
unfolding decode_type
decode_type-Fits t p m h = Fits-if _ (decode_ipv4-Fits p) (
    Fits-if _ (decode_domain-Fits p)
      (Fits-if _ (decode_ipv6-Fits p) (Fits-if _ (decode_mux-Fits m h) (Fits-fail 0 _))))

decode_fuel-Fits : (fuel : ℕ) → Fits 0 (decode_fuel fuel)
unfolding decode_fuel
decode_fuel-Fits zero = Fits-fail 0 out_of_fuel
decode_fuel-Fits (suc fuel) = Fits-require 0 3 _ (
    Fits-take 3 2 Takes-u16 (omega arith)
      λ p. Fits-take 1 1 Takes-u8 (omega arith) λ t. decode_type-Fits t p _ (decode_fuel-Fits fuel))

pub decode-Fits : Fits 0 decode
unfolding decode
decode-Fits = record { at = λ s h. (decode_fuel-Fits (suc (length s))).at s h }

abbrev Ends : Outcome VlessError Address × Bytes → Type 0
Ends r = r.0 ≢ err out_of_fuel

decode_ipv4-Ends : (p : ℕ) (s : Bytes) → Ends (decode_ipv4 p s)
unfolding decode_ipv4 take_bytes
decode_ipv4-Ends p s = ground arith

decode_ipv6-Ends : (p : ℕ) (s : Bytes) → Ends (decode_ipv6 p s)
unfolding decode_ipv6 take_bytes
decode_ipv6-Ends p s = ground arith

decode_domain-Ends : (p : ℕ) (s : Bytes) → Ends (decode_domain p s)
unfolding decode_domain take_bytes get_u8
decode_domain-Ends p [] = ground arith
decode_domain-Ends p (n ∷ s) = ground arith

decode_type-Ends :
    (t p x : ℕ) (m : Read VlessError Address) (s : Bytes)
    → Ends (m s)
    → Ends (decode_type t p m (x ∷ s))
unfolding decode_type decode_mux get_u8
decode_type-Ends t p x m s h =
    ground
      (arith, decode_ipv4-Ends p (x ∷ s), decode_ipv6-Ends p (x ∷ s), decode_domain-Ends p (x ∷ s))

decode_type-Ends_nil : (t p : ℕ) (m : Read VlessError Address) → Ends (decode_type t p m [])
unfolding decode_type decode_mux
decode_type-Ends_nil t p m =
    ground (arith, decode_ipv4-Ends p [], decode_ipv6-Ends p [], decode_domain-Ends p [])

decode_fuel_enough : (fuel : ℕ) (s : Bytes) → length s < fuel → Ends (decode_fuel fuel s)
unfolding decode_fuel get_u8 get_u16
decode_fuel_enough zero s h = absurd (omega arith)
decode_fuel_enough (suc fuel) [] h = ground arith
decode_fuel_enough (suc fuel) (a ∷ []) h = ground arith
decode_fuel_enough (suc fuel) (a ∷ b ∷ []) h = ground arith
decode_fuel_enough (suc fuel) (a ∷ b ∷ t ∷ []) h =
    ground (arith, decode_type-Ends_nil t (be16 a b) (decode_fuel fuel))
decode_fuel_enough (suc fuel) (a ∷ b ∷ t ∷ x ∷ s) h = ground (
  arith,
  decode_type-Ends t (be16 a b) x (decode_fuel fuel) s (decode_fuel_enough fuel s (omega arith)),
)

-- For every buffer, `decode` returns an address or one of the program's errors: it does not read
-- past the end, and its recursion ends.
pub decode_total : (s : Bytes) → ((decode s).0 ≢ panic) × ((decode s).0 ≢ err out_of_fuel)
unfolding decode
decode_total s = (
  (decode_fuel-Fits (suc (length s))).at s (omega arith),
  decode_fuel_enough (suc (length s)) s (omega arith),
)
