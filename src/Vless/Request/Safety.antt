-- ===== src/Vless/Request/Safety.antt =====
-- src/protocol/vless/request.rs: decoding of any bytes.
use xray_lite.Prelude.{
  ℕ, ◌≡◌, ◌≢◌, ◌∙◌, ◌≤◌, true, List, [], length, take, drop, length-take, take-append-drop, arith,
  ◌∷◌, ◌++◌,
}
use xray_lite.Prelude.Outcome.{ok, panic}
use xray_lite.Prelude.Bytes.{Bytes}
use xray_lite.Prelude.Read.{get_u8, take_bytes, advance}
use xray_lite.Prelude.Safe.{
  Fits, Fits-pure, Fits-require, Fits-check, Fits-take, Fits-bind, Fits-mono, Takes-u8, Takes-bytes,
  Takes-advance,
}
use xray_lite.Vless.Error.{}
use xray_lite.Vless.Address
use xray_lite.Vless.Address.Safety.{decode-Fits}
use xray_lite.Vless.Request.{
  Request, contains, decode, from_u8, decode_target, decode_addon, vless_version, command_code,
}

from_u8-Fits : (n value : ℕ) → Fits n (from_u8 value)
unfolding from_u8
from_u8-Fits n value = record { at = λ s h. ground arith }

decode_target-Fits : (version : ℕ) (uuid : Bytes) (n : ℕ) → Fits 0 (decode_target version uuid n)
unfolding decode_target
decode_target-Fits version uuid n = Fits-require 0 1 _ (
    Fits-take 1 1 Takes-u8 (omega arith)
      λ value. Fits-bind 0 (from_u8-Fits 0 value) λ c. Fits-bind 0 decode-Fits λ a. Fits-pure 0 _)

decode_addon-Fits : (version : ℕ) (uuid : Bytes) → Fits 1 (decode_addon version uuid)
unfolding decode_addon
decode_addon-Fits version uuid = Fits-take 1 1 Takes-u8 (omega arith) λ n. Fits-require 0 n _ (
    Fits-take n n (Takes-advance n) (omega arith)
      λ u. Fits-mono _ 0 (omega arith) (decode_target-Fits version uuid n))

decode_request-Fits : (allowed : List Bytes) → Fits 0 (decode allowed)
unfolding decode
decode_request-Fits allowed = Fits-require 0 22 _ (
    Fits-take 22 1 Takes-u8 (omega arith) λ version. Fits-check _ _ (
      Fits-take 21 16 (Takes-bytes 16) (omega arith)
        λ uuid. Fits-check _ _ (Fits-mono 5 1 (omega arith) (decode_addon-Fits version uuid))))

-- Decoding a request never panics.
pub decode_request-ne-panic : (allowed : List Bytes) (s : Bytes) → (decode allowed s).0 ≢ panic
decode_request-ne-panic allowed s = (decode_request-Fits allowed).at s (omega arith)

-- What a successful decoding read: the version, the UUID of a client in the list, any addon, the
-- command, and an address that `Address.decode` accepts.
pub record Accepts (allowed : List Bytes) (s : Bytes) (r : Request) (rest : Bytes) : Type 0 where
  pub current : r.version ≡ vless_version
  pub sixteen : length r.uuid ≡ 16
  pub known : contains allowed r.uuid ≡ true
  pub addon : Bytes
  pub counted : length addon ≡ r.addon_length
  pub target : Bytes
  pub layout :
      s ≡ r.version ∷ (r.uuid ++ (r.addon_length ∷ (addon ++ (command_code r.command ∷ target))))
  pub address : Address.decode target ≡ (ok r.address, rest)

decode_target_sound :
    (version : ℕ) (uuid : Bytes) (n : ℕ) (s : Bytes) {r : Request} {rest : Bytes}
    → decode_target version uuid n s ≡ (ok r, rest)
    → (target : Bytes) × (s ≡ command_code r.command ∷ target)
      × (Address.decode target ≡ (ok r.address, rest))
      × (r.version ≡ version)
      × (r.uuid ≡ uuid)
      × (r.addon_length ≡ n)
unfolding decode_target from_u8 get_u8
decode_target_sound version uuid n [] e = absurd (ground arith)
decode_target_sound version uuid n (x ∷ s) e =
    (s, ground arith, ground arith, ground arith, ground arith, ground arith)

decode_addon_sound :
    (version : ℕ) (uuid s : Bytes) {r : Request} {rest : Bytes}
    → decode_addon version uuid s ≡ (ok r, rest)
    → (addon : Bytes) × (target : Bytes) × (s
        ≡ r.addon_length ∷ (addon ++ (command_code r.command ∷ target)))
      × (length addon ≡ r.addon_length)
      × (Address.decode target ≡ (ok r.address, rest))
      × (r.version ≡ version)
      × (r.uuid ≡ uuid)
unfolding decode_addon get_u8 advance
decode_addon_sound version uuid [] e = absurd (ground arith)
decode_addon_sound version uuid (n ∷ s) {r} {rest} e =
    let (target, layout, address, v, u, k) =
      decode_target_sound version uuid n (drop n s) {r = r} {rest = rest} (ground arith) in
    (
      take n s,
      target,
      ground (arith, take-append-drop {0} n s),
      ground (arith, length-take {0} n s),
      address,
      v,
      u,
    )

-- The checks on the version and the UUID, and what is left to them.
decode_head :
    (allowed : List Bytes) (version : ℕ) (s : Bytes) {r : Request} {rest : Bytes}
    → decode allowed (version ∷ s) ≡ (ok r, rest)
    → (version ≡ vless_version)
      × (16 ≤ length s)
      × (contains allowed (take 16 s) ≡ true)
      × (decode_addon version (take 16 s) (drop 16 s) ≡ (ok r, rest))
unfolding decode get_u8 take_bytes
decode_head allowed version s e = ground arith

decode_nil : (allowed : List Bytes) (r : Request) (rest : Bytes) → decode allowed [] ≢ (ok r, rest)
unfolding decode
decode_nil allowed r rest e = ground arith

-- Whatever the decoder accepts has this layout: only requests of allowed clients, of version 0.
pub decode_request_sound :
    (allowed : List Bytes) (s : Bytes) (r : Request) (rest : Bytes)
    → decode allowed s ≡ (ok r, rest)
    → Accepts allowed s r rest
decode_request_sound allowed [] r rest e = absurd (decode_nil allowed r rest e)
decode_request_sound allowed (version ∷ s) r rest e =
    let (current, long, known, tail) = decode_head allowed version s e in
    let (addon, target, layout, counted, address, v, u) =
      decode_addon_sound version (take 16 s) (drop 16 s) tail in
    record {
      current = v ∙ current;
      sixteen = rw u (omega (arith, length-take {0} 16 s));
      known = rw u known;
      addon = addon;
      counted = counted;
      target = target;
      layout = cc (v, u, layout, take-append-drop {0} 16 s);
      address = address;
    }
