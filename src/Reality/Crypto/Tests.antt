-- ===== src/Reality/Crypto/Tests.antt =====
-- Runs of the record protection, with small stand-ins for the cryptography.
use xray_lite.Prelude.{
  ℕ, ◌+◌, ◌≡◌, refl, Option, none, some, [], ◌∷◌, ◌++◌, length, replicate, arith,
}
use xray_lite.Prelude.Outcome.{ok}
use xray_lite.Prelude.Bytes.{Bytes}
use xray_lite.Reality.Crypto.{TlsKeys, encrypt_server_record, decrypt_client_record, record_header}
use xray_lite.Reality.Crypto.Protection.{decrypt-encrypt_record}

-- An HMAC of 32 bytes, and an AEAD whose tag is one byte in front.
abbrev pub sign : Bytes → Bytes → Bytes
sign key message = replicate 32 (length message)

pub sign-length : (key message : Bytes) → length (sign key message) ≡ 32
sign-length key message = refl

abbrev pub seal : ℕ → Bytes → Bytes → Bytes → Option Bytes
seal key n aad plain = some (170 ∷ plain)

abbrev pub unseal : ℕ → Bytes → Bytes → Bytes → Option Bytes
unseal key n aad [] = none
unseal key n aad (t ∷ plain) = some plain

pub seal-law :
    (key : ℕ) (n aad plain sealed : Bytes)
    → seal key n aad plain ≡ some sealed
    → (unseal key n aad sealed ≡ some plain) × (length sealed ≡ length plain + 1)
seal-law key n aad plain [] e = absurd (ground arith)
seal-law key n aad plain (t ∷ sealed) e = (ground arith, ground arith)

abbrev pub iv : Bytes
iv = replicate 12 3

abbrev pub keys : TlsKeys ℕ
keys = record {
  client_write_key = 1;
  server_write_key = 1;
  client_iv = iv;
  server_iv = iv;
  client_traffic_secret = [];
  server_traffic_secret = [];
}

-- The protected record of "hi".
abbrev pub wire_hi : Bytes
wire_hi = 23 ∷ 3 ∷ 3 ∷ 0 ∷ 4 ∷ 170 ∷ 104 ∷ 105 ∷ 23 ∷ []

pub hi_sealed : encrypt_server_record seal 1 keys 0 (104 ∷ 105 ∷ []) 23 ≡ ok wire_hi
unfolding encrypt_server_record
hi_sealed = refl

decrypt-encrypt_record_example :
    (sealed : Bytes) × (wire_hi ≡ record_header (length sealed) ++ sealed)
    × (decrypt_client_record unseal keys 0 (record_header (length sealed)) sealed
        ≡ ok (23, 2, (104 ∷ 105 ∷ []) ++ 23 ∷ []))
decrypt-encrypt_record_example =
    decrypt-encrypt_record seal unseal 1 seal-law keys keys 0 (104 ∷ 105 ∷ []) 23 wire_hi refl refl
      (λ p. omega (arith, p)) hi_sealed
