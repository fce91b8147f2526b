-- ===== src/Reality/Crypto/Protection.antt =====
-- src/transport/reality/crypto.rs: sealing and opening of records.
use xray_lite.Prelude.{
  ℕ, zero, suc, ◌+◌, ◌-◌, ◌≤◌, ◌<◌, ◌≡◌, ◌≢◌, refl, Option, some, [], ◌∷◌, ◌++◌, length, get_or,
  ◌==◌, arith, length-append, length-replicate, replicate, Bool-cases, Option-cases, inl, inr,
}
use xray_lite.Prelude.Outcome.{ok}
use xray_lite.Prelude.Bytes.{Bytes}
use xray_lite.Reality.Crypto.{
  TlsKeys, nonce, scan_idx, content_of, record_header, encrypt_server_record, decrypt_client_record,
}

get_or-append : (xs : Bytes) (y : ℕ) (ys : Bytes) → get_or (xs ++ y ∷ ys) (length xs) 0 ≡ y
get_or-append [] y ys = refl
get_or-append (x ∷ xs) y ys = get_or-append xs y ys

get_or-zeros : (i k : ℕ) → get_or (replicate {A = ℕ} k 0) i 0 ≡ 0
get_or-zeros i zero = refl
get_or-zeros zero (suc k) = refl
get_or-zeros (suc i) (suc k) = get_or-zeros i k

get_or-padding : (xs : Bytes) (y n k : ℕ) → length xs < n → get_or (xs ++ y ∷ replicate k 0) n 0 ≡ 0
get_or-padding xs y zero k h = absurd (omega arith)
get_or-padding [] y (suc n) k h = get_or-zeros n k
get_or-padding (x ∷ xs) y (suc n) k h = get_or-padding xs y n k (omega arith)

-- Where the scan starts at or behind the content type, it stops on it.
scan_idx-padding :
    (content : Bytes) (content_type k n : ℕ)
    → content_type ≢ 0
    → length content ≤ n
    → scan_idx n (content ++ content_type ∷ replicate k 0) ≡ length content
unfolding scan_idx
scan_idx-padding content t k zero h l = omega arith
scan_idx-padding content t k (suc n) h l = elim (Bool-cases (length content == suc n)) [
  | inl at ↦ ground (arith, get_or-append content t (replicate k 0), h)
  | inr behind ↦ ground (
    arith,
    get_or-padding content t (suc n) k (ground arith),
    scan_idx-padding content t k n h (ground arith),
  )
]

-- The padding of a record is dropped, whatever its length: the content type is the last byte that is
-- not zero, and the content is all before it.
pub content_of-padding :
    (content : Bytes) (content_type k : ℕ)
    → content_type ≢ 0
    → content_of (content ++ content_type ∷ replicate k 0) ≡ ok (content_type, length content)
unfolding content_of
content_of-padding content t k h = ground (
  arith,
  length-append {0} content (t ∷ replicate k 0),
  length-replicate {0} {A = ℕ} k 0,
  scan_idx-padding content t k (length (content ++ t ∷ replicate k 0) - 1) h
      (omega (arith, length-append {0} content (t ∷ replicate k 0))),
  get_or-append content t (replicate k 0),
)

-- A record that one side sealed is opened by the other side, under the same key, iv and sequence
-- number: its header holds the low 16 bits of its length, and the content type, which is not 0, and
-- the content come out again. The AEAD is any one that opens what it sealed.
pub decrypt-encrypt_record :
    {Key : Type 0} (seal open_in_place : Key → Bytes → Bytes → Bytes → Option Bytes) (tag_len : ℕ)
    → ((key : Key) (n aad plain sealed : Bytes)
        → seal key n aad plain ≡ some sealed
        → (open_in_place key n aad sealed ≡ some plain) × (length sealed ≡ length plain + tag_len))
    → (sender receiver : TlsKeys Key) (seq : ℕ) (plaintext : Bytes) (content_type : ℕ)
      (wire : Bytes)
    → sender.server_write_key ≡ receiver.client_write_key
    → sender.server_iv ≡ receiver.client_iv
    → content_type ≢ 0
    → encrypt_server_record seal tag_len sender seq plaintext content_type ≡ ok wire
    → (sealed : Bytes) × (wire ≡ record_header (length sealed) ++ sealed)
      × (decrypt_client_record open_in_place receiver seq (record_header (length sealed)) sealed
          ≡ ok (content_type, length plaintext, plaintext ++ content_type ∷ []))
unfolding encrypt_server_record decrypt_client_record
decrypt-encrypt_record seal unseal tag_len law sender receiver seq plaintext t wire ek ei ht e =
    let buffer = plaintext ++ t ∷ [] in
    let header = record_header (length buffer + tag_len) in
    let n = nonce sender.server_iv seq in
    elim (Option-cases (seal sender.server_write_key n header buffer)) [
      | inl failed ↦ absurd (ground (arith, failed))
      | inr (sealed, done) ↦
          let (opens, len) = law sender.server_write_key n header buffer sealed done in
          (
            sealed,
            ground (arith, done, len),
            ground (arith, opens, len, ek, ei, content_of-padding plaintext t 0 ht),
          )
    ]
