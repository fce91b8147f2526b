-- ===== src/Reality/Crypto.antt =====
-- src/transport/reality/crypto.rs: the key schedule and the protection of records. The primitives of
-- `ring` are parameters: HMAC, HKDF extract and expand, AEAD seal and open, and the making of AEAD keys.
pub mod Tests
pub mod Protection
pub mod Schedule
use xray_lite.Prelude.{
  ℕ, zero, suc, ◌+◌, ◌-◌, ◌/◌, ◌%◌, ◌^◌, Bool, true, false, Option, none, some, List, [], ◌∷◌, ◌++◌,
  length, take, get_or, ltb, ◌==◌, if◌then◌else◌,
}
use xray_lite.Prelude.Outcome.{Outcome, ok, err, panic, ◌>>=◌}
use xray_lite.Prelude.Bytes.{Bytes, as_u8, put_u16, put_u32, with_index}
use Prim.Native.Nat.{bit_xor}

pub data CryptoError : Type 0 where
  encrypt_fail decryption_failed empty_plaintext hkdf_expand_failed : CryptoError
  expand_limit unbound_key_failed public_key_length : CryptoError

pub record TlsKeys (Key : Type 0) : Type 0 where
  pub client_write_key : Key
  pub server_write_key : Key
  pub client_iv : Bytes
  pub server_iv : Bytes
  pub client_traffic_secret : Bytes
  pub server_traffic_secret : Bytes

-- `seq.to_be_bytes()`, of a u64
abbrev pub put_u64 : ℕ → Bytes
put_u64 n = put_u32 (n / 2 ^ 32) ++ put_u32 n

abbrev pub xor_bytes : Bytes → Bytes → Bytes
xor_bytes [] ys = []
xor_bytes (x ∷ xs) [] = []
xor_bytes (x ∷ xs) (y ∷ ys) = bit_xor x y ∷ xor_bytes xs ys

-- The iv against the sequence number, padded in front to 12 bytes.
abbrev pub nonce : Bytes → ℕ → Bytes
nonce iv seq = xor_bytes iv (0 ∷ 0 ∷ 0 ∷ 0 ∷ put_u64 seq)

abbrev or_err : {A : Type 0} → CryptoError → Option A → Outcome CryptoError A
or_err e none = err e
or_err e (some a) = ok a

-- `while scan_idx > 0 && ciphertext[scan_idx] == 0 { scan_idx -= 1; }`, from an index in range
unfoldable pub scan_idx : ℕ → Bytes → ℕ
scan_idx zero plain = 0
scan_idx (suc i) plain =
    let rest = scan_idx i plain in if get_or plain (suc i) 0 == 0 then rest else suc i

-- The content type and the length of the content in an opened record.
unfoldable pub content_of : Bytes → Outcome CryptoError (ℕ × ℕ)
content_of plain =
    if length plain == 0
    then err empty_plaintext
    else with_index plain (scan_idx (length plain - 1) plain)
        λ content_type. ok (content_type, scan_idx (length plain - 1) plain)

abbrev pub record_header : ℕ → Bytes
record_header encrypted_len = 23 ∷ 0x03 ∷ 0x03 ∷ put_u16 encrypted_len

module _ {Key : Type 0} (seal : Key → Bytes → Bytes → Bytes → Option Bytes) (tag_len : ℕ) where
  unfoldable pub encrypt_server_record : TlsKeys Key → ℕ → Bytes → ℕ → Outcome CryptoError Bytes
  encrypt_server_record keys seq plaintext content_type = do
    let buffer = plaintext ++ content_type ∷ []
    let header = record_header (length buffer + tag_len)
    sealed ←
        or_err encrypt_fail (seal keys.server_write_key (nonce keys.server_iv seq) header buffer)
    ok (header ++ sealed)

-- The opened bytes, which the source leaves at the front of `ciphertext`, come with the result.
module _ {Key : Type 0} (open_in_place : Key → Bytes → Bytes → Bytes → Option Bytes) where
  unfoldable pub decrypt_client_record :
      TlsKeys Key → ℕ → Bytes → Bytes → Outcome CryptoError (ℕ × ℕ × Bytes)
  unfolding content_of
  decrypt_client_record keys seq header ciphertext = do
    plain ←
        or_err decryption_failed
          (open_in_place keys.client_write_key (nonce keys.client_iv seq) header ciphertext)
    found ← content_of plain
    ok (found.0, found.1, plain)

-- "tls13 "
abbrev label_prefix : Bytes
label_prefix = 0x74 ∷ 0x6c ∷ 0x73 ∷ 0x31 ∷ 0x33 ∷ 0x20 ∷ []

-- The HkdfLabel that both expansions hand on.
unfoldable pub label_info : Bytes → Bytes → ℕ → Bytes
label_info label context len =
    put_u16 len
    ++ (as_u8 (length (label_prefix ++ label))
        ∷ ((label_prefix ++ label) ++ (as_u8 (length context) ∷ context)))

-- SHA-256 of the empty message
abbrev pub hash_empty : Bytes
hash_empty =
    0xe3 ∷ 0xb0 ∷ 0xc4 ∷ 0x42 ∷ 0x98 ∷ 0xfc ∷ 0x1c ∷ 0x14 ∷ 0x9a ∷ 0xfb ∷ 0xf4 ∷ 0xc8 ∷ 0x99 ∷ 0x6f
    ∷ 0xb9 ∷ 0x24 ∷ 0x27 ∷ 0xae ∷ 0x41 ∷ 0xe4 ∷ 0x64 ∷ 0x9b ∷ 0x93 ∷ 0x4c ∷ 0xa4 ∷ 0x95 ∷ 0x99
    ∷ 0x1b ∷ 0x78 ∷ 0x52 ∷ 0xb8 ∷ 0x55 ∷ []

module _ (sign : Bytes → Bytes → Bytes) where
  -- One block of HKDF-Expand.
  unfoldable pub manual_hkdf_expand : Bytes → Bytes → ℕ → Outcome CryptoError Bytes
  manual_hkdf_expand secret info len =
      if ltb 32 len then err expand_limit else ok (take len (sign secret (info ++ 0x01 ∷ [])))

  unfoldable pub expand_label_raw : Bytes → Bytes → Bytes → ℕ → Outcome CryptoError Bytes
  unfolding manual_hkdf_expand label_info
  expand_label_raw secret label context len =
      manual_hkdf_expand secret (label_info label context len) len

  -- "finished"
  unfoldable pub calculate_verify_data : Bytes → Bytes → Outcome CryptoError Bytes
  unfolding expand_label_raw
  calculate_verify_data traffic_secret handshake_hash = do
    finished_key ←
        expand_label_raw traffic_secret (0x66 ∷ 0x69 ∷ 0x6e ∷ 0x69 ∷ 0x73 ∷ 0x68 ∷ 0x65 ∷ 0x64 ∷ [])
          [] 32
    ok (sign finished_key handshake_hash)

  module _ {Key : Type 0} (unbound_key : Bytes → Option Key) where
    -- "key" and "iv"
    unfoldable pub derive_key_iv : Bytes → Outcome CryptoError (Key × Bytes)
    unfolding expand_label_raw
    derive_key_iv secret = do
      key_bytes ← expand_label_raw secret (0x6b ∷ 0x65 ∷ 0x79 ∷ []) [] 16
      key ← or_err unbound_key_failed (unbound_key key_bytes)
      iv ← expand_label_raw secret (0x69 ∷ 0x76 ∷ []) [] 12
      ok (key, iv)

    -- Both sides' keys, from their traffic secrets.
    unfoldable pub keys_of : Bytes → Bytes → Outcome CryptoError (TlsKeys Key)
    unfolding derive_key_iv
    keys_of client_secret server_secret = do
      client ← derive_key_iv client_secret
      server ← derive_key_iv server_secret
      ok (record {
        client_write_key = client.0;
        server_write_key = server.0;
        client_iv = client.1;
        server_iv = server.1;
        client_traffic_secret = client_secret;
        server_traffic_secret = server_secret;
      })

    module _ {Prk : Type 0} (extract : Bytes → Bytes → Prk)
        (expand : Prk → Bytes → ℕ → Option Bytes) where
      unfoldable pub expand_label : Prk → Bytes → Bytes → ℕ → Outcome CryptoError Bytes
      unfolding label_info
      expand_label prk label context len =
          or_err hkdf_expand_failed (expand prk (label_info label context len) len)

      -- "derived"
      abbrev pub derived : Bytes
      derived = 0x64 ∷ 0x65 ∷ 0x72 ∷ 0x69 ∷ 0x76 ∷ 0x65 ∷ 0x64 ∷ []

      -- "c hs traffic" and its three kin: a side, a space, a phase, and " traffic"
      abbrev pub traffic : ℕ → ℕ → ℕ → Bytes
      traffic side a b =
          side ∷ 0x20 ∷ a ∷ b ∷ 0x20 ∷ 0x74 ∷ 0x72 ∷ 0x61 ∷ 0x66 ∷ 0x66 ∷ 0x69 ∷ 0x63 ∷ []

      abbrev pub zeros : Bytes
      zeros =
          0 ∷ 0 ∷ 0 ∷ 0 ∷ 0 ∷ 0 ∷ 0 ∷ 0 ∷ 0 ∷ 0 ∷ 0 ∷ 0 ∷ 0 ∷ 0 ∷ 0 ∷ 0 ∷ 0 ∷ 0 ∷ 0 ∷ 0 ∷ 0 ∷ 0 ∷ 0
          ∷ 0 ∷ 0 ∷ 0 ∷ 0 ∷ 0 ∷ 0 ∷ 0 ∷ 0 ∷ 0 ∷ []

      unfoldable pub derive_handshake_keys : Bytes → Bytes → Outcome CryptoError (TlsKeys Key × Prk)
      unfolding expand_label keys_of
      derive_handshake_keys shared_secret hello_hash = do
        let early_secret = extract zeros zeros
        derived_secret ← expand_label early_secret derived hash_empty 32
        let handshake_secret = extract derived_secret shared_secret
        client_hs_secret ← expand_label handshake_secret (traffic 0x63 0x68 0x73) hello_hash 32
        server_hs_secret ← expand_label handshake_secret (traffic 0x73 0x68 0x73) hello_hash 32
        keys ← keys_of client_hs_secret server_hs_secret
        ok (keys, handshake_secret)

      unfoldable pub derive_application_keys : Prk → Bytes → Outcome CryptoError (TlsKeys Key)
      unfolding expand_label keys_of
      derive_application_keys handshake_secret handshake_hash = do
        derived_secret ← expand_label handshake_secret derived hash_empty 32
        let master_secret = extract derived_secret zeros
        client_app_secret ← expand_label master_secret (traffic 0x63 0x61 0x70) handshake_hash 32
        server_app_secret ← expand_label master_secret (traffic 0x73 0x61 0x70) handshake_hash 32
        keys_of client_app_secret server_app_secret

-- `RealityCrypto`: an X25519 secret; the curve is a parameter.
module _ {Secret : Type 0} (diffie_hellman : Secret → Bytes → Bytes) where
  unfoldable pub derive_shared_secret : Secret → Bytes → Outcome CryptoError Bytes
  derive_shared_secret my_secret peer_public =
      if length peer_public == 32
      then ok (diffie_hellman my_secret peer_public)
      else err public_key_length
