-- ===== src/Reality/Crypto/Schedule.antt =====
-- src/transport/reality/crypto.rs: the key schedule on an HMAC of 32 bytes.
use xray_lite.Prelude.{
  ℕ, ◌+◌, ◌≤◌, ◌≡◌, refl, Option, some, [], ◌∷◌, ◌++◌, length, take, arith, length-take,
}
use xray_lite.Prelude.Outcome.{ok, err, IsOk, IsOk->>=}
use xray_lite.Prelude.Bytes.{Bytes}
use xray_lite.Reality.Crypto.{
  expand_label_raw, derive_key_iv, expand_limit, label_info, keys_of, expand_label,
  derive_handshake_keys, calculate_verify_data, derived, traffic, zeros, hash_empty,
  derive_application_keys,
}

module _ (sign : Bytes → Bytes → Bytes)
    (sign-length : (key message : Bytes) → length (sign key message) ≡ 32) where
  -- Up to 32 bytes are expanded, and just as many as were asked for; more are refused.
  pub expand_label_raw_lem :
      (secret label context : Bytes) (len : ℕ)
      → (len ≤ 32
          → (out : Bytes) × (expand_label_raw sign secret label context len ≡ ok out)
            × (length out ≡ len))
        × (32 + 1 ≤ len → expand_label_raw sign secret label context len ≡ err expand_limit)
  unfolding expand_label_raw
  expand_label_raw_lem secret label context len =
      let block = sign secret (label_info label context len ++ 0x01 ∷ []) in
      (
        λ h. (
          take len block,
          ground arith,
          omega (
            arith,
            length-take {0} len block,
            sign-length secret (label_info label context len ++ 0x01 ∷ []),
          ),
        ),
        λ h. ground arith,
      )

  -- A traffic secret gives a key and an iv of 12 bytes, as long as the AEAD makes a key of every 16 bytes.
  pub derive_key_iv_lem :
      {Key : Type 0} (unbound_key : Bytes → Option Key)
      → ((bytes : Bytes) → length bytes ≡ 16 → (key : Key) × (unbound_key bytes ≡ some key))
      → (secret : Bytes)
      → (key : Key) × (iv : Bytes) × (derive_key_iv sign unbound_key secret ≡ ok (key, iv))
        × (length iv ≡ 12)
  unfolding derive_key_iv
  derive_key_iv_lem unbound_key law secret =
      let key_block = sign secret (label_info (0x6b ∷ 0x65 ∷ 0x79 ∷ []) [] 16 ++ 0x01 ∷ []) in
      let iv_block = sign secret (label_info (0x69 ∷ 0x76 ∷ []) [] 12 ++ 0x01 ∷ []) in
      let len16 = sign-length secret (label_info (0x6b ∷ 0x65 ∷ 0x79 ∷ []) [] 16 ++ 0x01 ∷ []) in
      let len12 = sign-length secret (label_info (0x69 ∷ 0x76 ∷ []) [] 12 ++ 0x01 ∷ []) in
      let (key, made) =
        law (take 16 key_block) (omega (arith, length-take {0} 16 key_block, len16)) in
      (
        key,
        take 12 iv_block,
        ground (arith, made),
        omega (arith, length-take {0} 12 iv_block, len12),
      )

  -- The verify data of a Finished are always computed.
  pub calculate_verify_data_lem :
      (secret hash : Bytes)
      → (data_ : Bytes) × (calculate_verify_data sign secret hash ≡ ok data_) × (length data_ ≡ 32)
  unfolding calculate_verify_data
  calculate_verify_data_lem secret hash =
      let label : Bytes = 0x66 ∷ 0x69 ∷ 0x6e ∷ 0x69 ∷ 0x73 ∷ 0x68 ∷ 0x65 ∷ 0x64 ∷ [] in
      let (key, made, len) = (expand_label_raw_lem secret label [] 32).0 (omega arith) in
      (sign key hash, ground (arith, made), sign-length key hash)

  module _ {Key : Type 0} (unbound_key : Bytes → Option Key)
      (keys-law : (bytes : Bytes)
        → length bytes ≡ 16
        → (key : Key) × (unbound_key bytes ≡ some key)) where
    keys_of-IsOk :
        (client_secret server_secret : Bytes)
        → IsOk (keys_of sign unbound_key client_secret server_secret)
    unfolding keys_of
    keys_of-IsOk client_secret server_secret =
        let (k, iv, made, len) = derive_key_iv_lem unbound_key keys-law client_secret in
        let (k', iv', made', len') = derive_key_iv_lem unbound_key keys-law server_secret in
        IsOk->>= _ _ ((k, iv), made) λ client. IsOk->>= _ _ ((k', iv'), made') λ server. (_, refl)

    module _ {Prk : Type 0} (extract : Bytes → Bytes → Prk)
        (expand : Prk → Bytes → ℕ → Option Bytes)
        (expand-law : (prk : Prk) (info : Bytes)
          → (out : Bytes) × (expand prk info 32 ≡ some out)) where
      expand_label-IsOk :
          (prk : Prk) (label context : Bytes)
          → IsOk (expand_label sign unbound_key extract expand prk label context 32)
      unfolding expand_label
      expand_label-IsOk prk label context =
          let (out, done) = expand-law prk (label_info label context 32) in
          (out, ground (arith, done))

      -- Handshake keys come of every shared secret, and application keys of every handshake secret, if HKDF
      -- expands to 32 bytes.
      pub derive_handshake_keys-IsOk :
          (shared_secret hello_hash : Bytes)
          → IsOk (derive_handshake_keys sign unbound_key extract expand shared_secret hello_hash)
      unfolding derive_handshake_keys
      derive_handshake_keys-IsOk shared_secret hello_hash =
          let label = derived sign unbound_key extract expand in
          let phase : ℕ → Bytes = λ side. traffic sign unbound_key extract expand side 0x68 0x73 in
          IsOk->>= _ _ (expand_label-IsOk _ label hash_empty) λ derived_secret.
            let secret = extract derived_secret shared_secret in
            IsOk->>= _ _ (expand_label-IsOk secret (phase 0x63) hello_hash) λ client_secret.
              IsOk->>= _ _ (expand_label-IsOk secret (phase 0x73) hello_hash) λ server_secret.
                IsOk->>= _ _ (keys_of-IsOk client_secret server_secret)
                  λ keys. ((keys, secret), refl)

      pub derive_application_keys-IsOk :
          (handshake_secret : Prk) (handshake_hash : Bytes)
          → IsOk (
              derive_application_keys sign unbound_key extract expand handshake_secret
                handshake_hash)
      unfolding derive_application_keys
      derive_application_keys-IsOk handshake_secret handshake_hash =
          let label = derived sign unbound_key extract expand in
          let phase : ℕ → Bytes = λ side. traffic sign unbound_key extract expand side 0x61 0x70 in
          IsOk->>= _ _ (expand_label-IsOk handshake_secret label hash_empty) λ derived_secret.
            let master = extract derived_secret (zeros sign unbound_key extract expand) in
            IsOk->>= _ _ (expand_label-IsOk master (phase 0x63) handshake_hash) λ client_secret.
              IsOk->>= _ _ (expand_label-IsOk master (phase 0x73) handshake_hash)
                λ server_secret. keys_of-IsOk client_secret server_secret
