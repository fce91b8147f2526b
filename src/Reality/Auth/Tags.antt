-- ===== src/Reality/Auth/Tags.antt =====
-- src/transport/reality/auth.rs: where the authentication tags stand and what they sign.
use xray_lite.Prelude.{
  ◌≡◌, ◌≤◌, ◌↔◌, ◌⊎◌, take-append_at, drop-append_at, append_assoc, true, Option, none, some, ◌∷◌,
  ◌++◌, length, take, arith, length-append, Option-cases, inl, inr,
}
use xray_lite.Prelude.Outcome.{ok}
use xray_lite.Prelude.Bytes.{Bytes, bytes_eq_iff}
use xray_lite.Reality.Auth.{RealityAuth, new, verify_client_auth, modify_server_hello}

-- A handler exists for just the keys that one of the decoders reads as 32 bytes, the standard
-- alphabet first.
pub new_iff :
    (standard url_safe : Bytes → Option Bytes) (key bytes : Bytes)
    → (new standard url_safe key ≡ ok (record { private_key_bytes = bytes })) ↔ (
        (length bytes ≡ 32)
        × ((standard key ≡ some bytes) ⊎ ((standard key ≡ none) × (url_safe key ≡ some bytes))))
unfolding new
new_iff standard url_safe key bytes = elim (Option-cases (standard key)) [
  | inl absent ↦ elim (Option-cases (url_safe key)) [
    | inl absent' ↦ (λ h. ground arith, λ h. ground arith)
    | inr (b, there) ↦ (λ h. ground arith, λ h. ground arith)
  ]
  | inr (b, there) ↦ (λ h. ground arith, λ h. ground arith)
]

module _ (sign : Bytes → Bytes → Bytes) where
  -- A client passes exactly if its session id starts with the first eight bytes of the HMAC of its
  -- random under the server's key.
  pub verify_client_auth_iff :
      (auth : RealityAuth) (client_random session_id : Bytes)
      → (verify_client_auth sign auth client_random session_id ≡ true) ↔ (
          (8 ≤ length session_id)
          × (take 8 session_id ≡ take 8 (sign auth.private_key_bytes client_random)))
  unfolding verify_client_auth
  verify_client_auth_iff auth client_random session_id =
      let (sound, complete) =
        bytes_eq_iff (take 8 (sign auth.private_key_bytes client_random)) (take 8 session_id) in
      (λ h. ground (arith, sound), λ h. ground (arith, complete))

  -- Modifying a ServerHello message replaces the last twelve bytes of its random by the first twelve
  -- of the HMAC of the other twenty and the client's random, and keeps every other byte.
  pub modify_server_hello_layout :
      (auth : RealityAuth) (head random rest client_random : Bytes)
      → length head ≡ 5
      → length random ≡ 32
      → modify_server_hello sign auth (2 ∷ (head ++ (random ++ rest))) client_random
        ≡ ok (
            2
            ∷ (head
                ++ (take 20 random
                    ++ (take 12 (sign auth.private_key_bytes (take 20 random ++ client_random))
                        ++ rest))))
  unfolding modify_server_hello
  modify_server_hello_layout auth head random rest client_random h k = ground (
    arith,
    take-append_at 5 head (random ++ rest) h,
    drop-append_at 5 head (random ++ rest) h,
    take-append_at 32 random rest k,
    drop-append_at 32 random rest k,
    drop-append_at 37 (head ++ random) rest (omega (arith, length-append {0} head random)),
    append_assoc head random rest,
    length-append {0} head (random ++ rest),
    length-append {0} random rest,
  )
