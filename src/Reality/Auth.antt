-- ===== src/Reality/Auth.antt =====
-- src/transport/reality/auth.rs, and its caller in tls.rs: the keys and tags of the Reality
-- authentication. HMAC-SHA256 and the two base64 decoders are parameters: they are not code of the repository.
pub mod Tags
use xray_lite.Prelude.{
  ℕ, ◌+◌, ◌≡◌, Bool, true, false, not, Option, none, some, [], ◌∷◌, ◌++◌, length, take, drop,
  get_or, ltb, ◌==◌, if◌then◌else◌,
}
use xray_lite.Prelude.Outcome.{Outcome, ok, err, panic, ◌>>=◌, ◌>>◌, guard}
use xray_lite.Prelude.Bytes.{Bytes, slice, with_index, bytes_eq}

pub data AuthError : Type 0 where
  not_base64 short_server_hello not_server_hello : AuthError
  key_length : ℕ → AuthError

pub record RealityAuth : Type 0 where
  pub private_key_bytes : Bytes

-- `general_purpose::STANDARD.decode`, then `URL_SAFE_NO_PAD.decode`
decoded_key : Option Bytes → Option Bytes → Outcome AuthError Bytes
decoded_key (some bytes) url_safe = ok bytes
decoded_key none (some bytes) = ok bytes
decoded_key none none = err not_base64

keep_32 : Bytes → Outcome AuthError RealityAuth
keep_32 bytes =
    if length bytes == 32
    then ok (record { private_key_bytes = bytes })
    else err (key_length (length bytes))

unfoldable pub new :
    (Bytes → Option Bytes) → (Bytes → Option Bytes) → Bytes → Outcome AuthError RealityAuth
unfolding decoded_key keep_32
new standard url_safe private_key =
    decoded_key (standard private_key) (url_safe private_key) >>= keep_32

module _ (sign : Bytes → Bytes → Bytes) where
  -- HMAC over the first 20 bytes of the server random and the client random.
  unfoldable pub generate_auth_tag : RealityAuth → Bytes → Bytes → Bytes
  generate_auth_tag auth client_random server_random_20 =
      sign auth.private_key_bytes (server_random_20 ++ client_random)

  unfoldable pub inject_auth_into_random : RealityAuth → Bytes → Bytes → Bytes
  unfolding generate_auth_tag
  inject_auth_into_random auth original_random client_random =
      take 20 original_random
      ++ take 12 (generate_auth_tag auth client_random (take 20 original_random))

  unfoldable pub verify_client_auth : RealityAuth → Bytes → Bytes → Bool
  unfolding bytes_eq
  verify_client_auth auth client_random session_id =
      if ltb (length session_id) 8
      then false
      else bytes_eq (take 8 (sign auth.private_key_bytes client_random)) (take 8 session_id)

  -- The modified bytes of the ServerHello.
  unfoldable pub modify_server_hello : RealityAuth → Bytes → Bytes → Outcome AuthError Bytes
  unfolding inject_auth_into_random
  modify_server_hello auth hello client_random = do
    guard (not (ltb (length hello) 38)) short_server_hello
    with_index hello 0 λ msg_type. (do
      guard (msg_type == 0x02) not_server_hello
      original_random ← slice hello 6 38
      ok (
          take 6 hello
          ++ (inject_auth_into_random auth original_random client_random ++ drop 38 hello)))

  -- `ServerHello::modify_for_reality` of tls.rs: a modifier of this key, applied to the raw bytes.
  unfoldable pub modify_for_reality :
      (Bytes → Option Bytes)
      → (Bytes → Option Bytes)
      → Bytes
      → Bytes
      → Bytes
      → Outcome AuthError Bytes
  unfolding new modify_server_hello
  modify_for_reality standard url_safe raw_data private_key client_random = do
    auth ← new standard url_safe private_key
    modify_server_hello auth raw_data client_random
