-- ===== src/Reality/Inject.antt =====
-- src/rustls-reality/rustls/src/reality.rs: what the repository adds to its copy of rustls. HMAC-SHA256
-- is a parameter.
use xray_lite.Prelude.{
  ◌≡◌, Bool, true, ◌&&◌, Option, none, some, List, [], ◌++◌, length, take, drop, ◌==◌, arith,
  drop_all, append-nil,
}
use xray_lite.Prelude.Outcome.{Outcome, ok, ◌>>=◌, ◌>>◌, guard}
use xray_lite.Prelude.Bytes.{Bytes, slice}
use xray_lite.Reality.Auth.{inject_auth_into_random}

pub record RealityConfig : Type 0 where
  pub private_key : Bytes
  pub verify_client : Bool
  pub dest : Option Bytes
  pub short_ids : List Bytes

unfoldable pub new : Bytes → RealityConfig
new private_key = record {
  private_key = private_key;
  verify_client = true;
  dest = none;
  short_ids = [];
}

unfoldable pub with_verify_client : RealityConfig → Bool → RealityConfig
with_verify_client c verify = record c { verify_client = verify }

unfoldable pub with_dest : RealityConfig → Bytes → RealityConfig
with_dest c dest = record c { dest = some dest }

unfoldable pub with_short_ids : RealityConfig → List Bytes → RealityConfig
with_short_ids c short_ids = record c { short_ids = short_ids }

pub data InjectError : Type 0 where
  bad_key_length : InjectError

unfoldable pub validate : RealityConfig → Outcome InjectError (Unit {0})
validate c = guard (length c.private_key == 32) bad_key_length

-- The server random with the tag; `copy_from_slice` and the slice of the tag take twelve bytes.
unfoldable pub inject_auth :
    (Bytes → Bytes → Bytes) → Bytes → RealityConfig → Bytes → Outcome InjectError Bytes
inject_auth sign server_random config client_random = do
  validate config
  prefix ← slice server_random 0 20
  tag ← slice (sign config.private_key (prefix ++ client_random)) 0 12
  ok (prefix ++ (tag ++ drop 32 server_random))

unfoldable pub verify_client : Bytes → RealityConfig → Bool
verify_client session_id config = length config.private_key == 32 && length session_id == 32

-- The tag of the patched rustls is that of `RealityAuth`: with a key of 32 bytes both write the same
-- random into the ServerHello. The server random has 32 bytes, and a tag 32.
pub inject_auth-eq_inject :
    (sign : Bytes → Bytes → Bytes) (server_random client_random : Bytes) (config : RealityConfig)
    → length config.private_key ≡ 32
    → length server_random ≡ 32
    → ((key message : Bytes) → length (sign key message) ≡ 32)
    → inject_auth sign server_random config client_random
      ≡ ok (
          inject_auth_into_random sign
            (record { private_key_bytes = config.private_key })
            server_random
            client_random)
unfolding inject_auth validate inject_auth_into_random
inject_auth-eq_inject sign server_random client_random config key random tag = ground (
  arith,
  key,
  random,
  tag config.private_key (take 20 server_random ++ client_random),
  drop_all {0} 32 server_random,
  append-nil (take 12 (sign config.private_key (take 20 server_random ++ client_random))),
)
