-- ===== src/Config/Validator.antt =====
-- src/config/validator.rs: which configurations are refused, and with which error.
pub mod Sound
use xray_lite.Prelude.{
  ℕ, zero, suc, ◌+◌, Bool, true, false, not, List, [], ◌∷◌, Option, none, some, ◌==◌, ◌≡◌, ◌≢◌, All,
}
use xray_lite.Prelude.Outcome.{Outcome, ok, err, panic, ◌>>=◌, ◌>>◌, guard}
use xray_lite.Prelude.Bytes.{Bytes}
use xray_lite.Config.{Config, Inbound, Client, RealitySettings, XhttpSettings}

-- The indices are those of the messages: of the inbound, and of the client in it.
pub data ConfigError : Type 0 where
  no_inbounds no_outbounds : ConfigError
  zero_port empty_dest empty_server_names empty_private_key empty_path : ℕ → ConfigError
  bad_uuid : ℕ → ℕ → ConfigError

abbrev pub is_empty {ℓ} : {A : Type ℓ} → List A → Bool
is_empty [] = true
is_empty (x ∷ xs) = false

abbrev pub is_some {ℓ} : {A : Type ℓ} → Option A → Bool
is_some none = false
is_some (some a) = true

unfoldable pub validate_reality_settings : RealitySettings → ℕ → Outcome ConfigError (Unit {0})
validate_reality_settings reality idx = do
  guard (not (is_empty reality.dest)) (empty_dest idx)
  guard (not (is_empty reality.server_names)) (empty_server_names idx)
  guard (not (is_empty reality.private_key)) (empty_private_key idx)

unfoldable pub validate_xhttp_settings : XhttpSettings → ℕ → Outcome ConfigError (Unit {0})
validate_xhttp_settings xhttp idx = guard (not (is_empty xhttp.path)) (empty_path idx)

-- `if let Some(settings) = … { check(settings, idx)? }`
abbrev pub if_some :
    {A : Type 0}
    → (A → ℕ → Outcome ConfigError (Unit {0}))
    → Option A
    → ℕ
    → Outcome ConfigError (Unit {0})
if_some check none idx = ok tt
if_some check (some a) idx = check a idx

-- `Uuid::parse_str` is a parameter: the crate `uuid` is not code of the repository.
module _ (parse_str : Bytes → Option Bytes) where
  -- The clients from the `client_idx`-th on.
  unfoldable pub validate_clients : ℕ → ℕ → List Client → Outcome ConfigError (Unit {0})
  validate_clients idx client_idx [] = ok tt
  validate_clients idx client_idx (client ∷ clients) = do
    guard (is_some (parse_str client.id)) (bad_uuid idx client_idx)
    validate_clients idx (suc client_idx) clients

  unfoldable pub validate_inbound : Inbound → ℕ → Outcome ConfigError (Unit {0})
  validate_inbound inbound idx = do
    guard (not (inbound.port == 0)) (zero_port idx)
    validate_clients idx 0 inbound.settings.clients
    if_some validate_reality_settings inbound.stream_settings.reality_settings idx
    if_some validate_xhttp_settings inbound.stream_settings.xhttp_settings idx

  -- The inbounds from the `idx`-th on.
  unfoldable pub validate_inbounds : ℕ → List Inbound → Outcome ConfigError (Unit {0})
  validate_inbounds idx [] = ok tt
  validate_inbounds idx (inbound ∷ inbounds) = do
    validate_inbound inbound idx
    validate_inbounds (suc idx) inbounds

  unfoldable pub validate : {Value : Type 0} → Config Value → Outcome ConfigError (Unit {0})
  validate config = do
    guard (not (is_empty config.inbounds)) no_inbounds
    validate_inbounds 0 config.inbounds
    guard (not (is_empty config.outbounds)) no_outbounds
