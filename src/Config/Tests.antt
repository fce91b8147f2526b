-- ===== src/Config/Tests.antt =====
-- The check of a small configuration.
use xray_lite.Prelude.{ℕ, ◌≡◌, ◌≢◌, ◌↔◌, Option, none, some, [], ◌∷◌, All}
use xray_lite.Prelude.Outcome.{ok}
use xray_lite.Prelude.Bytes.{Bytes}
use xray_lite.Config.{
  Config, Inbound, vless, tcp, plain, default_sniffing, default_sockopt, default_decryption,
  default_path, default_host, default_xhttp_mode,
}
use xray_lite.Config.Validator.{validate}
use xray_lite.Config.Validator.Sound.{validate_iff, IsInbound}

-- A parser of UUIDs that takes every text.
abbrev pub any_uuid : Bytes → Option Bytes
any_uuid text = some text

abbrev pub inbound : Inbound
inbound = record {
  protocol = vless;
  listen = [];
  port = 443;
  settings = record {
    clients = record { id = 0x61 ∷ []; flow = []; email = [] } ∷ [];
    decryption = default_decryption;
    sniffing = default_sniffing;
  };
  stream_settings = record {
    network = tcp;
    security = plain;
    reality_settings = none;
    xhttp_settings =
        some (record { mode = default_xhttp_mode; path = default_path; host = default_host });
    sockopt = default_sockopt;
  };
}

abbrev pub config : Config ℕ
config = record {
  inbounds = inbound ∷ [];
  outbounds = record { protocol = []; tag = []; settings = none } ∷ [];
  routing = record { rules = [] };
}

validate_iff_example : (validate any_uuid config ≡ ok tt) ↔ (
    (config.inbounds ≢ []) × (All (IsInbound any_uuid) config.inbounds × (config.outbounds ≢ [])))
validate_iff_example = validate_iff any_uuid config
