-- ===== src/Config.antt =====
-- src/config/mod.rs and src/config/validator.rs: the configuration, its defaults and its check.
-- A string is the list of its bytes, and a JSON value (`serde_json::Value`) a type of its own.
pub mod Tests
pub mod Validator
use xray_lite.Prelude.{ℕ, Bool, true, false, List, [], ◌∷◌, Option}
use xray_lite.Prelude.Bytes.{Bytes}

pub data Protocol : Type 0 where
  vless vmess trojan shadowsocks : Protocol

pub data Network : Type 0 where
  tcp http ws grpc : Network

pub data Security : Type 0 where
  plain tls reality : Security

pub data XhttpMode : Type 0 where
  auto stream_up stream_down stream_one : XhttpMode

pub record Client : Type 0 where
  pub id : Bytes
  pub flow : Bytes
  pub email : Bytes

pub record SniffingConfig : Type 0 where
  pub enabled : Bool
  pub dest_override : List Bytes

pub record InboundSettings : Type 0 where
  pub clients : List Client
  pub decryption : Bytes
  pub sniffing : SniffingConfig

pub record SockOpt : Type 0 where
  pub tcp_fast_open : Bool
  pub tcp_no_delay : Bool
  pub accept_proxy_protocol : Bool

pub record RealitySettings : Type 0 where
  pub dest : Bytes
  pub server_names : List Bytes
  pub private_key : Bytes
  pub public_key : Option Bytes
  pub short_ids : List Bytes
  pub fingerprint : Bytes

pub record XhttpSettings : Type 0 where
  pub mode : XhttpMode
  pub path : Bytes
  pub host : Bytes

pub record StreamSettings : Type 0 where
  pub network : Network
  pub security : Security
  pub reality_settings : Option RealitySettings
  pub xhttp_settings : Option XhttpSettings
  pub sockopt : SockOpt

pub record Inbound : Type 0 where
  pub protocol : Protocol
  pub listen : Bytes
  pub port : ℕ
  pub settings : InboundSettings
  pub stream_settings : StreamSettings

pub record RoutingRule : Type 0 where
  pub rule_type : Bytes
  pub domain : Option (List Bytes)
  pub ip : Option (List Bytes)
  pub outbound_tag : Bytes

pub record RoutingConfig : Type 0 where
  pub rules : List RoutingRule

pub record Outbound (Value : Type 0) : Type 0 where
  pub protocol : Bytes
  pub tag : Bytes
  pub settings : Option Value

pub record Config (Value : Type 0) : Type 0 where
  pub inbounds : List Inbound
  pub outbounds : List (Outbound Value)
  pub routing : RoutingConfig

-- "tls" and "http"
abbrev pub default_dest_override : List Bytes
default_dest_override = (0x74 ∷ 0x6c ∷ 0x73 ∷ []) ∷ (0x68 ∷ 0x74 ∷ 0x74 ∷ 0x70 ∷ []) ∷ []

abbrev pub default_sniffing : SniffingConfig
default_sniffing = record { enabled = false; dest_override = default_dest_override }

abbrev pub default_sockopt : SockOpt
default_sockopt = record {
  tcp_fast_open = true;
  tcp_no_delay = true;
  accept_proxy_protocol = false;
}

-- "none", "chrome", "/" and ""
abbrev pub default_decryption : Bytes
default_decryption = 0x6e ∷ 0x6f ∷ 0x6e ∷ 0x65 ∷ []

abbrev pub default_fingerprint : Bytes
default_fingerprint = 0x63 ∷ 0x68 ∷ 0x72 ∷ 0x6f ∷ 0x6d ∷ 0x65 ∷ []

abbrev pub default_path : Bytes
default_path = 0x2f ∷ []

abbrev pub default_host : Bytes
default_host = []

abbrev pub default_xhttp_mode : XhttpMode
default_xhttp_mode = auto
