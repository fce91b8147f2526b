-- ===== src/Vless/Error.antt =====
-- The errors of src/protocol/vless, one constructor for each message.
use xray_lite.Prelude.{ℕ}
use xray_lite.Prelude.Bytes.{Bytes}

pub data VlessError : Type 0 where
  short_port short_ipv4 short_domain_len short_domain bad_utf8 short_ipv6 short_mux : VlessError
  unknown_type : ℕ → VlessError
  short_request short_addon short_command : VlessError
  unsupported_version unknown_command : ℕ → VlessError
  unauthorized : Bytes → VlessError
  -- Not an error of the program: the recursion of `Address::decode` outran the model's fuel.
  out_of_fuel : VlessError
