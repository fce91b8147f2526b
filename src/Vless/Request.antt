-- ===== src/Vless/Request.antt =====
-- src/protocol/vless/request.rs: the request of a client, who is known by his UUID.
pub mod RoundTrip
pub mod Safety
use xray_lite.Prelude.{
  ℕ, zero, suc, ◌≡◌, Bool, true, false, ◌||◌, List, [], ◌∷◌, ◌++◌, length, ◌==◌, if◌then◌else◌,
}
use xray_lite.Prelude.Outcome.{Outcome, ok, err}
use xray_lite.Prelude.Bytes.{Bytes, bytes_eq}
use xray_lite.Prelude.Read.{
  Read, pure, fail, ◌>>=◌, ◌>>◌, require, check, get_u8, take_bytes, advance,
}
use xray_lite.Vless.Error.{
  VlessError, short_request, short_addon, short_command, unsupported_version, unknown_command,
  unauthorized,
}
use xray_lite.Vless.Address
use xray_lite.Vless.Address.{Address}

abbrev pub vless_version : ℕ
vless_version = 0

pub data Command : Type 0 where
  tcp udp mux : Command

unfoldable pub from_u8 : ℕ → Read VlessError Command
from_u8 value =
    if value == 0x01
    then pure tcp
    else if value == 0x02
    then pure udp
    else if value == 0x03
    then pure mux
    else fail (unknown_command value)

-- `self.command as u8`
abbrev pub command_code : Command → ℕ
command_code tcp = 0x01
command_code udp = 0x02
command_code mux = 0x03

-- A UUID is its 16 bytes.
pub record Request : Type 0 where
  pub version : ℕ
  pub uuid : Bytes
  pub command : Command
  pub address : Address
  pub addon_length : ℕ

-- `allowed_uuids.contains(&uuid)`
unfoldable pub contains : List Bytes → Bytes → Bool
unfolding bytes_eq
contains [] uuid = false
contains (u ∷ us) uuid = bytes_eq u uuid || contains us uuid

-- From the command on.
unfoldable pub decode_target : ℕ → Bytes → ℕ → Read VlessError Request
decode_target version uuid addon_length = do
  require 1 short_command
  value ← get_u8
  command ← from_u8 value
  address ← Address.decode
  pure (record {
    version = version;
    uuid = uuid;
    command = command;
    address = address;
    addon_length = addon_length;
  })

-- From the addon on, which is skipped.
unfoldable pub decode_addon : ℕ → Bytes → Read VlessError Request
decode_addon version uuid = do
  addon_length ← get_u8
  require addon_length short_addon
  advance addon_length
  decode_target version uuid addon_length

unfoldable pub decode : List Bytes → Read VlessError Request
decode allowed = do
  require 22 short_request
  version ← get_u8
  check (version == vless_version) (unsupported_version version)
  uuid ← take_bytes 16
  check (contains allowed uuid) (unauthorized uuid)
  decode_addon version uuid

-- The addon length is written as 0, whatever the field holds.
unfoldable pub encode : Request → Bytes
encode r = r.version ∷ r.uuid ++ 0 ∷ command_code r.command ∷ Address.encode r.address

-- A request as `encode` can write it: a valid address, the version of the protocol, no addon.
pub record IsValid (r : Request) : Type 0 where
  pub current : r.version ≡ vless_version
  pub sixteen : length r.uuid ≡ 16
  pub address : Address.IsValid r.address
  pub no_addon : r.addon_length ≡ 0
