-- ===== src/Vless/Codec.antt =====
-- src/protocol/vless/codec.rs: the list of allowed clients.
pub mod Members
use xray_lite.Prelude.{
  ℕ, Bool, true, false, not, List, [], ◌∷◌, ◌++◌, if◌then◌else◌, Option, none, some, zero, suc,
}
use xray_lite.Prelude.Bytes.{Bytes, bytes_eq}
use xray_lite.Prelude.Read.{Read}
use xray_lite.Vless.Error.{VlessError}
use xray_lite.Vless.Request
use xray_lite.Vless.Request.{Request, contains}
use xray_lite.Vless.Response
use xray_lite.Vless.Response.{Response}

pub record Codec : Type 0 where
  pub allowed_uuids : List Bytes

abbrev pub new : List Bytes → Codec
new uuids = record { allowed_uuids = uuids }

unfoldable pub decode_request : Codec → Read VlessError Request
decode_request c = Request.decode c.allowed_uuids

unfoldable pub encode_response : Codec → Response → Bytes
encode_response c r = Response.encode r

unfoldable pub validate_uuid : Codec → Bytes → Bool
validate_uuid c uuid = contains c.allowed_uuids uuid

unfoldable pub add_uuid : Codec → Bytes → Codec
add_uuid c uuid =
    if not (contains c.allowed_uuids uuid)
    then record c { allowed_uuids = c.allowed_uuids ++ uuid ∷ [] }
    else c

-- `iter().position(|u| u == uuid)`
position : List Bytes → Bytes → Option ℕ
position [] uuid = none
position (u ∷ us) uuid =
    let later = position us uuid in
    if bytes_eq u uuid then some zero else elim later [ none ↦ none | some n ↦ some (suc n) ]

-- `Vec::remove`
remove_at : List Bytes → ℕ → List Bytes
remove_at [] n = []
remove_at (u ∷ us) zero = us
remove_at (u ∷ us) (suc n) = u ∷ remove_at us n

remove_found : Codec → Option ℕ → Codec × Bool
remove_found c none = (c, false)
remove_found c (some pos) = (record c { allowed_uuids = remove_at c.allowed_uuids pos }, true)

unfoldable pub remove_uuid : Codec → Bytes → Codec × Bool
unfolding position remove_at remove_found
remove_uuid c uuid = remove_found c (position c.allowed_uuids uuid)
