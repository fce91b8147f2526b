-- ===== src/Vless/Response.antt =====
-- src/protocol/vless/response.rs: the two bytes that answer a request.
use xray_lite.Prelude.{ℕ, ◌≡◌, refl, [], ◌∷◌}
use xray_lite.Prelude.Bytes.{Bytes}
use xray_lite.Vless.Request.{vless_version}

pub record Response : Type 0 where
  pub version : ℕ
  pub addon_length : ℕ

abbrev pub new : Response
new = record { version = vless_version; addon_length = 0 }

unfoldable pub encode : Response → Bytes
encode r = r.version ∷ r.addon_length ∷ []

encode-new : encode new ≡ 0 ∷ 0 ∷ []
unfolding encode
encode-new = refl
