-- ===== src/Reality/CertFetch/Tests.antt =====
-- A search for a certificate.
use xray_lite.Prelude.{◌≡◌, refl, [], ◌∷◌}
use xray_lite.Prelude.Bytes.{Bytes}
use xray_lite.Reality.CertFetch.{
  extract_certificate_from_response, certificate, search, certificate_or,
}

-- A ServerHello record, then a Certificate record.
abbrev answer : Bytes
answer = 0x16 ∷ 3 ∷ 3 ∷ 0 ∷ 1 ∷ 2 ∷ 0x16 ∷ 3 ∷ 3 ∷ 0 ∷ 2 ∷ 11 ∷ 7 ∷ []

answer_found : extract_certificate_from_response answer ≡ certificate (11 ∷ 7 ∷ [])
unfolding extract_certificate_from_response search certificate_or
answer_found = refl
