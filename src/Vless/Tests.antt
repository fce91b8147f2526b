-- ===== src/Vless/Tests.antt =====
-- Runs of the VLESS decoder and encoder on concrete requests.
use xray_lite.Prelude.{◌≡◌, ◌≢◌, refl, true, [], ◌∷◌, ◌++◌, arith, All}
use xray_lite.Prelude.Outcome.{ok, err, panic}
use xray_lite.Prelude.Bytes.{Bytes, IsByte}
use xray_lite.Prelude.Read.{get_u8, take_bytes, advance}
use xray_lite.Vless.Error.{out_of_fuel}
use xray_lite.Vless.Address
use xray_lite.Vless.Address.{Address, ipv4, domain}
use xray_lite.Vless.Address.RoundTrip.{decode-encode}
use xray_lite.Vless.Address.Safety.{decode_total}
use xray_lite.Vless.Address.Mux.{decode_sound, Wraps}
use xray_lite.Vless.Request
use xray_lite.Vless.Request.{Request, tcp, contains}
use xray_lite.Vless.Request.RoundTrip.{decode-encode_request}
use xray_lite.Vless.Request.Safety.{decode_request-ne-panic, decode_request_sound, Accepts}

-- A client, and one that is not in the list.
abbrev alice : Bytes
alice = 1 ∷ 2 ∷ 3 ∷ 4 ∷ 5 ∷ 6 ∷ 7 ∷ 8 ∷ 9 ∷ 10 ∷ 11 ∷ 12 ∷ 13 ∷ 14 ∷ 15 ∷ 16 ∷ []

abbrev home : Address
home = ipv4 (127 ∷ 0 ∷ 0 ∷ 1 ∷ []) 443

abbrev home_bytes : Bytes
home_bytes = 1 ∷ 187 ∷ 1 ∷ 127 ∷ 0 ∷ 0 ∷ 1 ∷ []

abbrev to_home : Request
to_home = record { version = 0; uuid = alice; command = tcp; address = home; addon_length = 0 }

-- The request with an addon of two bytes.
abbrev with_addon : Bytes
with_addon = 0 ∷ (alice ++ (2 ∷ 7 ∷ 7 ∷ 1 ∷ home_bytes))

abbrev with_addon_request : Request
with_addon_request = record {
  version = 0;
  uuid = alice;
  command = tcp;
  address = home;
  addon_length = 2;
}

home-IsValid : Address.IsValid home
home-IsValid = (refl, omega arith)

decode-encode_example : Address.decode (Address.encode home ++ 5 ∷ []) ≡ (ok home, 5 ∷ [])
decode-encode_example = decode-encode home (5 ∷ []) home-IsValid

decode_total_example :
    ((Address.decode (1 ∷ 187 ∷ 2 ∷ 200 ∷ [])).0 ≢ panic)
    × ((Address.decode (1 ∷ 187 ∷ 2 ∷ 200 ∷ [])).0 ≢ err out_of_fuel)
decode_total_example = decode_total (1 ∷ 187 ∷ 2 ∷ 200 ∷ [])

decode-home : Address.decode home_bytes ≡ (ok home, [])
unfolding Address.decode
decode-home = refl

home_bytes-IsByte : All IsByte home_bytes
home_bytes-IsByte = (
  omega arith,
  (omega arith, (omega arith, (omega arith, (omega arith, (omega arith, (omega arith, tt)))))),
)

decode_sound_example : Address.IsValid home × Wraps home_bytes (Address.encode home ++ [])
decode_sound_example = decode_sound home_bytes home [] home_bytes-IsByte decode-home

alice_known : contains (alice ∷ []) alice ≡ true
unfolding contains
alice_known = refl

decode-encode_request_example :
    Request.decode (alice ∷ []) (Request.encode to_home ++ 8 ∷ []) ≡ (ok to_home, 8 ∷ [])
decode-encode_request_example =
    decode-encode_request (alice ∷ []) to_home (8 ∷ [])
      (record { current = refl; sixteen = refl; address = home-IsValid; no_addon = refl })
      alice_known

decode_request-ne-panic_example : (Request.decode (alice ∷ []) (0 ∷ alice ++ 200 ∷ [])).0 ≢ panic
decode_request-ne-panic_example = decode_request-ne-panic (alice ∷ []) (0 ∷ alice ++ 200 ∷ [])

decode-with_addon : Request.decode (alice ∷ []) with_addon ≡ (ok with_addon_request, [])
unfolding Request.decode Request.decode_addon Request.decode_target Request.from_u8 contains
    Address.decode get_u8 take_bytes advance
decode-with_addon = refl

decode_request_sound_example : Accepts (alice ∷ []) with_addon with_addon_request []
decode_request_sound_example =
    decode_request_sound (alice ∷ []) with_addon with_addon_request [] decode-with_addon
