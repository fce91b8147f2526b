-- ===== src/Reality/Tests.antt =====
-- Runs of the TLS messages.
use xray_lite.Prelude.{◌≡◌, refl, none, [], ◌∷◌, length, replicate, arith}
use xray_lite.Prelude.Outcome.{ok}
use xray_lite.Prelude.Bytes.{IsU16}
use xray_lite.Reality.Record
use xray_lite.Reality.Record.{TlsRecord, handshake}
use xray_lite.Reality.ServerHello
use xray_lite.Reality.ServerHello.{ServerHello, new_reality}

cut_record : Record.parse (22 ∷ 3 ∷ 3 ∷ 0 ∷ 9 ∷ 1 ∷ []) ≡ (ok none, 22 ∷ 3 ∷ 3 ∷ 0 ∷ 9 ∷ 1 ∷ [])
unfolding Record.parse Record.content_type_from_u8
cut_record = refl

abbrev hello_back : ServerHello
hello_back = new_reality (1 ∷ 2 ∷ []) (replicate 32 5) (replicate 32 6)

hello_back_short : IsU16 (length hello_back.raw_data)
unfolding new_reality ServerHello.hello_fields ServerHello.extensions_block
hello_back_short = omega arith
