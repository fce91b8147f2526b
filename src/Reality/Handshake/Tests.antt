-- ===== src/Reality/Handshake/Tests.antt =====
-- Runs of the older handshake, with small stand-ins for the cryptography.
use xray_lite.Prelude.{◌≡◌, refl, arith, [], ◌∷◌, ◌++◌}
use xray_lite.Prelude.Outcome.{ok}
use xray_lite.Prelude.Bytes.{Bytes}
use xray_lite.Reality.Crypto.{encrypt_server_record}
use xray_lite.Reality.Crypto.Tests.{seal, unseal, seal-law, keys}
use xray_lite.Reality.Handshake.{read_finished, ccs_record}
use xray_lite.Reality.Handshake.Finished.{read_finished-encrypt_record}

-- A Finished whose verify data are two bytes of the client's choice, sealed.
abbrev pub wire_finished : Bytes
wire_finished = 23 ∷ 3 ∷ 3 ∷ 0 ∷ 8 ∷ 170 ∷ 20 ∷ 0 ∷ 0 ∷ 2 ∷ 7 ∷ 7 ∷ 22 ∷ []

finished_sealed :
    encrypt_server_record seal 1 keys 0 (20 ∷ 0 ∷ 0 ∷ 2 ∷ 7 ∷ 7 ∷ []) 22 ≡ ok wire_finished
unfolding encrypt_server_record
finished_sealed = refl

read_finished-encrypt_record_example :
    read_finished unseal keys ((ccs_record ++ (wire_finished ++ 1 ∷ [])) ∷ []) ≡ ok (1 ∷ [])
read_finished-encrypt_record_example =
    read_finished-encrypt_record unseal seal 1 seal-law keys keys (0 ∷ 0 ∷ 2 ∷ 7 ∷ 7 ∷ [])
      wire_finished (1 ∷ []) [] refl refl finished_sealed (omega arith)
