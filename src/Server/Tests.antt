-- ===== src/Server/Tests.antt =====
-- Runs of the server's handling of connections.
use xray_lite.Prelude.{◌≡◌, refl, true, [], ◌∷◌, drop, arith}
use xray_lite.Prelude.Outcome.{ok}
use xray_lite.ProxyProtocol.Tests.{no_ipv6, balanced}
use xray_lite.Config.Validator.{
  validate, validate_clients, validate_inbound, validate_inbounds, validate_xhttp_settings,
}
use xray_lite.Config.Tests.{any_uuid, config}
use xray_lite.Server.{PrefixedStream, there, take_header, poll_read}
use xray_lite.Server.Header.{HandsOn, header_length, header_source, take_header_lem, contents}
use xray_lite.Server.Streams.{TakesAll, reads, reads_refine}
use xray_lite.Server.Permits.{
  AcceptLoop, Steps, here, next, acquire, started, Conserved, Steps-Conserved,
}
use xray_lite.Server.Configured.{ServesAll, validate-uuids}

take_header_lem_example :
    HandsOn no_ipv6
      (take_header no_ipv6 true balanced (there 28))
      (drop (header_length no_ipv6 true balanced (there 28)) balanced)
      (header_source no_ipv6 true balanced (there 28))
take_header_lem_example = take_header_lem no_ipv6 true balanced (there 28) (omega arith)

abbrev replayed : PrefixedStream
replayed = record { prefix = 22 ∷ 3 ∷ []; position = 0; inner = 1 ∷ 2 ∷ 3 ∷ [] }

reads_refine_example :
    TakesAll
      ((1, 4) ∷ (5, 4) ∷ (2, 4) ∷ [])
      (contents replayed)
      (reads ((1, 4) ∷ (5, 4) ∷ (2, 4) ∷ []) replayed).0
      (contents (reads ((1, 4) ∷ (5, 4) ∷ (2, 4) ∷ []) replayed).1)
reads_refine_example = reads_refine ((1, 4) ∷ (5, 4) ∷ (2, 4) ∷ []) replayed (omega arith)

-- The second read stops where the prefix ends.
replayed_chunks :
    (reads ((1, 4) ∷ (5, 4) ∷ (2, 4) ∷ []) replayed).0 ≡ (22 ∷ []) ∷ (3 ∷ []) ∷ (1 ∷ 2 ∷ []) ∷ []
unfolding reads poll_read
replayed_chunks = refl

-- The loop holds a permit, and nobody is connected.
abbrev waiting : AcceptLoop
waiting = record { permits = 9999; holding = true; connections = 0 }

waiting_reached : Steps started waiting
waiting_reached = next here (acquire refl (omega arith))

Steps-Conserved_example : Conserved waiting
Steps-Conserved_example = Steps-Conserved waiting_reached

config_passes : validate any_uuid config ≡ ok tt
unfolding validate validate_inbounds validate_inbound validate_clients validate_xhttp_settings
config_passes = refl

validate-uuids_example : ServesAll any_uuid config.inbounds
validate-uuids_example = validate-uuids any_uuid config config_passes
