-- ===== src/Sniffer/Tests.antt =====
-- Runs of the sniffer.
use xray_lite.Prelude.{◌≢◌, [], ◌∷◌, replicate, ◌++◌}
use xray_lite.Prelude.Outcome.{panic, err}
use xray_lite.Prelude.Bytes.{Bytes}
use xray_lite.Sniffer.{out_of_fuel, sniff_tls_sni}
use xray_lite.Sniffer.Safety.{sniff_tls_sni-Returns}

-- A record that names more cipher suites than it has.
abbrev cut_hello : Bytes
cut_hello = 0x16 ∷ 3 ∷ 1 ∷ 0 ∷ 45 ∷ 1 ∷ 0 ∷ 0 ∷ 41 ∷ 3 ∷ 3 ∷ replicate 32 7 ++ 0 ∷ 0 ∷ 200 ∷ []

sniff_tls_sni-Returns_example :
    (sniff_tls_sni cut_hello ≢ panic) × (sniff_tls_sni cut_hello ≢ err out_of_fuel)
sniff_tls_sni-Returns_example = sniff_tls_sni-Returns cut_hello
