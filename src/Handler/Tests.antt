-- ===== src/Handler/Tests.antt =====
-- Runs of sessions.
use xray_lite.Prelude.{
  ℕ, ◌≡◌, ◌≢◌, refl, true, false, some, [], ◌∷◌, ◌++◌, arith, map, if◌then◌else◌, replicate,
}
use xray_lite.Prelude.Bytes.{Bytes, bytes_eq}
use xray_lite.Vless.Address.{ipv4}
use xray_lite.Vless.Address.Text.{to_string}
use xray_lite.Vless.Error.{unsupported_version}
use xray_lite.Vless.Request
use xray_lite.Vless.Request.{Request, tcp, udp, contains}
use xray_lite.Vless.Codec
use xray_lite.Vless.Codec.{Codec}
use xray_lite.Handler.World.{
  Env, answer, connect, write_remote, relay_both, resolve, send_to, relay_datagrams, got, connected,
  finished, stopped, decode_error, panicked, registered,
}
use xray_lite.Handler.{is_http_probe, any_window, no_content, serve_vless}
use xray_lite.Handler.Authorised.{
  FromMember, serve_authorised, serve_vless-ne-panicked, reaches_out,
}
use xray_lite.Handler.Forwards.{Opens, target_of, serve_vless-tcp, serve_vless-udp}
use xray_lite.Handler.Probes.{serve_vless-probe}
use xray_lite.Handler.Datagrams.{
  arrived, always, closed, frame, send_task, recv_task, send_task-recv_task,
}

abbrev carol : Bytes
carol = replicate 16 7

abbrev members : Codec
members = Codec.new (carol ∷ [])

abbrev to_dns : Request
to_dns = record {
  version = 0;
  uuid = carol;
  command = udp;
  address = ipv4 (8 ∷ 8 ∷ 8 ∷ 8 ∷ []) 53;
  addon_length = 0;
}

abbrev to_web : Request
to_web = record to_dns { command = tcp; address = ipv4 (8 ∷ 8 ∷ 8 ∷ 8 ∷ []) 80 }

-- A writer of IPv6 addresses that writes nothing.
abbrev no_text : Bytes → Bytes
no_text octets = []

-- All calls succeed, and the client sends `bytes` first.
abbrev sends : Bytes → Env ℕ
sends bytes = record {
  first = got bytes;
  answered = true;
  second = got [];
  connection = connected;
  initial_written = true;
  relay_ok = true;
  bound = true;
  registered_as = registered;
  resolved = some (1 ∷ 2 ∷ []);
}

carol_known : contains (carol ∷ []) carol ≡ true
unfolding contains
carol_known = refl

web-Opens : Opens members (sends (Request.encode to_web ++ 9 ∷ [])) to_web (9 ∷ [])
web-Opens = record {
  valid = record { current = refl; sixteen = refl; address = omega arith; no_addon = refl };
  member = carol_known;
  first = refl;
  answered = refl;
}

serve_vless-tcp_example :
    serve_vless no_text (sends (Request.encode to_web ++ 9 ∷ [])) members false ≡ (
      answer (0 ∷ 0 ∷ [])
          ∷ connect (target_of false (to_string no_text to_web.address) (9 ∷ []))
          ∷ write_remote (9 ∷ [])
          ∷ relay_both
          ∷ [],
      finished,
    )
serve_vless-tcp_example =
    serve_vless-tcp no_text members (sends (Request.encode to_web ++ 9 ∷ [])) false to_web (9 ∷ [])
      refl web-Opens refl refl refl (omega arith)

web-reaches_out :
    reaches_out (serve_vless no_text (sends (Request.encode to_web ++ 9 ∷ [])) members false).0
    ≡ true
web-reaches_out =
    rw
      (serve_vless-tcp no_text members (sends (Request.encode to_web ++ 9 ∷ [])) false to_web
        (9 ∷ []) refl web-Opens refl refl refl (omega arith))
      refl

serve_authorised_example : FromMember members (sends (Request.encode to_web ++ 9 ∷ []))
serve_authorised_example =
    serve_authorised no_text (sends (Request.encode to_web ++ 9 ∷ [])) members false web-reaches_out

serve_vless-ne-panicked_example :
    (serve_vless no_text (sends (0 ∷ 1 ∷ 2 ∷ [])) members true).1 ≢ panicked
serve_vless-ne-panicked_example =
    serve_vless-ne-panicked no_text (sends (0 ∷ 1 ∷ 2 ∷ [])) members true (λ p. cc)

abbrev query : Bytes
query = 5 ∷ 6 ∷ 7 ∷ []

abbrev second_query : Bytes
second_query = 0 ∷ 1 ∷ 4 ∷ []

dns-Opens :
    Opens members
      (sends (Request.encode to_dns ++ (frame query ++ second_query)))
      to_dns
      (frame query ++ second_query)
dns-Opens = record {
  valid = record { current = refl; sixteen = refl; address = omega arith; no_addon = refl };
  member = carol_known;
  first = refl;
  answered = refl;
}

-- The second query of the client is not among the actions.
serve_vless-udp_example :
    serve_vless no_text
      (sends (Request.encode to_dns ++ (frame query ++ second_query)))
      members
      true
    ≡ (
      answer (0 ∷ 0 ∷ [])
          ∷ resolve (to_string no_text to_dns.address)
          ∷ send_to query 1
          ∷ relay_datagrams 1
          ∷ [],
      finished,
    )
serve_vless-udp_example =
    serve_vless-udp no_text members (sends (Request.encode to_dns ++ (frame query ++ second_query)))
      true to_dns query second_query 1 (2 ∷ []) refl dns-Opens refl refl refl (omega arith)

-- `GET / HTTP/1.1\r\n` and more, without its first letter.
abbrev et_text : Bytes
et_text =
    0x45 ∷ 0x54 ∷ 0x20 ∷ 0x2f ∷ 0x20 ∷ 0x48 ∷ 0x54 ∷ 0x54 ∷ 0x50 ∷ 0x2f ∷ 0x31 ∷ 0x2e ∷ 0x31 ∷ 0x0d
    ∷ 0x0a ∷ 0x48 ∷ 0x6f ∷ 0x73 ∷ 0x74 ∷ 0x3a ∷ 0x20 ∷ 0x78 ∷ 0x0d ∷ 0x0a ∷ []

serve_vless-probe_example : serve_vless no_text (sends (0x47 ∷ et_text)) members true ≡ (
    if is_http_probe et_text
    then (answer no_content ∷ [], finished)
    else ([], stopped (decode_error (unsupported_version 0x47))))
serve_vless-probe_example =
    serve_vless-probe no_text members (sends (0x47 ∷ et_text)) true 0x47 et_text refl (omega arith)
      (omega arith)

-- The probe is one, and is not seen.
get_seen : (is_http_probe (0x47 ∷ et_text) ≡ true) × (is_http_probe et_text ≡ false)
unfolding is_http_probe any_window bytes_eq
get_seen = (refl, refl)

send_task-recv_task_example :
    send_task always (recv_task always (map arrived (query ∷ second_query ∷ [])))
    ≡ (query ∷ second_query ∷ [], closed)
send_task-recv_task_example = send_task-recv_task (query ∷ second_query ∷ []) (omega arith)
