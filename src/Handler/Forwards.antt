-- ===== src/Handler/Forwards.antt =====
-- src/handler.rs: what a session of a client in the list does when its calls succeed.
use xray_lite.Prelude.{
  ◌<◌, ◌≡◌, ◌≢◌, ◌∙◌, refl, ap, Bool, true, false, some, List, [], ◌∷◌, ◌++◌, length, arith,
  if◌then◌else◌, length-append, take-append_at, lt→ltb,
}
use xray_lite.Prelude.Outcome.{Outcome, ok, err, panic}
use xray_lite.Prelude.Bytes.{Bytes, IsU16}
use xray_lite.Vless.Address.Text.{to_string}
use xray_lite.Vless.Request
use xray_lite.Vless.Request.{Request, tcp, udp, contains}
use xray_lite.Vless.Request.RoundTrip.{decode-encode_request}
use xray_lite.Vless.Response
use xray_lite.Vless.Codec.{Codec, decode_request, encode_response}
use xray_lite.Sniffer.{Miss, sniff_tls_sni}
use xray_lite.Sniffer.Safety.{sniff_tls_sni-Returns}
use xray_lite.Handler.World.{
  Env, answer, connect, write_remote, relay_both, resolve, send_to, relay_datagrams, got, connected,
  finished, registered,
}
use xray_lite.Handler.{
  https_target, forward, connect_result, connect_to, override, sniff_initial, serve_tcp,
  whole_datagram, initial_datagram, serve_resolved, serve_registered, serve_udp, dispatch, respond,
  after_decode, serve_first, serve_vless,
}
use xray_lite.Handler.Datagrams.{frame}

-- The target of the session: the name that was sniffed, or the address of the request.
abbrev pub sniffed_or : Bytes → Outcome Miss Bytes → Bytes
sniffed_or target (ok sni) = https_target sni
sniffed_or target (err miss) = target
sniffed_or target panic = target

abbrev pub target_of : Bool → Bytes → Bytes → Bytes
target_of sniffing target payload =
    if sniffing then sniffed_or target (sniff_tls_sni payload) else target

-- A request that `encode` can write, of a client in the list, is the first thing that is read.
pub record Opens {Addr : Type 0} (codec : Codec) (env : Env Addr) (r : Request) (payload : Bytes)
    : Type 0 where
  pub valid : Request.IsValid r
  pub member : contains codec.allowed_uuids r.uuid ≡ true
  pub first : env.first ≡ got (Request.encode r ++ payload)
  pub answered : env.answered ≡ true

module _ {Addr : Type 0} (show_ipv6 : Bytes → Bytes) (codec : Codec) (env : Env Addr)
    (sniff : Bool) where
  serve_first-request :
      (r : Request) (payload : Bytes)
      → Request.IsValid r
      → contains codec.allowed_uuids r.uuid ≡ true
      → serve_first show_ipv6 env codec sniff (got (Request.encode r ++ payload))
        ≡ respond show_ipv6 env codec sniff r payload
  unfolding serve_first decode_request Request.encode after_decode
  serve_first-request r payload v known =
      rw (decode-encode_request codec.allowed_uuids r payload v known) refl

  serve-Opens :
      (r : Request) (payload : Bytes)
      → Opens codec env r payload
      → serve_vless show_ipv6 env codec sniff ≡ respond show_ipv6 env codec sniff r payload
  unfolding serve_vless
  serve-Opens r payload o =
      ap (serve_first show_ipv6 env codec sniff) o.first
      ∙ serve_first-request r payload o.valid o.member

module _ {Addr : Type 0} (env : Env Addr) where
  connect_to_succeeds :
      (payload target : Bytes)
      → env.connection ≡ connected
      → env.initial_written ≡ true
      → env.relay_ok ≡ true
      → 0 < length payload
      → connect_to env payload target
        ≡ (connect target ∷ write_remote payload ∷ relay_both ∷ [], finished)
  unfolding connect_to connect_result forward
  connect_to_succeeds payload target c w r h = rw (c, w, r) (ground arith)

  override_succeeds :
      (payload target : Bytes) (o : Outcome Miss Bytes)
      → ((t : Bytes)
          → connect_to env payload t
            ≡ (connect t ∷ write_remote payload ∷ relay_both ∷ [], finished))
      → o ≢ panic
      → override env payload target o
        ≡ (connect (sniffed_or target o) ∷ write_remote payload ∷ relay_both ∷ [], finished)
  unfolding override
  override_succeeds payload target (ok sni) step h = step (https_target sni)
  override_succeeds payload target (err miss) step h = step target
  override_succeeds payload target panic step h = absurd (h refl)

  serve_tcp_succeeds :
      (sniff : Bool) (payload target : Bytes)
      → env.connection ≡ connected
      → env.initial_written ≡ true
      → env.relay_ok ≡ true
      → 0 < length payload
      → serve_tcp env sniff target payload ≡ (
        connect (target_of sniff target payload) ∷ write_remote payload ∷ relay_both ∷ [],
        finished,
      )
  unfolding serve_tcp sniff_initial
  serve_tcp_succeeds false payload target c w r h = connect_to_succeeds payload target c w r h
  serve_tcp_succeeds true payload target c w r h = rw (lt→ltb 0 (length payload) h) (
      override_succeeds payload target (sniff_tls_sni payload)
        (λ t. connect_to_succeeds payload t c w r h) (sniff_tls_sni-Returns payload).0)

module _ {Addr : Type 0} (show_ipv6 : Bytes → Bytes) (codec : Codec) (env : Env Addr)
    (sniff : Bool) where
  -- A TCP session whose calls succeed answers with two zero bytes, connects to the address of the
  -- request (or, where sniffing is on and finds a name, to that name at port 443), sends all the bytes
  -- that stood behind the request, and then relays; it does nothing else. The client is in the
  -- list, his request is one that `encode` can write, and at least a byte is behind it.
  pub serve_vless-tcp :
      (r : Request) (payload : Bytes)
      → r.command ≡ tcp
      → Opens codec env r payload
      → env.connection ≡ connected
      → env.initial_written ≡ true
      → env.relay_ok ≡ true
      → 0 < length payload
      → serve_vless show_ipv6 env codec sniff ≡ (
        answer (0 ∷ 0 ∷ [])
            ∷ connect (target_of sniff (to_string show_ipv6 r.address) payload)
            ∷ write_remote payload
            ∷ relay_both
            ∷ [],
        finished,
      )
  unfolding respond dispatch encode_response Response.encode
  serve_vless-tcp r payload k o c w g h =
      serve-Opens show_ipv6 codec env sniff r payload o
      ∙ ground (
        arith,
        o.answered,
        serve_tcp_succeeds env sniff payload (to_string show_ipv6 r.address) c w g h,
      )

module _ {Addr : Type 0} where
  initial_datagram-frame :
      (addr : Addr) (d more : Bytes)
      → IsU16 (length d)
      → initial_datagram addr (frame d ++ more) ≡ ok (send_to d addr ∷ [])
  unfolding initial_datagram whole_datagram frame
  initial_datagram-frame addr d more h =
      ground (arith, length-append {0} d more, take-append_at {0} (length d) d more)

module _ {Addr : Type 0} (show_ipv6 : Bytes → Bytes) (codec : Codec) (env : Env Addr)
    (sniff : Bool) where
  -- A UDP session whose calls succeed answers, looks the target up and sends the datagram that stood
  -- behind the request to the first address found, before it relays. The bytes behind that
  -- datagram, `more`, go nowhere. The client is in the list, his request is one that `encode` can
  -- write (without addon and Mux), and a whole datagram of fewer than 65536 bytes is behind it.
  pub serve_vless-udp :
      (r : Request) (d more : Bytes) (addr : Addr) (addrs : List Addr)
      → r.command ≡ udp
      → Opens codec env r (frame d ++ more)
      → env.bound ≡ true
      → env.registered_as ≡ registered
      → env.resolved ≡ some (addr ∷ addrs)
      → IsU16 (length d)
      → serve_vless show_ipv6 env codec sniff ≡ (
        answer (0 ∷ 0 ∷ [])
            ∷ resolve (to_string show_ipv6 r.address)
            ∷ send_to d addr
            ∷ relay_datagrams addr
            ∷ [],
        finished,
      )
  unfolding respond dispatch encode_response Response.encode serve_udp serve_registered
      serve_resolved
  serve_vless-udp r d more addr addrs k o b reg found h =
      serve-Opens show_ipv6 codec env sniff r (frame d ++ more) o
      ∙ ground (arith, o.answered, initial_datagram-frame addr d more h)
