-- ===== src/Handler/Authorised.antt =====
-- src/handler.rs: who can make the server act, and sessions on any bytes.
use xray_lite.Prelude.{
  ◌≡◌, ◌≢◌, Bool, true, false, ◌||◌, Option, none, some, List, [], ◌∷◌, arith, refl,
}
use xray_lite.Prelude.Outcome.{Outcome, ok, err, panic}
use xray_lite.Prelude.Bytes.{Bytes}
use xray_lite.Vless.Error.{VlessError}
use xray_lite.Vless.Request.{Request, Command, tcp, udp, mux}
use xray_lite.Vless.Request.Safety.{Accepts, decode_request_sound, decode_request-ne-panic}
use xray_lite.Vless.Address.Text.{to_string}
use xray_lite.Vless.Codec.{Codec, decode_request}
use xray_lite.Sniffer.{Miss, sniff_tls_sni}
use xray_lite.Sniffer.Safety.{sniff_tls_sni-Returns}
use xray_lite.Handler.World.{
  Env, Action, answer, connect, write_remote, relay_both, resolve, send_to, relay_datagrams,
  Received, got, read_failed, timed_out, panicked, ServeError, Registered, registered,
  register_failed, register_panicked,
}
use xray_lite.Handler.{
  forward, connect_result, connect_to, override, sniff_initial, second_read, serve_tcp,
  initial_datagram, relays_after, serve_resolved, serve_registered, serve_udp, dispatch, respond,
  after_decode, serve_first, serve_vless,
}

-- Whether an action goes beyond answering the client.
abbrev pub is_outward : {Addr : Type 0} → Action Addr → Bool
is_outward (answer bytes) = false
is_outward (connect target) = true
is_outward (write_remote bytes) = true
is_outward relay_both = true
is_outward (resolve target) = true
is_outward (send_to bytes addr) = true
is_outward (relay_datagrams addr) = true

abbrev pub reaches_out : {Addr : Type 0} → List (Action Addr) → Bool
reaches_out [] = false
reaches_out (a ∷ actions) = is_outward a || reaches_out actions

-- The session's first bytes are a request of a client in the list.
abbrev pub FromMember : {Addr : Type 0} → Codec → Env Addr → Type 0
FromMember codec env =
    (bytes : Bytes) × (request : Request) × (rest : Bytes) × (env.first ≡ got bytes)
    × Accepts codec.allowed_uuids bytes request rest

module _ {Addr : Type 0} (show_ipv6 : Bytes → Bytes) (env : Env Addr) (codec : Codec)
    (sniff : Bool) where
  after_decode_reaches :
      (o : Outcome VlessError Request) (buf : Bytes)
      → reaches_out (after_decode show_ipv6 env codec sniff (o, buf)).0 ≡ true
      → (r : Request) × (o ≡ ok r)
  unfolding after_decode
  after_decode_reaches (ok r) buf h = (r, refl)
  after_decode_reaches (err e) buf h = absurd (ground arith)
  after_decode_reaches panic buf h = absurd (ground arith)

  serve_first_authorised :
      (received : Received)
      → env.first ≡ received
      → reaches_out (serve_first show_ipv6 env codec sniff received).0 ≡ true
      → FromMember codec env
  unfolding serve_first decode_request
  serve_first_authorised (got []) e h = absurd (ground arith)
  serve_first_authorised (got (x ∷ xs)) e h =
      let (o, buf) = decode_request codec (x ∷ xs) in
      let (r, accepted) = after_decode_reaches o buf h in
      (
        x ∷ xs,
        r,
        buf,
        e,
        decode_request_sound codec.allowed_uuids (x ∷ xs) r buf (ground (arith, accepted)),
      )
  serve_first_authorised read_failed e h = absurd (ground arith)
  serve_first_authorised timed_out e h = absurd (ground arith)

  -- A session that does anything but answer the client (that resolves a name, connects, sends a
  -- byte to a target or starts a relay) began with bytes that are a request of a client in the list.
  pub serve_authorised :
      reaches_out (serve_vless show_ipv6 env codec sniff).0 ≡ true → FromMember codec env
  unfolding serve_vless
  serve_authorised h = serve_first_authorised env.first refl h

module _ {Addr : Type 0} (env : Env Addr) where
  forward-ne-panicked : (bytes : Bytes) → (forward env bytes).1 ≢ panicked
  unfolding forward
  forward-ne-panicked bytes = ground arith

  connect-ne-panicked : (bytes target : Bytes) → (connect_to env bytes target).1 ≢ panicked
  unfolding connect_to connect_result
  connect-ne-panicked bytes target = ground (arith, forward-ne-panicked bytes)

  override-ne-panicked :
      (bytes target : Bytes) (o : Outcome Miss Bytes)
      → o ≢ panic
      → (override env bytes target o).1 ≢ panicked
  unfolding override
  override-ne-panicked bytes target (ok sni) h = connect-ne-panicked bytes _
  override-ne-panicked bytes target (err miss) h = connect-ne-panicked bytes target
  override-ne-panicked bytes target panic h = absurd (h refl)

  sniff_initial-ne-panicked : (bytes target : Bytes) → (sniff_initial env bytes target).1 ≢ panicked
  unfolding sniff_initial
  sniff_initial-ne-panicked bytes target = ground (
    arith,
    connect-ne-panicked bytes target,
    override-ne-panicked bytes target (sniff_tls_sni bytes) (sniff_tls_sni-Returns bytes).0,
  )

  second_read-ne-panicked :
      (target : Bytes) (received : Received) → (second_read env target received).1 ≢ panicked
  unfolding second_read
  second_read-ne-panicked target (got bytes) = sniff_initial-ne-panicked bytes target
  second_read-ne-panicked target read_failed = sniff_initial-ne-panicked [] target
  second_read-ne-panicked target timed_out = sniff_initial-ne-panicked [] target

  initial_datagram-ne-panic : (addr : Addr) (buf : Bytes) → initial_datagram addr buf ≢ panic
  unfolding initial_datagram
  initial_datagram-ne-panic addr buf = ground arith

  relays_after-ne-panicked :
      (addr : Addr) (o : Outcome ServeError (List (Action Addr)))
      → o ≢ panic
      → (relays_after addr o).1 ≢ panicked
  relays_after-ne-panicked addr (ok sent) h = λ p. cc
  relays_after-ne-panicked addr (err e) h = λ p. cc
  relays_after-ne-panicked addr panic h = absurd (h refl)

  serve_resolved-ne-panicked :
      (buf : Bytes) (resolved : Option (List Addr)) → (serve_resolved buf resolved).1 ≢ panicked
  unfolding serve_resolved
  serve_resolved-ne-panicked buf none = λ p. cc
  serve_resolved-ne-panicked buf (some []) = λ p. cc
  serve_resolved-ne-panicked buf (some (addr ∷ addrs)) =
      relays_after-ne-panicked addr _ (initial_datagram-ne-panic addr buf)

  serve_registered-ne-panicked :
      (target buf : Bytes) (r : Registered)
      → r ≢ register_panicked
      → (serve_registered env target buf r).1 ≢ panicked
  unfolding serve_registered
  serve_registered-ne-panicked target buf registered h = serve_resolved-ne-panicked buf env.resolved
  serve_registered-ne-panicked target buf register_failed h = λ p. cc
  serve_registered-ne-panicked target buf register_panicked h = absurd (h refl)

  serve_udp-ne-panicked :
      (target buf : Bytes)
      → env.registered_as ≢ register_panicked
      → (serve_udp env target buf).1 ≢ panicked
  unfolding serve_udp
  serve_udp-ne-panicked target buf h =
      ground (arith, serve_registered-ne-panicked target buf env.registered_as h)

  dispatch-ne-panicked :
      (command : Command) (sniff : Bool) (target buf : Bytes)
      → env.registered_as ≢ register_panicked
      → (dispatch env command sniff target buf).1 ≢ panicked
  unfolding dispatch serve_tcp
  dispatch-ne-panicked tcp sniff target buf h = ground (
    arith,
    sniff_initial-ne-panicked buf target,
    second_read-ne-panicked target env.second,
    connect-ne-panicked buf target,
  )
  dispatch-ne-panicked udp sniff target buf h = serve_udp-ne-panicked target buf h
  dispatch-ne-panicked mux sniff target buf h = ground arith

module _ {Addr : Type 0} (show_ipv6 : Bytes → Bytes) (env : Env Addr) (codec : Codec)
    (sniff : Bool) where
  after_decode-ne-panicked :
      (o : Outcome VlessError Request) (buf : Bytes)
      → env.registered_as ≢ register_panicked
      → o ≢ panic
      → (after_decode show_ipv6 env codec sniff (o, buf)).1 ≢ panicked
  unfolding after_decode respond
  after_decode-ne-panicked (ok r) buf g h =
      ground (arith, dispatch-ne-panicked env r.command sniff (to_string show_ipv6 r.address) buf g)
  after_decode-ne-panicked (err e) buf g h = ground arith
  after_decode-ne-panicked panic buf g h = absurd (h refl)

  serve_first-ne-panicked :
      (received : Received)
      → env.registered_as ≢ register_panicked
      → (serve_first show_ipv6 env codec sniff received).1 ≢ panicked
  unfolding serve_first decode_request
  serve_first-ne-panicked (got []) g = ground arith
  serve_first-ne-panicked (got (x ∷ xs)) g =
      after_decode-ne-panicked _ _ g (decode_request-ne-panic codec.allowed_uuids (x ∷ xs))
  serve_first-ne-panicked read_failed g = ground arith
  serve_first-ne-panicked timed_out g = ground arith

  -- No session panics, whatever the client sends and whatever the calls of the session answer, up to
  -- the relay of datagrams or of the TCP stream, unless tokio panics over the UDP socket.
  pub serve_vless-ne-panicked :
      env.registered_as ≢ register_panicked → (serve_vless show_ipv6 env codec sniff).1 ≢ panicked
  unfolding serve_vless
  serve_vless-ne-panicked = serve_first-ne-panicked env.first
