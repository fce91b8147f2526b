-- ===== src/Handler.antt =====
-- src/handler.rs: `serve_vless`, one function for each stretch between two calls that can fail.
pub mod World
pub mod Datagrams
pub mod Authorised
pub mod Forwards
pub mod Probes
mod Tests
use xray_lite.Prelude.{
  ℕ, ◌+◌, Bool, true, false, ◌&&◌, ◌||◌, not, Option, none, some, List, [], ◌∷◌, ◌++◌, length, take,
  drop, get_or, ltb, leb, if◌then◌else◌,
}
use xray_lite.Prelude.Outcome.{Outcome, ok, err, panic, ◌>>=◌}
use xray_lite.Prelude.Bytes.{Bytes, be16, bytes_eq, slice, with_index}
use xray_lite.Vless.Error.{VlessError}
use xray_lite.Vless.Address.{Address}
use xray_lite.Vless.Address.Text.{to_string}
use xray_lite.Vless.Request.{Request, Command, tcp, udp, mux}
use xray_lite.Vless.Response
use xray_lite.Vless.Codec.{Codec, decode_request, encode_response}
use xray_lite.Sniffer.{Miss, sniff_tls_sni}
use xray_lite.Handler.World.{
  Received, got, read_failed, timed_out, Connected, connected, connect_failed, connect_timed_out,
  Env, Action, answer, connect, write_remote, relay_both, resolve, send_to, relay_datagrams,
  read_error, read_timeout, write_error, connect_error, connect_timeout, remote_write_error,
  relay_error, bind_error, dns_failed, dns_error, decode_error, ServeError, finished, stopped,
  panicked, Session, Registered, registered, register_failed, register_panicked, register_error,
}

-- `b"HTTP/1.1 204 No Content\r\n\r\n"`
abbrev pub no_content : Bytes
no_content =
    0x48 ∷ 0x54 ∷ 0x54 ∷ 0x50 ∷ 0x2f ∷ 0x31 ∷ 0x2e ∷ 0x31 ∷ 0x20 ∷ 0x32 ∷ 0x30 ∷ 0x34 ∷ 0x20 ∷ 0x4e
    ∷ 0x6f ∷ 0x20 ∷ 0x43 ∷ 0x6f ∷ 0x6e ∷ 0x74 ∷ 0x65 ∷ 0x6e ∷ 0x74 ∷ 0x0d ∷ 0x0a ∷ 0x0d ∷ 0x0a ∷ []

abbrev pub get_word : Bytes
get_word = 0x47 ∷ 0x45 ∷ 0x54 ∷ 0x20 ∷ []

abbrev pub post_word : Bytes
post_word = 0x50 ∷ 0x4f ∷ 0x53 ∷ 0x54 ∷ []

abbrev pub head_word : Bytes
head_word = 0x48 ∷ 0x45 ∷ 0x41 ∷ 0x44 ∷ []

-- `windows(4).any(|w| w == word)`
unfoldable pub any_window : Bytes → Bytes → Bool
any_window word [] = false
any_window word (x ∷ xs) = bytes_eq (take 4 (x ∷ xs)) word || any_window word xs

unfoldable pub is_http_probe : Bytes → Bool
is_http_probe buf =
    (any_window get_word buf || any_window post_word buf) || any_window head_word buf

-- `format!("{}:443", sni)`
abbrev pub https_target : Bytes → Bytes
https_target sni = sni ++ (0x3a ∷ 0x34 ∷ 0x34 ∷ 0x33 ∷ [])

module _ {Addr : Type 0} where
  -- One more action in front of what follows.
  abbrev pub after : Action Addr → Session Addr → Session Addr
  after a (actions, end) = (a ∷ actions, end)

  -- What follows a call that answered, or the error of the call.
  abbrev pub unless : Bool → ServeError → Session Addr → Session Addr
  unless good e rest = if good then rest else ([], stopped e)

  -- `if buf.len() >= 2 + len`; the answer of `send_to` is only logged.
  unfoldable pub whole_datagram : Addr → Bytes → ℕ → Outcome ServeError (List (Action Addr))
  whole_datagram addr buf len =
      if leb (2 + len) (length buf)
      then slice buf 2 (2 + len) >>= (λ payload. ok (send_to payload addr ∷ []))
      else ok []

  -- The datagram behind the request, if all of it is there.
  unfoldable pub initial_datagram : Addr → Bytes → Outcome ServeError (List (Action Addr))
  unfolding whole_datagram
  initial_datagram addr buf =
      if ltb 0 (length buf) && leb 2 (length buf)
      then with_index buf 0 (λ hi. with_index buf 1 (λ lo. whole_datagram addr buf (be16 hi lo)))
      else ok []

  -- The two tasks, once the initial data were sent; they end the session.
  abbrev pub relays_after : Addr → Outcome ServeError (List (Action Addr)) → Session Addr
  relays_after addr (ok sent) = (sent ++ relay_datagrams addr ∷ [], finished)
  relays_after addr (err e) = ([], stopped e)
  relays_after addr panic = ([], panicked)

module _ {Addr : Type 0} (env : Env Addr) where
  -- Once connected: the initial data first, then the relay.
  forward : Bytes → Session Addr
  forward initial_data =
      let relayed = after relay_both (unless env.relay_ok relay_error ([], finished)) in
      if ltb 0 (length initial_data)
      then after (write_remote initial_data) (unless env.initial_written remote_write_error relayed)
      else relayed

  connect_result : Bytes → Connected → Session Addr
  connect_result initial_data connected = forward initial_data
  connect_result initial_data connect_failed = ([], stopped connect_error)
  connect_result initial_data connect_timed_out = ([], stopped connect_timeout)

  connect_to : Bytes → Bytes → Session Addr
  connect_to initial_data target =
      after (connect target) (connect_result initial_data env.connection)

  -- A sniffed name replaces the target, with port 443.
  override : Bytes → Bytes → Outcome Miss Bytes → Session Addr
  override initial_data target (ok sni) = connect_to initial_data (https_target sni)
  override initial_data target (err miss) = connect_to initial_data target
  override initial_data target panic = ([], panicked)

  sniff_initial : Bytes → Bytes → Session Addr
  sniff_initial initial_data target =
      if ltb 0 (length initial_data)
      then override initial_data target (sniff_tls_sni initial_data)
      else connect_to initial_data target

  -- The second read, for a client that has sent nothing behind its request.
  second_read : Bytes → Received → Session Addr
  second_read target (got bytes) = sniff_initial bytes target
  second_read target read_failed = sniff_initial [] target
  second_read target timed_out = sniff_initial [] target

  serve_tcp : Bool → Bytes → Bytes → Session Addr
  serve_tcp sniffing_enabled target buf =
      if sniffing_enabled
      then if ltb 0 (length buf) then sniff_initial buf target else second_read target env.second
      else connect_to buf target

module _ {Addr : Type 0} where
  serve_resolved : Bytes → Option (List Addr) → Session Addr
  serve_resolved buf none = ([], stopped dns_error)
  serve_resolved buf (some []) = ([], stopped dns_failed)
  serve_resolved buf (some (addr ∷ addrs)) = relays_after addr (initial_datagram addr buf)

module _ {Addr : Type 0} (env : Env Addr) where
  serve_registered : Bytes → Bytes → Registered → Session Addr
  serve_registered target buf registered = after (resolve target) (serve_resolved buf env.resolved)
  serve_registered target buf register_failed = ([], stopped register_error)
  serve_registered target buf register_panicked = ([], panicked)

  serve_udp : Bytes → Bytes → Session Addr
  serve_udp target buf = unless env.bound bind_error (serve_registered target buf env.registered_as)

  dispatch : Command → Bool → Bytes → Bytes → Session Addr
  dispatch tcp sniffing_enabled target buf = serve_tcp env sniffing_enabled target buf
  dispatch udp sniffing_enabled target buf = serve_udp target buf
  dispatch mux sniffing_enabled target buf = ([], finished)

module _ {Addr : Type 0} (show_ipv6 : Bytes → Bytes) (env : Env Addr) where
  respond : Codec → Bool → Request → Bytes → Session Addr
  respond codec sniffing_enabled request buf = after (answer (encode_response codec Response.new)) (
      unless env.answered write_error
        (dispatch env request.command sniffing_enabled (to_string show_ipv6 request.address) buf))

  -- The buffer is what the decoder left, also after an error.
  after_decode : Codec → Bool → Outcome VlessError Request × Bytes → Session Addr
  after_decode codec sniffing_enabled (ok request, buf) = respond codec sniffing_enabled request buf
  after_decode codec sniffing_enabled (err e, buf) =
      if is_http_probe buf
      then (answer no_content ∷ [], finished)
      else ([], stopped (decode_error e))
  after_decode codec sniffing_enabled (panic, buf) = ([], panicked)

  serve_first : Codec → Bool → Received → Session Addr
  serve_first codec sniffing_enabled (got []) = ([], finished)
  serve_first codec sniffing_enabled (got (x ∷ xs)) =
      after_decode codec sniffing_enabled (decode_request codec (x ∷ xs))
  serve_first codec sniffing_enabled read_failed = ([], stopped read_error)
  serve_first codec sniffing_enabled timed_out = ([], stopped read_timeout)

  pub serve_vless : Codec → Bool → Session Addr
  serve_vless codec sniffing_enabled = serve_first codec sniffing_enabled env.first
