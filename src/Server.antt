-- ===== src/Server.antt =====
-- src/server.rs: what happens to a client's connection before the VLESS session, and what the server
-- takes from its configuration. Sockets are not modelled: a connection is the bytes that the
-- client will have sent.
pub mod Header
pub mod Streams
pub mod Permits
pub mod Configured
mod Tests
use xray_lite.Prelude.{
  ℕ, ◌+◌, ◌-◌, Bool, true, false, Option, none, some, List, [], ◌∷◌, length, take, drop, ltb, leb,
  min, if◌then◌else◌,
}
use xray_lite.Prelude.Outcome.{Outcome, ok, err, panic, ◌>>=◌}
use xray_lite.Prelude.Bytes.{Bytes}
use xray_lite.ProxyProtocol.{
  ProxyHeader, ProxyError, SocketAddr, parse_proxy_protocol, is_proxy_protocol,
}
use xray_lite.Config
use xray_lite.Config.{Inbound, Client, RealitySettings, XhttpSettings, Security}

-- `PrefixedStream`: a cursor over the bytes to replay, and what the inner stream has yet to give. A
-- connection with nothing to replay has an empty prefix.
pub record PrefixedStream : Type 0 where
  pub prefix : Bytes
  pub position : ℕ
  pub inner : Bytes

unfoldable pub new : Bytes → Bytes → PrefixedStream
new prefix inner = record { prefix = prefix; position = 0; inner = inner }

-- A read into `room` bytes, where the inner stream would give `ready` bytes.
unfoldable pub poll_read : ℕ → ℕ → PrefixedStream → Bytes × PrefixedStream
poll_read room ready s =
    let n = min room (length s.prefix - s.position) in
    if ltb s.position (length s.prefix)
    then (take n (drop s.position s.prefix), record s { position = s.position + n })
    else (take (min room ready) s.inner, record s { inner = drop (min room ready) s.inner })

pub data ServerError : Type 0 where
  unexpected_eof : ServerError
  reality_failed : ServerError

-- What `peek` under its timeout answers: so many bytes are there to be read, or it failed.
pub data Peeked : Type 0 where
  there : ℕ → Peeked
  nothing : Peeked

-- `read_exact`
abbrev pub read_exact : ℕ → Bytes → Outcome ServerError (Bytes × Bytes)
read_exact n s = if leb n (length s) then ok (take n s, drop n s) else err unexpected_eof

module _ (parse_ipv6 : Bytes → Option Bytes) where
  -- `read_buf[consumed..]` panics if the parser counted too many bytes.
  after_parse :
      Bytes
      → Bytes
      → Outcome ProxyError (ProxyHeader × ℕ)
      → Outcome ServerError (PrefixedStream × Option SocketAddr)
  after_parse read_buf stream (ok (header, consumed)) =
      if leb consumed (length read_buf)
      then ok (new (drop consumed read_buf) stream, some header.source_addr)
      else panic
  after_parse read_buf stream (err e) = ok (new read_buf stream, none)
  after_parse read_buf stream panic = panic

  after_peek : ℕ → Bytes → Outcome ServerError (PrefixedStream × Option SocketAddr)
  after_peek n stream =
      if is_proxy_protocol (take n stream)
      then (do
        (read_buf, left) ← read_exact n stream
        after_parse read_buf left (parse_proxy_protocol parse_ipv6 read_buf))
      else ok (new [] stream, none)

  -- The part of `handle_client` that takes a PROXY header off the stream.
  unfoldable pub take_header :
      Bool → Bytes → Peeked → Outcome ServerError (PrefixedStream × Option SocketAddr)
  unfolding after_peek after_parse
  take_header false stream peeked = ok (new [] stream, none)
  take_header true stream nothing = ok (new [] stream, none)
  take_header true stream (there n) =
      if ltb 0 n then after_peek n stream else ok (new [] stream, none)

-- Who gets the stream in the end.
pub data Handed : Type 0 where
  to_xhttp to_vless : PrefixedStream → Handed

abbrev through_reality :
    Option (PrefixedStream → Outcome ServerError PrefixedStream)
    → PrefixedStream
    → Outcome ServerError PrefixedStream
through_reality none stream = ok stream
through_reality (some accept) stream = accept stream

-- `handle_client`, up to the call of the XHTTP server or of the VLESS session. The stream that the
-- Reality server makes of the connection is a parameter.
unfoldable pub handle_client :
    (Bytes → Option Bytes)
    → Option (PrefixedStream → Outcome ServerError PrefixedStream)
    → Bool
    → Bool
    → Bytes
    → Peeked
    → Outcome ServerError Handed
handle_client parse_ipv6 reality has_xhttp accept_proxy_protocol stream peeked = do
  (plain, real_client_addr) ← take_header parse_ipv6 accept_proxy_protocol stream peeked
  tunnel ← through_reality reality plain
  ok (if has_xhttp then to_xhttp tunnel else to_vless tunnel)

-- From the configuration: the clients whose ids are UUIDs.
unfoldable pub uuids : (Bytes → Option Bytes) → List Client → List Bytes
uuids parse_str [] = []
uuids parse_str (client ∷ clients) = elim (parse_str client.id) [
  | none ↦ uuids parse_str clients
  | some uuid ↦ uuid ∷ uuids parse_str clients
]

-- `transport::reality::RealityConfig`, and `transport::xhttp::XhttpConfig` with its modes.
pub record RealityConfig : Type 0 where
  pub dest : Bytes
  pub server_names : List Bytes
  pub private_key : Bytes
  pub public_key : Option Bytes
  pub short_ids : List Bytes
  pub fingerprint : Bytes

pub data XhttpMode : Type 0 where
  auto stream_up stream_down stream_one : XhttpMode

pub record XhttpConfig : Type 0 where
  pub mode : XhttpMode
  pub path : Bytes
  pub host : Bytes

unfoldable pub xhttp_mode : Config.XhttpMode → XhttpMode
xhttp_mode Config.auto = auto
xhttp_mode Config.stream_up = stream_up
xhttp_mode Config.stream_down = stream_down
xhttp_mode Config.stream_one = stream_one

unfoldable pub xhttp_config : XhttpSettings → XhttpConfig
xhttp_config s = record { mode = xhttp_mode s.mode; path = s.path; host = s.host }

unfoldable pub reality_config : RealitySettings → RealityConfig
reality_config s = record {
  dest = s.dest;
  server_names = s.server_names;
  private_key = s.private_key;
  public_key = s.public_key;
  short_ids = s.short_ids;
  fingerprint = s.fingerprint;
}

-- `security == reality`, and the settings are there.
abbrev when_reality : Security → Option RealitySettings → Option RealityConfig
when_reality Config.reality (some settings) = some (reality_config settings)
when_reality Config.reality none = none
when_reality Config.plain settings = none
when_reality Config.tls settings = none

unfoldable pub reality_of : Inbound → Option RealityConfig
reality_of i = when_reality i.stream_settings.security i.stream_settings.reality_settings
