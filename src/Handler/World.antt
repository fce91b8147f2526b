-- ===== src/Handler/World.antt =====
-- The outside of a session of src/handler.rs. What sockets and timers answer is a record, `Env`, and
-- a session is the list of what it does with them, in order, and how it ends.
use xray_lite.Prelude.{Bool, Option, List}
use xray_lite.Prelude.Bytes.{Bytes}
use xray_lite.Vless.Error.{VlessError}

-- What a read under a timeout answers: bytes, none of them at the end of the stream, or no bytes.
pub data Received : Type 0 where
  got : Bytes → Received
  read_failed timed_out : Received

-- What `TcpStream::connect` under a timeout answers.
pub data Connected : Type 0 where
  connected connect_failed connect_timed_out : Connected

-- What `tokio::net::UdpSocket::from_std` answers. The socket is not set non-blocking before, which tokio
-- calls an error of the caller and may answer with a panic.
pub data Registered : Type 0 where
  registered register_failed register_panicked : Registered

-- The answers to the calls of one session. A socket address is of the type `Addr`.
pub record Env (Addr : Type 0) : Type 0 where
  pub first : Received
  pub answered : Bool
  pub second : Received
  pub connection : Connected
  pub initial_written : Bool
  pub relay_ok : Bool
  pub bound : Bool
  pub registered_as : Registered
  pub resolved : Option (List Addr)

-- What a session does outside: bytes for the client, and all that concerns the target.
pub data Action (Addr : Type 0) : Type 0 where
  answer : Bytes → Action Addr
  connect : Bytes → Action Addr
  write_remote : Bytes → Action Addr
  relay_both : Action Addr
  resolve : Bytes → Action Addr
  send_to : Bytes → Addr → Action Addr
  relay_datagrams : Addr → Action Addr

pub data ServeError : Type 0 where
  read_error read_timeout write_error connect_error connect_timeout remote_write_error : ServeError
  relay_error bind_error register_error dns_failed dns_error : ServeError
  decode_error : VlessError → ServeError

pub data End : Type 0 where
  finished : End
  stopped : ServeError → End
  panicked : End

abbrev pub Session : Type 0 → Type 0
Session Addr = List (Action Addr) × End
