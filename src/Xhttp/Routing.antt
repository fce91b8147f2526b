-- ===== src/Xhttp/Routing.antt =====
-- src/transport/xhttp: h2.rs, which handler a request gets, and server.rs, the making of the server.
pub mod Pairing
use xray_lite.Prelude.{
  ℕ, zero, suc, ◌+◌, Bool, true, false, not, ◌||◌, Option, none, some, List, [], ◌∷◌, if◌then◌else◌,
}
use xray_lite.Prelude.Outcome.{Outcome, ok, err}
use xray_lite.Prelude.Bytes.{Bytes, bytes_eq}
use xray_lite.ProxyProtocol.Text.{starts_with}
use xray_lite.Server.{XhttpConfig, XhttpMode, auto, stream_up, stream_down, stream_one}
use xray_lite.Xhttp.Sessions.{Table, get}

pub data XhttpError : Type 0 where
  empty_path : XhttpError

-- `XhttpServer`, and its `H2Handler` with the counter of the traffic
pub record XhttpServer : Type 0 where
  pub config : XhttpConfig
  pub traffic_counter : ℕ

unfoldable pub new : XhttpConfig → Outcome XhttpError XhttpServer
new config = elim config.path [
  | [] ↦ err empty_path
  | x ∷ xs ↦ ok (record { config = config; traffic_counter = 0 })
]

-- `XhttpMode::as_str`: "auto", "stream-up", "stream-down" and "stream-one"
unfoldable pub as_str : XhttpMode → Bytes
as_str auto = 0x61 ∷ 0x75 ∷ 0x74 ∷ 0x6f ∷ []
as_str stream_up = 0x73 ∷ 0x74 ∷ 0x72 ∷ 0x65 ∷ 0x61 ∷ 0x6d ∷ 0x2d ∷ 0x75 ∷ 0x70 ∷ []
as_str stream_down = 0x73 ∷ 0x74 ∷ 0x72 ∷ 0x65 ∷ 0x61 ∷ 0x6d ∷ 0x2d ∷ 0x64 ∷ 0x6f ∷ 0x77 ∷ 0x6e ∷ []
as_str stream_one = 0x73 ∷ 0x74 ∷ 0x72 ∷ 0x65 ∷ 0x61 ∷ 0x6d ∷ 0x2d ∷ 0x6f ∷ 0x6e ∷ 0x65 ∷ []

pub data Method : Type 0 where
  get_method post_method other_method : Method

-- A header that is missing, or is no text, is empty.
pub record Request : Type 0 where
  pub path : Bytes
  pub method : Method
  pub user_agent : Bytes
  pub content_type : Bytes

-- What a request gets: an error response, a GET session, the channel of one, or a stream of its own.
pub data Route : Type 0 where
  not_found method_not_allowed : Route
  split_get : Bytes → Route
  split_post : ℕ → Route
  standalone : Bool → Route

-- `str::contains`
unfoldable pub contains : Bytes → Bytes → Bool
contains needle [] = starts_with needle []
contains needle (x ∷ xs) = starts_with needle (x ∷ xs) || contains needle xs

-- "Go-http-client" and "grpc"
abbrev pub go_client : Bytes
go_client =
    0x47 ∷ 0x6f ∷ 0x2d ∷ 0x68 ∷ 0x74 ∷ 0x74 ∷ 0x70 ∷ 0x2d ∷ 0x63 ∷ 0x6c ∷ 0x69 ∷ 0x65 ∷ 0x6e ∷ 0x74
    ∷ []

abbrev pub grpc_word : Bytes
grpc_word = 0x67 ∷ 0x72 ∷ 0x70 ∷ 0x63 ∷ []

abbrev pub is_some {ℓ} : {A : Type ℓ} → Option A → Bool
is_some none = false
is_some (some a) = true

-- The table changes while a request waits: `tables n` is the table at its nth look.
module _ (tables : ℕ → Table) where
  -- `for _ in 0..40`: the number of the look after the loop, which starts at the nth. There is a
  -- pause of 50 ms behind each look that finds nothing.
  unfoldable pub wait_from : ℕ → ℕ → Bytes → ℕ
  wait_from zero n path = n
  wait_from (suc rounds) n path =
      let rest = wait_from rounds (n + 1) path in
      if is_some (get path (tables n)) then n + 1 else rest

  abbrev by_session : Option ℕ → Request → Route
  by_session none r = standalone (contains grpc_word r.content_type)
  by_session (some id) r = split_post id

  -- The last look is the one that takes the sender.
  unfoldable pub route_post : Request → Route
  route_post r =
      let looks = (if contains go_client r.user_agent then 0 else wait_from 40 0 r.path) in
      by_session (get r.path (tables looks)) r

  by_method : Method → Request → Route
  by_method get_method r = split_get r.path
  by_method post_method r = route_post r
  by_method other_method r = method_not_allowed

  -- `handle_request`, up to the call of a handler.
  unfoldable pub handle_request : XhttpConfig → Request → Route
  unfolding by_method
  handle_request config r =
      if starts_with config.path r.path then by_method r.method r else not_found
