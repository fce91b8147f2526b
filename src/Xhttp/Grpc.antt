-- ===== src/Xhttp/Grpc.antt =====
-- src/transport/xhttp/grpc.rs: length-prefixed messages, headers, status codes and trailers.
pub mod RoundTrip
use Prim.Native.String.{String}
use xray_lite.Prelude.{
  ℕ, ◌+◌, ◌≡◌, refl, Bool, true, false, not, Option, none, some, List, [], ◌∷◌, ◌++◌, length, ltb,
  ◌==◌, if◌then◌else◌,
}
use xray_lite.Prelude.Outcome.{Outcome, ok, ◌>>=◌, guard, ◌>>◌}
use xray_lite.Prelude.Bytes.{Bytes, as_u32, be32, put_u32, index, slice}

pub record GrpcMessage : Type 0 where
  pub compressed : Bool
  pub payload : Bytes

abbrev pub new : Bytes → GrpcMessage
new payload = record { compressed = false; payload = payload }

unfoldable pub encode : GrpcMessage → Bytes
encode m = (if m.compressed then 1 else 0) ∷ put_u32 (as_u32 (length m.payload)) ++ m.payload

-- `None` of the decoder, which wants more data.
pub data Absent : Type 0 where
  absent : Absent

unfoldable pub decode : Bytes → Outcome Absent GrpcMessage
decode bytes = do
  guard (not (ltb (length bytes) 5)) absent
  flag ← index bytes 0
  a ← index bytes 1
  b ← index bytes 2
  c ← index bytes 3
  d ← index bytes 4
  guard (not (ltb (length bytes) (5 + be32 a b c d))) absent
  payload ← slice bytes 5 (5 + be32 a b c d)
  ok (record { compressed = not (flag == 0); payload = payload })

unfoldable pub empty : Bytes
empty = 0 ∷ 0 ∷ 0 ∷ 0 ∷ 0 ∷ []

abbrev pub Headers : Type 0
Headers = List (String × String)

unfoldable pub with_grpc_defaults : Headers → Headers
with_grpc_defaults h =
    ((h ++ ("content-type", "application/grpc") ∷ []) ++ ("grpc-encoding", "identity") ∷ [])
    ++ ("grpc-accept-encoding", "gzip") ∷ []

unfoldable pub add_header : Headers → String → String → Headers
add_header h key value = h ++ (key, value) ∷ []

pub data GrpcStatus : Type 0 where
  grpc_ok cancelled unknown invalid_argument deadline_exceeded not_found already_exists : GrpcStatus
  permission_denied resource_exhausted failed_precondition aborted out_of_range : GrpcStatus
  unimplemented internal unavailable data_loss unauthenticated : GrpcStatus

-- The discriminants of the enum, `self as u32`.
unfoldable pub status_code : GrpcStatus → ℕ
status_code grpc_ok = 0
status_code cancelled = 1
status_code unknown = 2
status_code invalid_argument = 3
status_code deadline_exceeded = 4
status_code not_found = 5
status_code already_exists = 6
status_code permission_denied = 7
status_code resource_exhausted = 8
status_code failed_precondition = 9
status_code aborted = 10
status_code out_of_range = 11
status_code unimplemented = 12
status_code internal = 13
status_code unavailable = 14
status_code data_loss = 15
status_code unauthenticated = 16

unfoldable pub as_str : GrpcStatus → String
as_str grpc_ok = "0"
as_str cancelled = "1"
as_str unknown = "2"
as_str invalid_argument = "3"
as_str deadline_exceeded = "4"
as_str not_found = "5"
as_str already_exists = "6"
as_str permission_denied = "7"
as_str resource_exhausted = "8"
as_str failed_precondition = "9"
as_str aborted = "10"
as_str out_of_range = "11"
as_str unimplemented = "12"
as_str internal = "13"
as_str unavailable = "14"
as_str data_loss = "15"
as_str unauthenticated = "16"

unfoldable pub message : GrpcStatus → String
message grpc_ok = "OK"
message cancelled = "Cancelled"
message unknown = "Unknown"
message invalid_argument = "Invalid argument"
message deadline_exceeded = "Deadline exceeded"
message not_found = "Not found"
message already_exists = "Already exists"
message permission_denied = "Permission denied"
message resource_exhausted = "Resource exhausted"
message failed_precondition = "Failed precondition"
message aborted = "Aborted"
message out_of_range = "Out of range"
message unimplemented = "Unimplemented"
message internal = "Internal error"
message unavailable = "Unavailable"
message data_loss = "Data loss"
message unauthenticated = "Unauthenticated"

pub record GrpcTrailer : Type 0 where
  pub status : GrpcStatus
  pub text : Option String

abbrev pub ok_trailer : GrpcTrailer
ok_trailer = record { status = grpc_ok; text = none }

abbrev pub error_trailer : GrpcStatus → String → GrpcTrailer
error_trailer status text = record { status = status; text = some text }

message_header : Option String → Headers
message_header none = []
message_header (some msg) = ("grpc-message", msg) ∷ []

unfoldable pub build : GrpcTrailer → Headers
unfolding message_header as_str
build t = ("grpc-status", as_str t.status) ∷ message_header t.text
