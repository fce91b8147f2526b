-- ===== src/Xhttp/Downlink.antt =====
-- src/transport/xhttp/h2.rs: the down tasks. What is read from the VLESS side is sent to the client,
-- in a stream of its own (`handle_standalone`) maybe framed, in a GET (`handle_xhttp_get`) as it is.
-- The sends of HTTP/2 succeed; the random sizes for the ith read are a parameter.
pub mod Sends
use xray_lite.Prelude.{
  ℕ, zero, suc, ◌+◌, Bool, true, false, Option, none, some, List, [], ◌∷◌, ◌++◌, length,
  if◌then◌else◌,
}
use xray_lite.Prelude.Bytes.{Bytes, as_u32, put_u32}
use xray_lite.Xhttp.Shaping.{send_split_data}

-- What a read gives, with the framing flag that the up task may have cleared by then: bytes, none of
-- them at the end. Only a GET has a timeout.
pub data Pulled : Type 0 where
  pulled : Bool → Bytes → Pulled
  pull_failed pull_timeout : Pulled

-- How the response ends; a list of reads that is used up leaves it open.
pub data DownEnd : Type 0 where
  trailers end_stream aborted still_open : DownEnd

unfoldable pub grpc_frame : Bytes → Bytes
grpc_frame bytes = 0 ∷ (put_u32 (as_u32 (length bytes)) ++ bytes)

abbrev pub joined :
    Option (List Bytes × ℕ) → Option (List Bytes × DownEnd) → Option (List Bytes × DownEnd)
joined none rest = none
joined (some sent) none = none
joined (some (chunks, counted)) (some (more, end)) = some (chunks ++ more, end)

module _ (sizes : ℕ → List ℕ) where
  -- The chunks that are sent, and the end. `none` is no value of the program: the sizes ran out.
  unfoldable pub down_task : ℕ → List Pulled → Option (List Bytes × DownEnd)
  down_task i [] = some ([], still_open)
  down_task i (pulled framing [] ∷ pulls) = some ([], if framing then trailers else end_stream)
  down_task i (pulled framing (x ∷ xs) ∷ pulls) =
      joined (send_split_data (sizes i) (if framing then grpc_frame (x ∷ xs) else x ∷ xs))
        (down_task (i + 1) pulls)
  down_task i (pull_failed ∷ pulls) = some ([], aborted)
  down_task i (pull_timeout ∷ pulls) = some ([], aborted)

  -- `downstream` of a GET, and how much it adds to `transferred_bytes`.
  unfoldable pub get_downstream : ℕ → List Pulled → Option (List Bytes × DownEnd)
  get_downstream i [] = some ([], still_open)
  get_downstream i (pulled framing [] ∷ pulls) = some ([], end_stream)
  get_downstream i (pulled framing (x ∷ xs) ∷ pulls) =
      joined (send_split_data (sizes i) (x ∷ xs)) (get_downstream (i + 1) pulls)
  get_downstream i (pull_failed ∷ pulls) = some ([], aborted)
  get_downstream i (pull_timeout ∷ pulls) = some ([], end_stream)

-- `upstream` of a GET: what is written to the VLESS side for what its channel gives. `none` is the end
-- of the channel or the timeout.
unfoldable pub get_upstream : List (Option Bytes) → Bytes
get_upstream [] = []
get_upstream (none ∷ chunks) = []
get_upstream (some chunk ∷ chunks) = chunk ++ get_upstream chunks
