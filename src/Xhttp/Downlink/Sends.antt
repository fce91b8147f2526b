-- ===== src/Xhttp/Downlink/Sends.antt =====
-- src/transport/xhttp/h2.rs: what the down task sends, against what it reads.
use xray_lite.Prelude.{
  ℕ, ◌+◌, ◌≤◌, ◌≡◌, ◌∙◌, ◌≢◌, refl, sym, Bool, true, false, Option, some, List, [], ◌∷◌, ◌++◌,
  length, All, if◌then◌else◌, arith, append_assoc,
}
use xray_lite.Prelude.Bytes.{Bytes}
use xray_lite.Xhttp.Grpc
use xray_lite.Xhttp.Shaping.{send_split_data}
use xray_lite.Xhttp.Shaping.Split.{IsSize, IsPiece, concat, send_split_data_lem}
use xray_lite.Xhttp.Uplink.Frames.{frames, payloads}
use xray_lite.Xhttp.Downlink.{
  Pulled, pulled, DownEnd, trailers, end_stream, grpc_frame, joined, down_task,
}

concat-append : (xs ys : List Bytes) → concat (xs ++ ys) ≡ concat xs ++ concat ys
concat-append [] ys = refl
concat-append (x ∷ xs) ys = rw (concat-append xs ys) (sym (append_assoc x (concat xs) (concat ys)))

-- What the client should get for what was read.
abbrev pub wire : Bool → List Bytes → Bytes
wire true ms = frames ms
wire false ms = payloads ms

-- The reads give these messages, none of them empty, and then the end.
abbrev pub pulls_of : Bool → List Bytes → List Pulled
pulls_of framing [] = pulled framing [] ∷ []
pulls_of framing (m ∷ ms) = pulled framing m ∷ pulls_of framing ms

-- Enough random sizes for each read: no message is longer than `bound`, and a frame adds five bytes.
abbrev pub EnoughSizes : (ℕ → List ℕ) → ℕ → Type 0
EnoughSizes sizes bound = (i : ℕ) → All IsSize (sizes i) × (bound + 5 ≤ length (sizes i))

abbrev pub IsRead : ℕ → Bytes → Type 0
IsRead bound m = (m ≢ []) × (length m ≤ bound)

All-append : {A : Type 0} (P : A → Type 0) (xs ys : List A) → All P xs → All P ys → All P (xs ++ ys)
All-append P [] ys hx hy = hy
All-append P (x ∷ xs) ys hx hy = (hx.0, All-append P xs ys hx.1 hy)

-- A response that sends these bytes in pieces and ends so.
abbrev pub Sends : Option (List Bytes × DownEnd) → Bytes → DownEnd → Type 0
Sends result bytes end =
    (chunks : List Bytes) × (result ≡ some (chunks, end))
    × (concat chunks ≡ bytes)
    × All IsPiece chunks

Sends-joined :
    (sizes : List ℕ) (framed bytes : Bytes) (rest : Option (List Bytes × DownEnd)) (end : DownEnd)
    → All IsSize sizes
    → length framed ≤ length sizes
    → Sends rest bytes end
    → Sends (joined (send_split_data sizes framed) rest) (framed ++ bytes) end
Sends-joined sizes framed bytes rest end v long (more, left, same, small) =
    let (chunks, sent, whole, pieces) = send_split_data_lem sizes framed v long in
    (
      chunks ++ more,
      rw (sent, left) refl,
      concat-append chunks more ∙ rw (whole, same) refl,
      All-append IsPiece chunks more pieces small,
    )

-- With the framing flag as it is throughout, everything read from the VLESS side reaches the client, in
-- order, each read as one gRPC message if the flag is set and as it is otherwise; then the response
-- ends, by trailers or without. No read is longer than `bound`, and there are enough random sizes.
pub down_task_lem :
    (sizes : ℕ → List ℕ) (bound i : ℕ) (framing : Bool) (ms : List Bytes)
    → EnoughSizes sizes bound
    → All (IsRead bound) ms
    → Sends
        (down_task sizes i (pulls_of framing ms))
        (wire framing ms)
        (if framing then trailers else end_stream)
unfolding down_task Grpc.encode grpc_frame
down_task_lem sizes bound i true [] e h = ([], refl, refl, tt)
down_task_lem sizes bound i false [] e h = ([], refl, refl, tt)
down_task_lem sizes bound i framing ([] ∷ ms) e h = absurd (h.0.0 refl)
down_task_lem sizes bound i true ((x ∷ xs) ∷ ms) e h =
    Sends-joined (sizes i) (grpc_frame (x ∷ xs)) (frames ms)
      (down_task sizes (i + 1) (pulls_of true ms)) trailers (e i).0 (omega (arith, e i, h.0.1))
      (down_task_lem sizes bound (i + 1) true ms e h.1)
down_task_lem sizes bound i false ((x ∷ xs) ∷ ms) e h =
    Sends-joined (sizes i) (x ∷ xs) (payloads ms) (down_task sizes (i + 1) (pulls_of false ms))
      end_stream (e i).0 (omega (arith, e i, h.0.1))
      (down_task_lem sizes bound (i + 1) false ms e h.1)
