-- ===== src/Xhttp/Grpc/RoundTrip.antt =====
-- src/transport/xhttp/grpc.rs: encoding and decoding of messages.
use xray_lite.Prelude.{
  ℕ, ◌/◌, ◌%◌, ◌^◌, ◌<◌, ◌≤◌, ◌≡◌, ◌≢◌, not, ◌==◌, ◌∷◌, ◌++◌, length, length-append, take,
  take-append, arith, ◌∙◌,
}
use xray_lite.Prelude.Outcome.{ok, panic}
use xray_lite.Prelude.Bytes.{Bytes, be32}
use xray_lite.Xhttp.Grpc.{GrpcMessage, encode, decode}

be32-put_u32 :
    (n : ℕ) → n < 2 ^ 32 → be32 (n / 2 ^ 24 % 256) (n / 65536 % 256) (n / 256 % 256) (n % 256) ≡ n
be32-put_u32 n h = omega arith

decode_frame :
    (f a b c d n : ℕ) (s : Bytes)
    → be32 a b c d ≡ n
    → n ≤ length s
    → decode (f ∷ a ∷ b ∷ c ∷ d ∷ s) ≡ ok (record { compressed = not (f == 0); payload = take n s })
unfolding decode
decode_frame f a b c d n s e h = ground arith

-- Decoding what was encoded, with anything behind it, gives the message, if its length fits the
-- four length bytes.
pub decode-encode_grpc :
    (m : GrpcMessage) (rest : Bytes) → length m.payload < 2 ^ 32 → decode (encode m ++ rest) ≡ ok m
unfolding encode
decode-encode_grpc m rest h =
    decode_frame _ _ _ _ _ (length m.payload) (m.payload ++ rest) (omega arith)
      (omega (arith, length-append {0} m.payload rest))
    ∙ rw (take-append m.payload rest) (ground arith)

-- The decoder never reads out of range.
pub decode_grpc-ne-panic : (bytes : Bytes) → decode bytes ≢ panic
unfolding decode
decode_grpc-ne-panic bytes = ground arith
