-- ===== src/Xhttp/Uplink/Frames.antt =====
-- src/transport/xhttp/h2.rs: the up task on framed messages.
use xray_lite.Prelude.{
  ℕ, zero, suc, ◌^◌, ◌/◌, ◌%◌, ◌≤◌, ◌<◌, ◌≡◌, ◌≢◌, refl, true, false, ◌&&◌, some, List, [], ◌∷◌,
  ◌++◌, length, take, drop, ltb, All, arith, Bool-cases, inl, inr, length-append, length-drop,
  take-append, drop-append, append_assoc,
}
use xray_lite.Prelude.Bytes.{Bytes, be32}
use xray_lite.Xhttp.Grpc
use xray_lite.Xhttp.Uplink.{Uplink, Deframed, deframe, written_before, is_plain, up_chunk}

deframe_ends :
    (fuel : ℕ) (bytes : Bytes)
    → length bytes < fuel
    → (d : Deframed) × (deframe fuel bytes ≡ some d)
unfolding deframe
deframe_ends zero bytes h = absurd (omega arith)
deframe_ends (suc fuel) [] h = (_, refl)
deframe_ends (suc fuel) (z ∷ []) h = (_, refl)
deframe_ends (suc fuel) (z ∷ a ∷ []) h = (_, refl)
deframe_ends (suc fuel) (z ∷ a ∷ b ∷ []) h = (_, refl)
deframe_ends (suc fuel) (z ∷ a ∷ b ∷ c ∷ []) h = (_, refl)
deframe_ends (suc fuel) (z ∷ a ∷ b ∷ c ∷ d ∷ rest) h =
    elim (Bool-cases (ltb 65535 (be32 a b c d))) [
      | inl long ↦ (
        record { framing = false; written = z ∷ a ∷ b ∷ c ∷ d ∷ rest; leftover = [] },
        ground (arith, long),
      )
      | inr fits ↦ elim (Bool-cases (ltb (length rest) (be32 a b c d))) [
        | inl cut ↦ (
          record { framing = true; written = []; leftover = z ∷ a ∷ b ∷ c ∷ d ∷ rest },
          ground (arith, fits, cut),
        )
        | inr whole ↦
            let (next, ends) =
              deframe_ends fuel (drop (be32 a b c d) rest)
                (omega (arith, length-drop {0} (be32 a b c d) rest)) in
            (
              record next { written = take (be32 a b c d) rest ++ next.written },
              ground (arith, fits, whole, ends),
            )
      ]
    ]

-- Messages as a client frames them, one after the other, and what they carry.
abbrev pub frames : List Bytes → Bytes
frames [] = []
frames (m ∷ ms) = Grpc.encode (Grpc.new m) ++ frames ms

abbrev pub payloads : List Bytes → Bytes
payloads [] = []
payloads (m ∷ ms) = m ++ payloads ms

-- A message that the code does not take for unframed data.
abbrev pub IsMessage : Bytes → Type 0
IsMessage m = length m ≤ 65535

deframe_tail :
    (fuel : ℕ) (tail : Bytes)
    → length tail < 5
    → deframe (suc fuel) tail ≡ some (record { framing = true; written = []; leftover = tail })
unfolding deframe
deframe_tail fuel [] h = refl
deframe_tail fuel (a ∷ []) h = refl
deframe_tail fuel (a ∷ b ∷ []) h = refl
deframe_tail fuel (a ∷ b ∷ c ∷ []) h = refl
deframe_tail fuel (a ∷ b ∷ c ∷ d ∷ []) h = refl
deframe_tail fuel (a ∷ b ∷ c ∷ d ∷ e ∷ tail) h = absurd (omega arith)

u32-bytes :
    (n : ℕ) → n ≤ 65535 → be32 (n / 2 ^ 24 % 256) (n / 65536 % 256) (n / 256 % 256) (n % 256) ≡ n
u32-bytes n h = omega arith

deframe-frame :
    (fuel n : ℕ) (z a b c d : ℕ) (m rest : Bytes)
    → be32 a b c d ≡ length m
    → length m ≤ 65535
    → deframe (suc fuel) (z ∷ a ∷ b ∷ c ∷ d ∷ (m ++ rest)) ≡ written_before m (deframe fuel rest)
unfolding deframe
deframe-frame fuel n z a b c d m rest e h =
    ground (arith, e, length-append {0} m rest, take-append m rest, drop-append m rest)

deframe-frames :
    (fuel : ℕ) (ms : List Bytes) (tail : Bytes)
    → All IsMessage ms
    → length tail < 5
    → length (frames ms ++ tail) < fuel
    → deframe fuel (frames ms ++ tail)
      ≡ some (record { framing = true; written = payloads ms; leftover = tail })
unfolding Grpc.encode
deframe-frames zero ms tail v h k = absurd (omega arith)
deframe-frames (suc fuel) [] tail v h k = deframe_tail fuel tail h
deframe-frames (suc fuel) (m ∷ ms) tail (short, v) h k = ground (
  arith,
  append_assoc m (frames ms) tail,
  deframe-frame fuel 0 0 (length m / 2 ^ 24 % 256) (length m / 65536 % 256) (length m / 256 % 256)
      (length m % 256) m (frames ms ++ tail) (u32-bytes (length m) short) short,
  deframe-frames fuel ms tail v h (
      omega (
        arith,
        length-append {0} (m ++ frames ms) tail,
        length-append {0} m (frames ms),
        length-append {0} (frames ms) tail,
      )),
)

-- The first chunk of a framed body: the messages in it come out in order, as just what they carry,
-- and the first bytes of a header that is not complete wait for the next chunk. A message holds
-- 65535 bytes at most.
pub up_chunk-frames :
    (ms : List Bytes) (tail : Bytes)
    → All IsMessage ms
    → length tail < 5
    → ms ≢ []
    → up_chunk (record { framing = true; first_chunk = true; leftover = [] }) (frames ms ++ tail)
      ≡ some (record { framing = true; first_chunk = false; leftover = tail }, payloads ms)
unfolding up_chunk Grpc.encode
up_chunk-frames [] tail v h ne = absurd (ne refl)
up_chunk-frames (m ∷ ms) tail v h ne =
    ground (
      arith,
      deframe-frames (suc (length (frames (m ∷ ms) ++ tail))) (m ∷ ms) tail v h (omega arith),
    )

-- Whatever arrives, a chunk is dealt with: the loop over the messages ends.
pub up_chunk_ends :
    (u : Uplink) (chunk : Bytes) → (v : Uplink) × (out : Bytes) × (up_chunk u chunk ≡ some (v, out))
unfolding up_chunk
up_chunk_ends u chunk =
    let (d, ends) =
      deframe_ends (suc (length (u.leftover ++ chunk))) (u.leftover ++ chunk) (omega arith) in
    elim (Bool-cases u.framing) [
      | inr plain ↦ (u, chunk, rw plain refl)
      | inl framed ↦ elim (Bool-cases (u.first_chunk && is_plain chunk)) [
        | inl falls_back ↦ (
          record { framing = false; first_chunk = false; leftover = u.leftover },
          chunk,
          rw (framed, falls_back) refl,
        )
        | inr goes_on ↦ (
          record { framing = d.framing; first_chunk = false; leftover = d.leftover },
          d.written,
          rw (framed, goes_on, ends) refl,
        )
      ]
    ]
