-- ===== src/Xhttp/Uplink.antt =====
-- src/transport/xhttp/h2.rs, the up task of `handle_standalone`: what a client sends, freed from its
-- gRPC framing where it has one, is written to the VLESS side.
pub mod Frames
use xray_lite.Prelude.{
  ℕ, zero, suc, ◌+◌, Bool, true, false, not, ◌&&◌, Option, none, some, [], ◌∷◌, ◌++◌, length, take,
  drop, ltb, if◌then◌else◌, ◌==◌,
}
use xray_lite.Prelude.Bytes.{Bytes, be32}

-- `use_grpc_framing`, `first_chunk`, `leftover`
pub record Uplink : Type 0 where
  pub framing : Bool
  pub first_chunk : Bool
  pub leftover : Bytes

-- The result of the inner loop: the framing flag, the bytes written, the bytes left over.
pub record Deframed : Type 0 where
  pub framing : Bool
  pub written : Bytes
  pub leftover : Bytes

abbrev written_before : Bytes → Option Deframed → Option Deframed
written_before out none = none
written_before out (some d) = some (record d { written = out ++ d.written })

-- `while leftover.len() >= 5`. `none` is no value of the program: the loop outran the model's fuel.
unfoldable pub deframe : ℕ → Bytes → Option Deframed
deframe zero bytes = none
deframe (suc fuel) (z ∷ a ∷ b ∷ c ∷ d ∷ rest) =
    let next =
      written_before (take (be32 a b c d) rest) (deframe fuel (drop (be32 a b c d) rest)) in
    if ltb 65535 (be32 a b c d)
    then some (record { framing = false; written = z ∷ a ∷ b ∷ c ∷ d ∷ rest; leftover = [] })
    else if ltb (length rest) (be32 a b c d)
    then some (record { framing = true; written = []; leftover = z ∷ a ∷ b ∷ c ∷ d ∷ rest })
    else next
deframe (suc fuel) short = some (record { framing = true; written = []; leftover = short })

-- Whether a first chunk shows that there is no framing: its first byte is neither 0 nor 1.
abbrev is_plain : Bytes → Bool
is_plain [] = false
is_plain (x ∷ xs) = not (x == 0) && not (x == 1)

abbrev keep : Option Deframed → Option (Uplink × Bytes)
keep none = none
keep (some d) =
    some (record { framing = d.framing; first_chunk = false; leftover = d.leftover }, d.written)

-- One chunk of the request body, and what is written for it.
unfoldable pub up_chunk : Uplink → Bytes → Option (Uplink × Bytes)
unfolding deframe
up_chunk u chunk =
    let framed = keep (deframe (suc (length (u.leftover ++ chunk))) (u.leftover ++ chunk)) in
    if u.framing
    then (if u.first_chunk && is_plain chunk
        then some (record { framing = false; first_chunk = false; leftover = u.leftover }, chunk)
        else framed)
    else some (u, chunk)
