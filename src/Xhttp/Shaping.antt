-- ===== src/Xhttp/Shaping.antt =====
-- src/transport/xhttp/h2.rs: padding and the shaping of the traffic. What the random number
-- generator gives is an argument.
pub mod Split
use xray_lite.Prelude.{
  ℕ, zero, suc, ◌+◌, ◌-◌, ◌*◌, ◌/◌, ◌%◌, Bool, true, false, Option, none, some, List, [], ◌∷◌,
  length, take, drop, ltb, if◌then◌else◌, map, min,
}
use xray_lite.Prelude.Bytes.{Bytes}

-- The bounds of the length of the padding, the upper one not in it.
unfoldable pub padding_range : ℕ → ℕ × ℕ
padding_range traffic = if ltb traffic 1048576 then (64, 512) else (16, 32)

-- `if *b > 90 { *b += 6; }`
abbrev to_lower : ℕ → ℕ
to_lower b = if ltb 90 b then b + 6 else b

-- `if *b > 57 { *b += 7; }`
abbrev to_upper : ℕ → ℕ
to_upper b = if ltb 57 b then b + 7 else b

-- One random byte as a digit or letter.
unfoldable pub padding_byte : ℕ → ℕ
padding_byte b = to_lower (to_upper (b % 62 + 48))

unfoldable pub gen_adaptive_padding : Bytes → Bytes
gen_adaptive_padding random = map padding_byte random

abbrev counted : Bytes → Option (List Bytes × ℕ) → Option (List Bytes × ℕ)
counted chunk none = none
counted chunk (some (chunks, n)) = some (chunk ∷ chunks, length chunk + n)

-- `while src.has_remaining()`: the chunks that are sent and the bytes counted. `sizes` are the
-- random chunk sizes; `none` is no value of the program: the sizes ran out. A `take` of `size` bytes
-- is one of `min(src.len(), size)`.
unfoldable pub send_split_data : List ℕ → Bytes → Option (List Bytes × ℕ)
send_split_data sizes [] = some ([], 0)
send_split_data [] (x ∷ src) = none
send_split_data (size ∷ sizes) (x ∷ src) =
    counted (take size (x ∷ src)) (send_split_data sizes (drop size (x ∷ src)))
