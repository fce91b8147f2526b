-- ===== src/Xhttp/Shaping/Split.antt =====
-- src/transport/xhttp/h2.rs: the padding, and the chunks that shaping sends.
use xray_lite.Prelude.{
  ℕ, zero, suc, ◌≤◌, ◌<◌, ◌≡◌, ◌⊎◌, refl, some, List, [], ◌∷◌, ◌++◌, length, take, drop, All, arith,
  length-take, length-drop, take-append-drop,
}
use xray_lite.Prelude.Bytes.{Bytes}
use xray_lite.Xhttp.Shaping.{padding_byte, gen_adaptive_padding, send_split_data}

-- `0-9`, `A-Z`, `a-z`
abbrev pub IsAlphanumeric : ℕ → Type 0
IsAlphanumeric b = ((48 ≤ b) × (b ≤ 57)) ⊎ (((65 ≤ b) × (b ≤ 90)) ⊎ ((97 ≤ b) × (b ≤ 122)))

padding_byte-IsAlphanumeric : (b : ℕ) → IsAlphanumeric (padding_byte b)
unfolding padding_byte
padding_byte-IsAlphanumeric b = ground arith

-- Whatever the random bytes, the padding has a digit or letter for each, so that it is the text of
-- a header (and UTF-8, which the code takes for granted).
pub gen_adaptive_padding_lem :
    (random : Bytes)
    → All IsAlphanumeric (gen_adaptive_padding random)
      × (length (gen_adaptive_padding random) ≡ length random)
unfolding gen_adaptive_padding
gen_adaptive_padding_lem [] = (tt, refl)
gen_adaptive_padding_lem (b ∷ bs) =
    let (letters, len) = gen_adaptive_padding_lem bs in
    ((padding_byte-IsAlphanumeric b, letters), omega (arith, len))

abbrev pub concat : List Bytes → Bytes
concat [] = []
concat (c ∷ cs) = c ++ concat cs

abbrev pub IsSize : ℕ → Type 0
IsSize n = (8192 ≤ n) × (n < 16384)

abbrev pub IsPiece : Bytes → Type 0
IsPiece c = (0 < length c) × (length c < 16384)

-- With enough random sizes in the code's range, the chunks that are sent make up the data, none of
-- them is empty or longer than 16383 bytes, and the counter grows by the length of the data.
pub send_split_data_lem :
    (sizes : List ℕ) (src : Bytes)
    → All IsSize sizes
    → length src ≤ length sizes
    → (chunks : List Bytes) × (send_split_data sizes src ≡ some (chunks, length src))
      × (concat chunks ≡ src)
      × All IsPiece chunks
unfolding send_split_data
send_split_data_lem sizes [] v h = ([], refl, refl, tt)
send_split_data_lem [] (x ∷ src) v h = absurd (omega arith)
send_split_data_lem (zero ∷ sizes) (x ∷ src) ((low, high), v) h = absurd (omega arith)
send_split_data_lem (suc n ∷ sizes) (x ∷ src) ((low, high), v) h =
    let (chunks, sent, same, small) =
      send_split_data_lem sizes (drop n src) v (omega (arith, length-drop {0} n src)) in
    (
      (x ∷ take n src) ∷ chunks,
      ground (arith, sent, length-take {0} n src, length-drop {0} n src),
      ground (arith, same, take-append-drop {0} n src),
      ((omega arith, omega (arith, length-take {0} n src)), small),
    )
