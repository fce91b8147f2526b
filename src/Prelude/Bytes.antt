-- ===== src/Prelude/Bytes.antt =====
-- Bytes as numbers: big-endian integers, truncating casts, indexing and slicing that panic.
use xray_lite.Prelude.Tests.{ltb, leb, ◌==◌, if◌then◌else◌}
use xray_lite.Prelude.Lists.{length, get_or, take, drop}
use xray_lite.Prelude.Outcome.{Outcome, ok, panic}
use Prim.Native.Nat.{ℕ, ◌+◌, ◌-◌, ◌*◌, ◌/◌, ◌%◌, ◌^◌, ◌<◌}
use mathlib.Core.Path.{◌≡◌, refl}
use mathlib.Core.Logic.{◌↔◌}
use mathlib.Core.Bool.{Bool, true, false, ◌&&◌}
use mathlib.Core.List.{List, [], ◌∷◌}
use native.Mathlib.Omega.{arith}

abbrev pub IsByte : ℕ → Type 0
IsByte b = b < 256

abbrev pub IsU16 : ℕ → Type 0
IsU16 n = n < 65536

-- Byte sequences: `Vec<u8>`, `&[u8]`, `BytesMut`, and the bytes of a `String`.
abbrev pub Bytes : Type 0
Bytes = List ℕ

-- `n as u8`, `n as u16`, `n as u32`
abbrev pub as_u8 : ℕ → ℕ
as_u8 n = n % 256

abbrev pub as_u16 : ℕ → ℕ
as_u16 n = n % 65536

abbrev pub as_u32 : ℕ → ℕ
as_u32 n = n % 2 ^ 32

-- `u16::from_be_bytes`, and the bytes of a u16 and a u32 in network order
abbrev pub be16 : ℕ → ℕ → ℕ
be16 a b = a * 256 + b

abbrev pub be32 : ℕ → ℕ → ℕ → ℕ → ℕ
be32 a b c d = ((a * 256 + b) * 256 + c) * 256 + d

abbrev pub put_u16 : ℕ → Bytes
put_u16 n = n / 256 % 256 ∷ n % 256 ∷ []

abbrev pub put_u24 : ℕ → Bytes
put_u24 n = n / 65536 % 256 ∷ n / 256 % 256 ∷ n % 256 ∷ []

abbrev pub put_u32 : ℕ → Bytes
put_u32 n = n / 2 ^ 24 % 256 ∷ n / 65536 % 256 ∷ n / 256 % 256 ∷ n % 256 ∷ []

-- `data[i]`
abbrev pub index : {E : Type 0} → Bytes → ℕ → Outcome E ℕ
index xs i = if ltb i (length xs) then ok (get_or xs i 0) else panic

-- `data[i]` used by what follows
abbrev pub with_index : {E A : Type 0} → Bytes → ℕ → (ℕ → Outcome E A) → Outcome E A
with_index xs i f = if ltb i (length xs) then f (get_or xs i 0) else panic

-- `data[i..j]`
abbrev pub slice : {E : Type 0} → Bytes → ℕ → ℕ → Outcome E Bytes
slice xs i j = if leb i j && leb j (length xs) then ok (take (j - i) (drop i xs)) else panic

-- `a == b` on byte sequences
unfoldable pub bytes_eq : Bytes → Bytes → Bool
bytes_eq [] [] = true
bytes_eq [] (y ∷ ys) = false
bytes_eq (x ∷ xs) [] = false
bytes_eq (x ∷ xs) (y ∷ ys) = x == y && bytes_eq xs ys

pub bytes_eq_iff : (xs ys : Bytes) → (bytes_eq xs ys ≡ true) ↔ (xs ≡ ys)
unfolding bytes_eq
bytes_eq_iff [] [] = (λ _. refl, λ _. refl)
bytes_eq_iff [] (y ∷ ys) = (λ h. cc, λ h. cc)
bytes_eq_iff (x ∷ xs) [] = (λ h. cc, λ h. cc)
bytes_eq_iff (x ∷ xs) (y ∷ ys) =
    (λ h. ground (arith, (bytes_eq_iff xs ys).0), λ h. ground (arith, (bytes_eq_iff xs ys).1))

pub bytes_eq_refl : (xs : Bytes) → bytes_eq xs xs ≡ true
bytes_eq_refl xs = (bytes_eq_iff xs xs).1 refl
