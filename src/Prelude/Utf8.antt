-- ===== src/Prelude/Utf8.antt =====
-- `std::str::from_utf8`: which byte sequences are text. A `String` is the list of its bytes.
use xray_lite.Prelude.Tests.{leb, ◌==◌, if◌then◌else◌}
use xray_lite.Prelude.Bytes.{Bytes}
use Prim.Native.Nat.{ℕ, zero, suc}
use mathlib.Core.Path.{◌≡◌, refl}
use mathlib.Core.Bool.{Bool, true, false, ◌&&◌}
use mathlib.Core.Option.{Option, none, some}
use mathlib.Core.List.{[], ◌∷◌}

-- What a sequence still needs: how many bytes, and the range of the next one.
pub record Pending : Type 0 where
  pub count : ℕ
  pub low : ℕ
  pub high : ℕ

abbrev pub pending : ℕ → ℕ → ℕ → Pending
pending n lo hi = record { count = n; low = lo; high = hi }

abbrev pub in_range : ℕ → ℕ → ℕ → Bool
in_range lo hi b = leb lo b && leb b hi

-- The first byte of a character.
utf8_lead : ℕ → Option Pending
utf8_lead b =
    if leb b 0x7f
    then some (pending 0 0 0)
    else if in_range 0xc2 0xdf b
    then some (pending 1 0x80 0xbf)
    else if b == 0xe0
    then some (pending 2 0xa0 0xbf)
    else if b == 0xed
    then some (pending 2 0x80 0x9f)
    else if in_range 0xe1 0xef b
    then some (pending 2 0x80 0xbf)
    else if b == 0xf0
    then some (pending 3 0x90 0xbf)
    else if in_range 0xf1 0xf3 b
    then some (pending 3 0x80 0xbf)
    else if b == 0xf4
    then some (pending 3 0x80 0x8f)
    else none

utf8_next : ℕ → ℕ → ℕ → ℕ → Option Pending
unfolding utf8_lead
utf8_next zero lo hi b = utf8_lead b
utf8_next (suc n) lo hi b = if in_range lo hi b then some (pending n 0x80 0xbf) else none

utf8_from : Pending → Bytes → Bool
utf8_from p [] = p.count == 0
utf8_from p (b ∷ bs) = elim (utf8_next p.count p.low p.high b) [
  | none ↦ false
  | some q ↦ utf8_from q bs
]

unfoldable pub is_utf8 : Bytes → Bool
unfolding utf8_from utf8_next
is_utf8 bs = utf8_from (pending 0 0 0) bs

is_utf8_text : is_utf8 (b'a' ∷ 0xe4 ∷ 0xbd ∷ 0xa0 ∷ 0xf0 ∷ 0x9f ∷ 0x98 ∷ 0x80 ∷ []) ≡ true
unfolding is_utf8
is_utf8_text = refl

is_utf8_overlong : is_utf8 (0xc0 ∷ 0x80 ∷ []) ≡ false
unfolding is_utf8
is_utf8_overlong = refl

is_utf8_surrogate : is_utf8 (0xed ∷ 0xa0 ∷ 0x80 ∷ []) ≡ false
unfolding is_utf8
is_utf8_surrogate = refl

is_utf8_cut : is_utf8 (0xe4 ∷ 0xbd ∷ []) ≡ false
unfolding is_utf8
is_utf8_cut = refl
