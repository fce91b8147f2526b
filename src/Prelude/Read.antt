-- ===== src/Prelude/Read.antt =====
-- Reading from a byte buffer (`bytes::Buf` over `BytesMut` or `&[u8]`): a read takes from the
-- front and panics if the bytes are not there. The buffer that is left comes back with an error too.
use xray_lite.Prelude.Tests.{ltb, if◌then◌else◌, le→not_ltb, Bool-cases}
use xray_lite.Prelude.Lists.{
  length, take, drop, length-append, take-append, drop-append, length-take, take-append-drop,
}
use xray_lite.Prelude.Outcome.{Outcome, ok, err, panic}
use xray_lite.Prelude.Bytes.{Bytes, be16}
use Prim.Native.Nat.{ℕ, ◌≤◌}
use mathlib.Core.Path.{◌≡◌, refl}
use mathlib.Core.Logic.{inl, inr}
use mathlib.Core.Bool.{Bool, true, false}
use mathlib.Core.List.{[], ◌∷◌, ◌++◌}
use native.Mathlib.Omega.{arith}

abbrev pub Read : Type 0 → Type 0 → Type 0
Read E A = Bytes → Outcome E A × Bytes

module _ {E : Type 0} where
  abbrev pub pure : {A : Type 0} → A → Read E A
  pure a s = (ok a, s)

  abbrev pub fail : {A : Type 0} → E → Read E A
  fail e s = (err e, s)

  abbrev pub continue : {A B : Type 0} → Outcome E A → (A → Read E B) → Read E B
  continue (ok a) f s = f a s
  continue (err e) f s = (err e, s)
  continue panic f s = (panic, s)

module _ {E : Type 0} where
  infixl 5 ◌>>=◌
  abbrev pub ◌>>=◌ : {A B : Type 0} → Read E A → (A → Read E B) → Read E B
  ◌>>=◌ m f s = let (r, s') = m s in continue r f s'

  -- An early return of `Err(e)` while fewer than `n` bytes remain.
  abbrev pub require : ℕ → E → Read E Unit
  require n e s = if ltb (length s) n then (err e, s) else (ok tt, s)

  abbrev pub check : Bool → E → Read E Unit
  check b e s = if b then (ok tt, s) else (err e, s)

  unfoldable pub get_u8 : Read E ℕ
  get_u8 [] = (panic, [])
  get_u8 (x ∷ s) = (ok x, s)

  unfoldable pub get_u16 : Read E ℕ
  get_u16 (a ∷ b ∷ s) = (ok (be16 a b), s)
  get_u16 s = (panic, s)

  -- `copy_to_slice`, `copy_to_bytes`, `split_to`
  unfoldable pub take_bytes : ℕ → Read E Bytes
  take_bytes n s = if ltb (length s) n then (panic, s) else (ok (take n s), drop n s)

  unfoldable pub advance : ℕ → Read E Unit
  advance n s = if ltb (length s) n then (panic, s) else (ok tt, drop n s)

module _ {E : Type 0} where
  infixl 5 ◌>>◌
  abbrev pub ◌>>◌ : {B : Type 0} → Read E Unit → Read E B → Read E B
  m >> k = m >>= λ _. k

module _ {E : Type 0} where
  pub take_bytes-append : (xs s : Bytes) → take_bytes {E = E} (length xs) (xs ++ s) ≡ (ok xs, s)
  unfolding take_bytes
  take_bytes-append xs s = rw (
    le→not_ltb (length (xs ++ s)) (length xs) (omega (arith, length-append {0} xs s)),
    take-append xs s,
    drop-append xs s,
  )

  pub advance-append : (xs s : Bytes) → advance {E = E} (length xs) (xs ++ s) ≡ (ok tt, s)
  unfolding advance
  advance-append xs s = rw (
    le→not_ltb (length (xs ++ s)) (length xs) (omega (arith, length-append {0} xs s)),
    drop-append xs s,
  )

  pub require_met : (n : ℕ) (e : E) (s : Bytes) → n ≤ length s → require n e s ≡ (ok tt, s)
  require_met n e s h = rw (le→not_ltb (length s) n h)

module _ {E : Type 0} where
  -- Inversion of a successful bind and of the primitive reads.
  pub >>=-eq-ok :
      {A B : Type 0} (m : Read E A) (f : A → Read E B) (s t : Bytes) {b : B}
      → (m >>= f) s ≡ (ok b, t)
      → (a : A) × (r : Bytes) × (m s ≡ (ok a, r)) × (f a r ≡ (ok b, t))
  >>=-eq-ok {A} {B} m f s t {b} e = go (m s).0 (m s).1 refl e
    where
      go :
          (o : Outcome E A) (r : Bytes)
          → m s ≡ (o, r)
          → continue o f r ≡ (ok b, t)
          → (a : A) × (r : Bytes) × (m s ≡ (ok a, r)) × (f a r ≡ (ok b, t))
      go (ok a) r h k = (a, r, h, k)
      go (err x) r h k = cc
      go panic r h k = cc

  pub get_u8-eq-ok : (s : Bytes) {x : ℕ} {r : Bytes} → get_u8 {E = E} s ≡ (ok x, r) → s ≡ x ∷ r
  unfolding get_u8
  get_u8-eq-ok [] e = cc
  get_u8-eq-ok (x ∷ s) e = cc

  pub take_bytes-eq-ok :
      (n : ℕ) (s : Bytes) {xs r : Bytes}
      → take_bytes {E = E} n s ≡ (ok xs, r)
      → (length xs ≡ n) × (s ≡ xs ++ r)
  unfolding take_bytes
  take_bytes-eq-ok n s e = ground (arith, length-take {0} n s, take-append-drop {0} n s)

  pub advance-eq-ok :
      (n : ℕ) (s : Bytes) {r : Bytes}
      → advance {E = E} n s ≡ (ok tt, r)
      → (xs : Bytes) × (length xs ≡ n) × (s ≡ xs ++ r)
  unfolding advance
  advance-eq-ok n s e =
      (take n s, ground (arith, length-take {0} n s), ground (arith, take-append-drop {0} n s))

module _ {E B : Type 0} where
  pub require-eq-ok :
      (n : ℕ) (e : E) (m : Read E B) (s t : Bytes) {b : B}
      → (require n e >> m) s ≡ (ok b, t)
      → (n ≤ length s) × (m s ≡ (ok b, t))
  require-eq-ok n e m s t h = elim (Bool-cases (ltb (length s) n)) [
    | inl short ↦ absurd (ground arith)
    | inr enough ↦ (ground arith, ground arith)
  ]

  pub check-eq-ok :
      (c : Bool) (e : E) (m : Read E B) (s t : Bytes) {b : B}
      → (check c e >> m) s ≡ (ok b, t)
      → (c ≡ true) × (m s ≡ (ok b, t))
  check-eq-ok true e m s t h = (refl, h)
  check-eq-ok false e m s t h = absurd (ground arith)

module _ {E : Type 0} where
  -- `if buf.remaining() < n { short } else { long }`
  abbrev pub if_short : {A : Type 0} → ℕ → Read E A → Read E A → Read E A
  if_short n short long s = if ltb (length s) n then short s else long s

  -- A read from a buffer of its own, `let mut sub = &bytes[..]`.
  abbrev pub within : {A : Type 0} → Bytes → Read E A → Read E A
  within bytes m s = ((m bytes).0, s)
