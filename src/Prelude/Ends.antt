-- ===== src/Prelude/Ends.antt =====
-- Readers whose loops end: which error stands for a lack of fuel, and how long a buffer may be
-- before it is met. One rule for each way to build a reader.
use xray_lite.Prelude.Tests.{ltb, if◌then◌else◌, Bool-cases}
use xray_lite.Prelude.Lists.{length, length-drop}
use xray_lite.Prelude.Outcome.{Outcome, ok, err, panic}
use xray_lite.Prelude.Bytes.{Bytes}
use xray_lite.Prelude.Read.{
  Read, pure, fail, if_short, within, continue, ◌>>=◌, ◌>>◌, require, get_u8, get_u16, take_bytes,
  advance,
}
use Prim.Native.Nat.{ℕ, ◌+◌, ◌-◌, ◌≤◌, ◌<◌}
use mathlib.Core.Path.{◌≡◌, refl}
use mathlib.Core.Logic.{◌≢◌, inl, inr}
use mathlib.Core.Bool.{Bool, true, false}
use mathlib.Core.List.{[], ◌∷◌}
use native.Mathlib.Omega.{arith}

-- On fewer than `k` bytes `m` does not end with the error `e`.
pub record Ends {E A : Type 0} (e : E) (k : ℕ) (m : Read E A) : Type 0 where
  pub at : (s : Bytes) → length s < k → (m s).0 ≢ err e

-- `m` does not end with `e` at all, and takes `j` bytes or more.
pub record Shrinks {E A : Type 0} (e : E) (j : ℕ) (m : Read E A) : Type 0 where
  pub ends : (s : Bytes) → (m s).0 ≢ err e
  pub takes : (s : Bytes) (a : A) → (m s).0 ≡ ok a → length (m s).1 + j ≤ length s

module _ {E A : Type 0} where
  pub Ends-pure : (e : E) (k : ℕ) (a : A) → Ends e k (pure a)
  Ends-pure e k a = record { at = λ s h p. cc }

  pub Ends-fail : (e : E) (k : ℕ) (x : E) → x ≢ e → Ends {A = A} e k (fail x)
  Ends-fail e k x ne = record { at = λ s h p. ne (ground arith) }

  pub Ends-if :
      {m n : Read E A} {e : E} {k : ℕ} (b : Bool)
      → Ends e k m
      → Ends e k n
      → Ends e k (if b then m else n)
  Ends-if true f g = f
  Ends-if false f g = g

  pub Ends-if_short :
      {m n : Read E A} {e : E} {k : ℕ} (j : ℕ) → Ends e k m → Ends e k n → Ends e k (if_short j m n)
  Ends-if_short j f g = record {
    at = λ s h. elim (Bool-cases (ltb (length s) j)) [
      | inl short ↦ rw short (f.at s h)
      | inr enough ↦ rw enough (g.at s h)
    ];
  }

  pub Ends-require :
      {m : Read E A} {e : E} {k : ℕ} (n : ℕ) (x : E)
      → x ≢ e
      → Ends e k m
      → Ends e k (require n x >> m)
  Ends-require n x ne f = record {
    at = λ s h. elim (Bool-cases (ltb (length s) n)) [
      | inl short ↦ rw short (λ p. ne (ground arith))
      | inr enough ↦ rw enough (f.at s h)
    ];
  }

  pub Ends-within :
      {m : Read E A} {e : E} (k j : ℕ) (bytes : Bytes)
      → length bytes < j
      → Ends e j m
      → Ends e k (within bytes m)
  Ends-within k j bytes h f = record { at = λ s l. f.at bytes h }

module _ {E A B : Type 0} where
  pub Ends-bind :
      {m : Read E A} {f : A → Read E B} {e : E} (k j : ℕ)
      → Shrinks e j m
      → ((a : A) → Ends e (k - j) (f a))
      → Ends e k (m >>= f)
  Ends-bind {m} {f} {e} k j sh g = record {
    at = λ s h. go s h (m s).0 (m s).1 (sh.ends s) (sh.takes s);
  }
    where
      go :
          (s : Bytes)
          → length s < k
          → (o : Outcome E A) (r : Bytes) → o ≢ err e
          → ((a : A) → o ≡ ok a → length r + j ≤ length s)
          → (continue o f r).0 ≢ err e
      go s h (ok a) r ne t = let l = t a refl in (g a).at r (omega (arith, l))
      go s h (err x) r ne t = λ p. ne (ground arith)
      go s h panic r ne t = λ p. cc

module _ {E : Type 0} (e : E) where
  pub Shrinks-u8 : Shrinks e 1 get_u8
  unfolding get_u8
  Shrinks-u8 = record { ends = ne; takes = le }
    where
      ne : (s : Bytes) → (get_u8 {E = E} s).0 ≢ err e
      ne [] = λ p. cc
      ne (x ∷ s) = λ p. cc

      le :
          (s : Bytes) (a : ℕ)
          → (get_u8 {E = E} s).0 ≡ ok a
          → length (get_u8 {E = E} s).1 + 1 ≤ length s
      le [] a p = absurd (ground arith)
      le (x ∷ s) a p = omega arith

  pub Shrinks-u16 : Shrinks e 2 get_u16
  unfolding get_u16
  Shrinks-u16 = record { ends = ne; takes = le }
    where
      ne : (s : Bytes) → (get_u16 {E = E} s).0 ≢ err e
      ne [] = λ p. cc
      ne (x ∷ []) = λ p. cc
      ne (x ∷ y ∷ s) = λ p. cc

      le :
          (s : Bytes) (a : ℕ)
          → (get_u16 {E = E} s).0 ≡ ok a
          → length (get_u16 {E = E} s).1 + 2 ≤ length s
      le [] a p = absurd (ground arith)
      le (x ∷ []) a p = absurd (ground arith)
      le (x ∷ y ∷ s) a p = omega arith

  pub Shrinks-bytes : (n : ℕ) → Shrinks e n (take_bytes n)
  unfolding take_bytes
  Shrinks-bytes n = record {
    ends = λ s. ground arith;
    takes = λ s a p. ground (arith, length-drop {0} n s);
  }

  pub Shrinks-advance : (n : ℕ) → Shrinks e n (advance n)
  unfolding advance
  Shrinks-advance n = record {
    ends = λ s. ground arith;
    takes = λ s a p. ground (arith, length-drop {0} n s);
  }

  pub Shrinks-within :
      {A : Type 0} {m : Read E A} (j : ℕ) (bytes : Bytes)
      → length bytes < j
      → Ends e j m
      → Shrinks e 0 (within bytes m)
  Shrinks-within j bytes h f = record { ends = λ s. f.at bytes h; takes = λ s a p. omega arith }
