-- ===== src/Prelude/Safe.antt =====
-- Readers that do not panic: how many bytes a reader needs, one rule for each way to build it.
use xray_lite.Prelude.Tests.{ltb, if◌then◌else◌, Bool-cases, le→not_ltb}
use xray_lite.Prelude.Lists.{length, take, drop, length-drop}
use xray_lite.Prelude.Outcome.{Outcome, ok, err, panic}
use xray_lite.Prelude.Bytes.{Bytes}
use xray_lite.Prelude.Read.{
  Read, pure, fail, if_short, within, continue, ◌>>=◌, ◌>>◌, require, check, get_u8, get_u16,
  take_bytes, advance,
}
use Prim.Native.Nat.{ℕ, ◌+◌, ◌-◌, ◌≤◌}
use mathlib.Core.Path.{◌≡◌, refl}
use mathlib.Core.Logic.{◌≢◌, inl, inr}
use mathlib.Core.Bool.{Bool, true, false}
use mathlib.Core.List.{[], ◌∷◌}
use native.Mathlib.Omega.{arith}

-- `m` does not panic where `n` bytes or more remain.
pub record Fits {E A : Type 0} (n : ℕ) (m : Read E A) : Type 0 where
  pub at : (s : Bytes) → n ≤ length s → (m s).0 ≢ panic

-- `m` returns where `n` bytes or more remain, and takes just `n` of them.
pub record Takes {E A : Type 0} (n : ℕ) (m : Read E A) : Type 0 where
  pub at :
      (s : Bytes)
      → n ≤ length s
      → (a : A) × (r : Bytes) × (m s ≡ (ok a, r)) × (length r + n ≡ length s)

module _ {E A : Type 0} where
  pub Fits-pure : (n : ℕ) (a : A) → Fits {E = E} n (pure a)
  Fits-pure n a = record { at = λ s h p. cc }

  pub Fits-fail : (n : ℕ) (e : E) → Fits {A = A} n (fail e)
  Fits-fail n e = record { at = λ s h p. cc }

  pub Fits-mono : {m : Read E A} (n k : ℕ) → k ≤ n → Fits k m → Fits n m
  Fits-mono n k h f = record { at = λ s l. f.at s (omega arith) }

  pub Fits-if :
      {m k : Read E A} {n : ℕ} (b : Bool) → Fits n m → Fits n k → Fits n (if b then m else k)
  Fits-if true f g = f
  Fits-if false f g = g

  pub Fits-require : {m : Read E A} (n k : ℕ) (e : E) → Fits k m → Fits n (require k e >> m)
  Fits-require n k e f = record {
    at = λ s h. elim (Bool-cases (ltb (length s) k)) [
      | inl short ↦ rw short (λ p. cc)
      | inr enough ↦ rw enough (f.at s (ground arith))
    ];
  }

  pub Fits-check : {m : Read E A} {n : ℕ} (b : Bool) (e : E) → Fits n m → Fits n (check b e >> m)
  Fits-check true e f = record { at = λ s h. f.at s h }
  Fits-check false e f = record { at = λ s h p. cc }

module _ {E A B : Type 0} where
  pub Fits-take :
      {m : Read E A} {f : A → Read E B} (n k : ℕ)
      → Takes k m
      → k ≤ n
      → ((a : A) → Fits (n - k) (f a))
      → Fits n (m >>= f)
  Fits-take {m} {f} n k t h g = record {
    at = λ s l. let (a, r, e, len) = t.at s (omega arith) in rw e ((g a).at r (omega arith));
  }

  -- After a reader that may take any number of bytes, the rest must need none.
  pub Fits-bind :
      {m : Read E A} {f : A → Read E B} (n : ℕ)
      → Fits n m
      → ((a : A) → Fits 0 (f a))
      → Fits n (m >>= f)
  Fits-bind {m} {f} n t g = record { at = λ s l. go (m s).0 (m s).1 (t.at s l) }
    where
      go : (o : Outcome E A) (r : Bytes) → o ≢ panic → (continue o f r).0 ≢ panic
      go (ok a) r h = (g a).at r (omega arith)
      go (err e) r h = λ p. cc
      go panic r h = λ p. h refl

module _ {E : Type 0} where
  pub Takes-u8 : Takes {E = E} 1 get_u8
  unfolding get_u8
  Takes-u8 = record { at = run }
    where
      run :
          (s : Bytes)
          → 1 ≤ length s
          → (a : ℕ) × (r : Bytes) × (get_u8 {E = E} s ≡ (ok a, r)) × (length r + 1 ≡ length s)
      run [] h = absurd (omega arith)
      run (x ∷ s) h = (x, s, refl, omega arith)

  pub Takes-u16 : Takes {E = E} 2 get_u16
  unfolding get_u16
  Takes-u16 = record { at = run }
    where
      run :
          (s : Bytes)
          → 2 ≤ length s
          → (a : ℕ) × (r : Bytes) × (get_u16 {E = E} s ≡ (ok a, r)) × (length r + 2 ≡ length s)
      run [] h = absurd (omega arith)
      run (x ∷ []) h = absurd (omega arith)
      run (x ∷ y ∷ s) h = (_, s, refl, omega arith)

  pub Takes-bytes : (n : ℕ) → Takes {E = E} n (take_bytes n)
  unfolding take_bytes
  Takes-bytes n = record {
    at = λ s h.
        (take n s, drop n s, rw (le→not_ltb (length s) n h), omega (arith, length-drop {0} n s));
  }

  pub Takes-advance : (n : ℕ) → Takes {E = E} n (advance n)
  unfolding advance
  Takes-advance n = record {
    at = λ s h. (tt, drop n s, rw (le→not_ltb (length s) n h), omega (arith, length-drop {0} n s));
  }

module _ {E A : Type 0} where
  pub Fits-if_short : {m k : Read E A} (n j : ℕ) → Fits n m → Fits j k → Fits n (if_short j m k)
  Fits-if_short n j f g = record {
    at = λ s h. elim (Bool-cases (ltb (length s) j)) [
      | inl short ↦ rw short (f.at s h)
      | inr enough ↦ rw enough (g.at s (ground arith))
    ];
  }

  pub Fits-within : {m : Read E A} (n : ℕ) (bytes : Bytes) → Fits 0 m → Fits n (within bytes m)
  Fits-within n bytes f = record { at = λ s h. f.at bytes (omega arith) }
