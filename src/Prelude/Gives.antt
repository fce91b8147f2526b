-- ===== src/Prelude/Gives.antt =====
-- Readers by what they give: one rule for each way to build one.
use xray_lite.Prelude.Tests.{ltb, if◌then◌else◌, Bool-cases}
use xray_lite.Prelude.Lists.{length}
use xray_lite.Prelude.Outcome.{Outcome, ok, err, panic}
use xray_lite.Prelude.Bytes.{Bytes}
use xray_lite.Prelude.Read.{Read, pure, if_short, ◌>>=◌, take_bytes, take_bytes-eq-ok, continue}
use Prim.Native.Nat.{ℕ}
use mathlib.Core.Path.{◌≡◌, refl}
use mathlib.Core.Logic.{inl, inr}
use mathlib.Core.Bool.{Bool, true, false}
use native.Mathlib.Omega.{arith}

-- Whatever `m` gives has the property.
pub record Gives {E A : Type 0} (P : A → Type 0) (m : Read E A) : Type 0 where
  pub at : (s : Bytes) (a : A) → (m s).0 ≡ ok a → P a

module _ {E A : Type 0} {P : A → Type 0} where
  pub Gives-pure : (a : A) → P a → Gives {E = E} P (pure a)
  Gives-pure a p = record { at = λ s b e. ground (arith, p, e) }

  pub Gives-if_short : {m k : Read E A} (n : ℕ) → Gives P m → Gives P k → Gives P (if_short n m k)
  Gives-if_short {m} {k} n f g = record {
    at = λ s a e. elim (Bool-cases (ltb (length s) n)) [
      | inl short ↦ f.at s a (ground (arith, short, e))
      | inr long ↦ g.at s a (ground (arith, long, e))
    ];
  }

  pub Gives-if : {m k : Read E A} (b : Bool) → Gives P m → Gives P k → Gives P (if b then m else k)
  Gives-if true f g = f
  Gives-if false f g = g

module _ {E A B : Type 0} {Q : A → Type 0} {P : B → Type 0} where
  Gives-continue :
      (f : A → Read E B)
      → ((a : A) → Q a → Gives P (f a))
      → (o : Outcome E A) (s : Bytes) → ((a : A) → o ≡ ok a → Q a)
      → (b : B) → (continue o f s).0 ≡ ok b
      → P b
  Gives-continue f g (ok a) s q b e = (g a (q a refl)).at s b e
  Gives-continue f g (err x) s q b e = absurd (ground arith)
  Gives-continue f g panic s q b e = absurd (ground arith)

  pub Gives-bind :
      {m : Read E A} {f : A → Read E B}
      → Gives Q m
      → ((a : A) → Q a → Gives P (f a))
      → Gives P (m >>= f)
  Gives-bind {m} {f} q g = record { at = λ s b e. Gives-continue f g (m s).0 (m s).1 (q.at s) b e }

module _ {E A B : Type 0} {P : B → Type 0} where
  pub Gives-any : (m : Read E A) {f : A → Read E B} → ((a : A) → Gives P (f a)) → Gives P (m >>= f)
  Gives-any m {f} g = Gives-bind {Q = λ a. Unit {0}} (record { at = λ s a e. tt }) (λ a u. g a)

module _ {E : Type 0} where
  pub Gives-take_bytes : (n : ℕ) → Gives {E = E} (λ xs. length xs ≡ n) (take_bytes n)
  Gives-take_bytes n = record {
    at = λ s xs e.
        (take_bytes-eq-ok {E = E} n s {xs = xs} {r = (take_bytes {E = E} n s).1}
          (ground (arith, e))).0;
  }
