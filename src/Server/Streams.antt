-- ===== src/Server/Streams.antt =====
-- src/server.rs: `PrefixedStream`, against the queue of the bytes that it has yet to give.
use xray_lite.Prelude.{
  ℕ, zero, suc, ◌+◌, ◌-◌, ◌<◌, ◌≤◌, ◌≡◌, ◌∙◌, ◌⊎◌, refl, sym, ap, List, [], ◌∷◌, ◌++◌, length, take,
  drop, ltb, min, arith, append_assoc, length-take, length-drop, take-append-drop, drop_all, All,
  Bool-cases, inl, inr,
}
use xray_lite.Prelude.Bytes.{Bytes}
use xray_lite.Server.{PrefixedStream, poll_read}
use xray_lite.Server.Header.{contents}

-- The queue: a read takes bytes from the front, as many as there is room for at most.
pub record Takes (room : ℕ) (before out after : Bytes) : Type 0 where
  pub front : before ≡ out ++ after
  pub fits : length out ≤ room
  -- A read gives something if it could: where there is room, and something is ready.
  pub lively : (room ≡ 0) ⊎ ((before ≡ []) ⊎ (0 < length out))

suc_add : (m n : ℕ) → suc m + n ≡ suc (m + n)
suc_add m n = omega arith

drop-drop : (m n : ℕ) (xs : Bytes) → drop (m + n) xs ≡ drop n (drop m xs)
drop-drop zero n xs = ground arith
drop-drop (suc m) zero [] = drop_all (suc m + 0) [] (omega arith)
drop-drop (suc m) (suc n) [] = drop_all (suc m + suc n) [] (omega arith)
drop-drop (suc m) n (x ∷ xs) = ap (λ (k : ℕ). drop k (x ∷ xs)) (suc_add m n) ∙ drop-drop m n xs

unless_zero : {C : Type 0} (room : ℕ) → (0 < room → C) → (room ≡ 0) ⊎ C
unless_zero zero f = inl refl
unless_zero (suc n) f = inr (f (omega arith))

take_lively : (n : ℕ) (xs : Bytes) → 0 < n → (xs ≡ []) ⊎ (0 < length (take n xs))
take_lively n [] h = inl refl
take_lively zero (x ∷ xs) h = elim h [ ]
take_lively (suc n) (x ∷ xs) h = inr (omega arith)

-- A read from a prefix that is used up comes from the inner stream, which has something ready.
poll_read-Takes :
    (room ready : ℕ) (s : PrefixedStream)
    → 0 < ready
    → Takes room (contents s) (poll_read room ready s).0 (contents (poll_read room ready s).1)
unfolding poll_read
poll_read-Takes room ready s h = elim (Bool-cases (ltb s.position (length s.prefix))) [
  | inl prefixed ↦
      let n = min room (length s.prefix - s.position) in
      let back = drop s.position s.prefix in
      rw prefixed (record {
        front =
            ap (λ bytes. bytes ++ s.inner) (sym (take-append-drop {0} n back))
            ∙ append_assoc (take n back) (drop n back) s.inner
            ∙ ap (λ bytes. take n back ++ (bytes ++ s.inner))
                (sym (drop-drop s.position n s.prefix));
        fits = omega (arith, length-take {0} n back, length-drop {0} s.position s.prefix);
        lively = unless_zero room λ r.
            inr (
              ground
                (arith, prefixed, length-take {0} n back, length-drop {0} s.position s.prefix));
      })
  | inr used ↦
      let nil = drop_all {0} s.position s.prefix (ground (arith, used)) in
      let n = min room ready in
      rw used (record {
        front = rw nil (sym (take-append-drop {0} n s.inner));
        fits = omega (arith, length-take {0} n s.inner);
        lively = unless_zero room λ r. rw nil (take_lively n s.inner (omega arith));
      })
]

-- A client of the stream: each read has room for so many bytes, and finds so many ready inside.
unfoldable pub reads : List (ℕ × ℕ) → PrefixedStream → List Bytes × PrefixedStream
reads [] s = ([], s)
reads ((room, ready) ∷ more) s =
    let (out, s') = poll_read room ready s in let (outs, last) = reads more s' in (out ∷ outs, last)

-- The same reads of a queue.
pub data TakesAll : List (ℕ × ℕ) → Bytes → List Bytes → Bytes → Type 0 where
  done : {bytes : Bytes} → TakesAll [] bytes [] bytes
  more :
      {room ready : ℕ} {rest : List (ℕ × ℕ)} {before out after last : Bytes} {outs : List Bytes}
      → Takes room before out after
      → TakesAll rest after outs last
      → TakesAll ((room, ready) ∷ rest) before (out ∷ outs) last

-- Any sequence of reads of a `PrefixedStream` is one of the queue that holds the prefix and then the
-- bytes of the inner stream: each read takes bytes from its front, as many as fit at most, and at
-- least one if it could. The inner stream has something ready whenever it is asked.
pub reads_refine :
    (rs : List (ℕ × ℕ)) (s : PrefixedStream)
    → All (λ r. 0 < r.1) rs
    → TakesAll rs (contents s) (reads rs s).0 (contents (reads rs s).1)
unfolding reads
reads_refine [] s h = done
reads_refine ((room, ready) ∷ rs) s h =
    more (poll_read-Takes room ready s h.0) (reads_refine rs (poll_read room ready s).1 h.1)
