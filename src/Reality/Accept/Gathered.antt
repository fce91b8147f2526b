-- ===== src/Reality/Accept/Gathered.antt =====
-- src/transport/reality/server_rustls.rs: how much of the first record is gathered.
use xray_lite.Prelude.{
  ℕ, ◌+◌, ◌≤◌, ◌<◌, ◌≡◌, ◌≢◌, ◌⊎◌, refl, ◌&&◌, none, some, List, [], ◌∷◌, ◌++◌, length, take, drop,
  ltb, All, arith, Bool-cases, inl, inr, length-append, append_assoc, take-append-drop, length-take,
  ◌∙◌,
}
use xray_lite.Prelude.Bytes.{Bytes}
use xray_lite.Prelude.Outcome.{Outcome, ok, err, panic}
use xray_lite.Reality.Accept.{
  gathered, out_of_range, read_needed, after_header, read_header, needed_of, prefixed_read,
}

-- One `read` fills a chunk of 1024 bytes at most.
abbrev pub IsChunk : Bytes → Type 0
IsChunk chunk = length chunk ≤ 1024

abbrev pub concat : List Bytes → Bytes
concat [] = []
concat (c ∷ cs) = c ++ concat cs

read_needed_keeps :
    (needed : ℕ) (buffer : Bytes) (chunks : List Bytes) (out : Bytes) (left : List Bytes)
    → All IsChunk chunks
    → length buffer < 16384 + 1024
    → read_needed needed buffer chunks ≡ gathered out left
    → (length out < 16384 + 1024) × (out ++ concat left ≡ buffer ++ concat chunks)
unfolding read_needed
read_needed_keeps needed buffer [] out left v h e = (ground arith, ground arith)
read_needed_keeps needed buffer ([] ∷ chunks) out left (c, v) h e = (ground arith, ground arith)
read_needed_keeps needed buffer ((x ∷ xs) ∷ chunks) out left (c, v) h e =
    elim (Bool-cases (ltb (length buffer) needed && ltb (length buffer) 16384)) [
      | inl more ↦
          let (bound, eq) =
            read_needed_keeps needed (buffer ++ (x ∷ xs)) chunks out left v
              (ground (arith, length-append {0} buffer (x ∷ xs))) (ground (arith, more)) in
          (bound, eq ∙ append_assoc buffer (x ∷ xs) (concat chunks))
      | inr done ↦ (ground (arith, done), ground (arith, done))
    ]

after_header_keeps :
    (o : Outcome ⊥ ℕ) (buffer : Bytes) (chunks : List Bytes) (out : Bytes) (left : List Bytes)
    → All IsChunk chunks
    → length buffer < 16384 + 1024
    → after_header buffer chunks o ≡ gathered out left
    → (length out < 16384 + 1024) × (out ++ concat left ≡ buffer ++ concat chunks)
unfolding after_header
after_header_keeps (ok needed) buffer chunks out left v h e =
    read_needed_keeps needed buffer chunks out left v h e
after_header_keeps (err x) buffer chunks out left v h e = absurd x
after_header_keeps panic buffer chunks out left v h e = absurd (ground arith)

-- No byte is lost while the first record is gathered: what was gathered, followed by what the stream
-- still answers, is all that it answers, and fewer than 17408 bytes are gathered.
pub read_header_keeps :
    (buffer : Bytes) (chunks : List Bytes) (out : Bytes) (left : List Bytes)
    → All IsChunk chunks
    → length buffer < 5 + 1024
    → read_header buffer chunks ≡ gathered out left
    → (length out < 16384 + 1024) × (out ++ concat left ≡ buffer ++ concat chunks)
unfolding read_header
read_header_keeps buffer [] out left v h e = elim (Bool-cases (ltb (length buffer) 5)) [
  | inl short ↦ absurd (ground (arith, short))
  | inr long ↦
      after_header_keeps (needed_of buffer) buffer [] out left v (omega arith)
        (ground (arith, long))
]
read_header_keeps buffer ([] ∷ chunks) out left v h e = elim (Bool-cases (ltb (length buffer) 5)) [
  | inl short ↦ absurd (ground (arith, short))
  | inr long ↦
      after_header_keeps (needed_of buffer) buffer ([] ∷ chunks) out left v (omega arith)
        (ground (arith, long))
]
read_header_keeps buffer ((x ∷ xs) ∷ chunks) out left (c, v) h e =
    elim (Bool-cases (ltb (length buffer) 5)) [
      | inl short ↦
          let (bound, eq) =
            read_header_keeps (buffer ++ (x ∷ xs)) chunks out left v
              (ground (arith, short, length-append {0} buffer (x ∷ xs))) (ground (arith, short)) in
          (bound, eq ∙ append_assoc buffer (x ∷ xs) (concat chunks))
      | inr long ↦
          after_header_keeps (needed_of buffer) buffer ((x ∷ xs) ∷ chunks) out left (c, v)
            (omega arith) (ground (arith, long))
    ]

-- The header of a record is looked at only where all of it is there.
needed_of-ne-panic : (buffer : Bytes) → 5 ≤ length buffer → needed_of buffer ≢ panic
unfolding needed_of
needed_of-ne-panic buffer long = ground arith

read_needed-ne-out_of_range :
    (needed : ℕ) (buffer : Bytes) (chunks : List Bytes)
    → read_needed needed buffer chunks ≢ out_of_range
unfolding read_needed
read_needed-ne-out_of_range needed buffer [] = ground arith
read_needed-ne-out_of_range needed buffer ([] ∷ chunks) = ground arith
read_needed-ne-out_of_range needed buffer ((x ∷ xs) ∷ chunks) =
    ground (arith, read_needed-ne-out_of_range needed (buffer ++ (x ∷ xs)) chunks)

after_header-ne-out_of_range :
    (o : Outcome ⊥ ℕ) (buffer : Bytes) (chunks : List Bytes)
    → o ≢ panic
    → after_header buffer chunks o ≢ out_of_range
unfolding after_header
after_header-ne-out_of_range (ok needed) buffer chunks h =
    read_needed-ne-out_of_range needed buffer chunks
after_header-ne-out_of_range (err x) buffer chunks h = absurd x
after_header-ne-out_of_range panic buffer chunks h = absurd (h refl)

pub read_header-ne-out_of_range :
    (buffer : Bytes) (chunks : List Bytes) → read_header buffer chunks ≢ out_of_range
unfolding read_header
read_header-ne-out_of_range buffer [] = elim (Bool-cases (ltb (length buffer) 5)) [
  | inl short ↦ rw short (λ p. cc)
  | inr long ↦
      rw long (
        after_header-ne-out_of_range _ buffer [] (needed_of-ne-panic buffer (ground (arith, long))))
]
read_header-ne-out_of_range buffer ([] ∷ chunks) = elim (Bool-cases (ltb (length buffer) 5)) [
  | inl short ↦ rw short (λ p. cc)
  | inr long ↦ rw long (
      after_header-ne-out_of_range _ buffer ([] ∷ chunks)
        (needed_of-ne-panic buffer (ground (arith, long))))
]
read_header-ne-out_of_range buffer ((x ∷ xs) ∷ chunks) = elim (Bool-cases (ltb (length buffer) 5)) [
  | inl short ↦ rw short (read_header-ne-out_of_range (buffer ++ (x ∷ xs)) chunks)
  | inr long ↦ rw long (
      after_header-ne-out_of_range _ buffer ((x ∷ xs) ∷ chunks)
        (needed_of-ne-panic buffer (ground (arith, long))))
]

-- A read of the replayed prefix gives its next bytes, as many as there is room for, and keeps the
-- others; the inner stream is only asked when the prefix is used up.
pub prefixed_read_lem :
    (room : ℕ) (prefix : Bytes)
    → ((prefixed_read room prefix ≡ none) × (prefix ≡ []))
      ⊎ ((out : Bytes) × (left : Bytes) × (prefixed_read room prefix ≡ some (out, left))
          × (out ++ left ≡ prefix)
          × (length out ≤ room))
unfolding prefixed_read
prefixed_read_lem room [] = inl (refl, refl)
prefixed_read_lem room (x ∷ xs) = inr (
  take room (x ∷ xs),
  drop room (x ∷ xs),
  ground arith,
  take-append-drop room (x ∷ xs),
  omega (arith, length-take {0} room (x ∷ xs)),
)
