-- ===== src/Reality/Record/Framing.antt =====
-- src/transport/reality/tls.rs: encoding and parsing of records.
use xray_lite.Prelude.{
  ℕ, ◌+◌, ◌≤◌, ◌≡◌, ◌/◌, le→not_ltb, lt→ltb, ◌<◌, ◌∙◌, ◌⊎◌, sym, subst, ◌%◌, if◌then◌else◌, ◌≢◌,
  refl, Option, none, some, [], ◌∷◌, ◌++◌, length, ltb, take-append, drop-append, length-append,
  arith, inl, inr,
}
use xray_lite.Prelude.Outcome.{Outcome, ok, err, panic}
use xray_lite.Prelude.Bytes.{Bytes, IsU16, be16}
use xray_lite.Prelude.Read.{take_bytes, advance}
use xray_lite.Reality.Record.{
  ContentType, change_cipher_spec, alert, handshake, application_data, TlsRecord, TlsError,
  content_type_from_u8, content_type_code, split_record, parse, encode, IsValid,
}

from_u8-content_type_code : (c : ContentType) → content_type_from_u8 (content_type_code c) ≡ ok c
unfolding content_type_from_u8
from_u8-content_type_code change_cipher_spec = refl
from_u8-content_type_code alert = refl
from_u8-content_type_code handshake = refl
from_u8-content_type_code application_data = refl

split_record-append :
    (c : ContentType) (v a b x y z : ℕ) (payload rest : Bytes)
    → split_record c v (length payload) (a ∷ b ∷ x ∷ y ∷ z ∷ (payload ++ rest))
      ≡ (ok (some (record { content_type = c; version = v; payload = payload })), rest)
unfolding split_record advance take_bytes
split_record-append c v a b x y z payload rest =
    ground
      (arith, take-append payload rest, drop-append payload rest, length-append {0} payload rest)

u16-bytes : (n : ℕ) → IsU16 n → be16 (n / 256 % 256) (n % 256) ≡ n
u16-bytes n h = omega arith

-- With a whole header there, by the type that it names.
parse_typed :
    Outcome TlsError ContentType → ℕ → ℕ → Bytes → Outcome TlsError (Option TlsRecord) × Bytes
parse_typed (ok c) v n s = if ltb (length s) (5 + n) then (ok none, s) else split_record c v n s
parse_typed (err e) v n s = (err e, s)
parse_typed panic v n s = (panic, s)

parse-cons :
    (a b x y z : ℕ) (s : Bytes)
    → parse (a ∷ b ∷ x ∷ y ∷ z ∷ s)
      ≡ parse_typed (content_type_from_u8 a) (be16 b x) (be16 y z) (a ∷ b ∷ x ∷ y ∷ z ∷ s)
unfolding parse content_type_from_u8 parse_typed
parse-cons a b x y z s = ground arith

parse_typed_whole :
    (c : ContentType) (v n : ℕ) (s : Bytes)
    → 5 + n ≤ length s
    → parse_typed (ok c) v n s ≡ split_record c v n s
unfolding parse_typed
parse_typed_whole c v n s h = rw (le→not_ltb (length s) (5 + n) h)

-- A record that was encoded is parsed again, and the bytes behind it are left in the buffer.
pub parse-encode_record :
    (r : TlsRecord) (rest : Bytes) → IsValid r → parse (encode r ++ rest) ≡ (ok (some r), rest)
unfolding encode
parse-encode_record r rest v =
    rw
      (
        parse-cons (content_type_code r.content_type) (r.version / 256 % 256) (r.version % 256)
            (length r.payload / 256 % 256) (length r.payload % 256) (r.payload ++ rest),
        from_u8-content_type_code r.content_type,
        u16-bytes r.version v.version,
        u16-bytes (length r.payload) v.short,
      )
      (parse_typed_whole r.content_type r.version (length r.payload) _
          (omega (arith, length-append {0} r.payload rest))
        ∙ split_record-append r.content_type r.version _ _ _ _ _ r.payload rest)

-- How a parse of `s` can end: it does not panic, it takes from the buffer only with a record, and
-- the record and what is left make up the buffer.
parse_typed_kept :
    (o : Outcome TlsError ContentType) (a b x y z : ℕ) (s t : Bytes)
    → o ≢ panic
    → parse_typed o (be16 b x) (be16 y z) (a ∷ b ∷ x ∷ y ∷ z ∷ s) ≡ (ok none, t)
    → t ≡ a ∷ b ∷ x ∷ y ∷ z ∷ s
unfolding parse_typed split_record advance take_bytes
parse_typed_kept (ok c) a b x y z s t h e = ground arith
parse_typed_kept (err u) a b x y z s t h e = ground arith
parse_typed_kept panic a b x y z s t h e = ground arith

parse_typed-ne-panic :
    (o : Outcome TlsError ContentType) (a b x y z : ℕ) (s : Bytes)
    → o ≢ panic
    → (parse_typed o (be16 b x) (be16 y z) (a ∷ b ∷ x ∷ y ∷ z ∷ s)).0 ≢ panic
unfolding parse_typed split_record advance take_bytes
parse_typed-ne-panic (ok c) a b x y z s h = ground arith
parse_typed-ne-panic (err u) a b x y z s h = ground arith
parse_typed-ne-panic panic a b x y z s h = ground arith

from_u8-ne-panic : (n : ℕ) → content_type_from_u8 n ≢ panic
unfolding content_type_from_u8
from_u8-ne-panic n = ground arith

-- A buffer without a whole record header, or one with it.
lt_or_cons :
    (s : Bytes)
    → (length s < 5)
      ⊎ ((a : ℕ) × (b : ℕ) × (x : ℕ) × (y : ℕ) × (z : ℕ) × (r : Bytes) × (s
            ≡ a ∷ b ∷ x ∷ y ∷ z ∷ r))
lt_or_cons [] = inl (omega arith)
lt_or_cons (a ∷ []) = inl (omega arith)
lt_or_cons (a ∷ b ∷ []) = inl (omega arith)
lt_or_cons (a ∷ b ∷ x ∷ []) = inl (omega arith)
lt_or_cons (a ∷ b ∷ x ∷ y ∷ []) = inl (omega arith)
lt_or_cons (a ∷ b ∷ x ∷ y ∷ z ∷ s) = inr (a, b, x, y, z, s, refl)

parse_nil : (s : Bytes) → length s < 5 → parse s ≡ (ok none, s)
unfolding parse
parse_nil s h = rw (lt→ltb (length s) 5 h)

-- Parsing a record never panics, whatever the buffer holds.
pub parse_record-ne-panic : (s : Bytes) → (parse s).0 ≢ panic
parse_record-ne-panic s = elim (lt_or_cons s) [
  | inl short ↦ rw (parse_nil s short) λ p. cc
  | inr (a, b, x, y, z, r, eq) ↦
      rw (eq, parse-cons a b x y z r) (parse_typed-ne-panic _ a b x y z r (from_u8-ne-panic a))
]

-- While a record is not complete, nothing is taken from the buffer, so that the next read goes on
-- where this one stopped.
pub parse_record_waits : (s t : Bytes) → parse s ≡ (ok none, t) → t ≡ s
parse_record_waits s t e = elim (lt_or_cons s) [
  | inl short ↦ cc (e, parse_nil s short)
  | inr (a, b, x, y, z, r, eq) ↦
      parse_typed_kept (content_type_from_u8 a) a b x y z r t (from_u8-ne-panic a)
        (sym (parse-cons a b x y z r) ∙ subst (λ q. parse q ≡ (ok none, t)) eq e)
      ∙ sym eq
]
