-- ===== src/Server/Header.antt =====
-- src/server.rs: the PROXY header against the bytes of the client.
use xray_lite.Prelude.{
  ℕ, zero, suc, ◌≤◌, ◌≡◌, ◌∙◌, refl, sym, ap, Bool, true, false, Option, none, some, [], ◌∷◌, ◌++◌,
  length, take, drop, ltb, if◌then◌else◌, arith, take-append-drop, le→leb, Bool-cases, inl, inr,
}
use xray_lite.Prelude.Outcome.{Outcome, ok, err, panic}
use xray_lite.Prelude.Bytes.{Bytes}
use xray_lite.ProxyProtocol.{
  ProxyHeader, ProxyError, bad_signature, SocketAddr, parse_proxy_protocol, is_proxy_protocol,
}
use xray_lite.ProxyProtocol.Safety.{parse_consumes, parse_proxy_protocol-ne-panic}
use xray_lite.Server.{
  PrefixedStream, ServerError, Peeked, there, nothing, new, after_parse, after_peek, take_header,
}

-- What a stream has yet to give.
abbrev pub contents : PrefixedStream → Bytes
contents s = drop s.position s.prefix ++ s.inner

drop-append_le : (n : ℕ) (xs ys : Bytes) → n ≤ length xs → drop n (xs ++ ys) ≡ drop n xs ++ ys
drop-append_le zero xs ys h = refl
drop-append_le (suc n) [] ys h = absurd (omega arith)
drop-append_le (suc n) (x ∷ xs) ys h = drop-append_le n xs ys (omega arith)

drop-take :
    (n k : ℕ) (xs : Bytes) → k ≤ length (take n xs) → drop k (take n xs) ++ drop n xs ≡ drop k xs
drop-take n k xs h =
    sym (drop-append_le k (take n xs) (drop n xs) h) ∙ ap (drop k) (take-append-drop {0} n xs)

-- The length and the source of a parsed header.
abbrev length_of : Outcome ProxyError (ProxyHeader × ℕ) → ℕ
length_of (ok (header, consumed)) = consumed
length_of (err e) = 0
length_of panic = 0

abbrev source_of : Outcome ProxyError (ProxyHeader × ℕ) → Option SocketAddr
source_of (ok (header, consumed)) = some header.source_addr
source_of (err e) = none
source_of panic = none

module _ (parse_ipv6 : Bytes → Option Bytes) where
  -- The header in what was peeked at.
  abbrev recognised : ℕ → Bytes → Outcome ProxyError (ProxyHeader × ℕ)
  recognised n stream =
      if is_proxy_protocol (take n stream)
      then parse_proxy_protocol parse_ipv6 (take n stream)
      else err bad_signature

  abbrev peeked_header : Bool → Bytes → Peeked → Outcome ProxyError (ProxyHeader × ℕ)
  peeked_header true stream (there n) = if ltb 0 n then recognised n stream else err bad_signature
  peeked_header true stream nothing = err bad_signature
  peeked_header false stream peeked = err bad_signature

  abbrev pub header_length : Bool → Bytes → Peeked → ℕ
  header_length accept stream peeked = length_of (peeked_header accept stream peeked)

  abbrev pub header_source : Bool → Bytes → Peeked → Option SocketAddr
  header_source accept stream peeked = source_of (peeked_header accept stream peeked)

  -- The stream that is handed on, with the address of the client.
  abbrev pub HandsOn :
      Outcome ServerError (PrefixedStream × Option SocketAddr) → Bytes → Option SocketAddr → Type 0
  HandsOn result bytes source =
      (s : PrefixedStream) × (result ≡ ok (s, source)) × (contents s ≡ bytes)

  after_parse-HandsOn :
      (n : ℕ) (stream : Bytes) (o : Outcome ProxyError (ProxyHeader × ℕ))
      → parse_proxy_protocol parse_ipv6 (take n stream) ≡ o
      → HandsOn
          (after_parse parse_ipv6 (take n stream) (drop n stream) o)
          (drop (length_of o) stream)
          (source_of o)
  unfolding after_parse new
  after_parse-HandsOn n stream (ok (header, consumed)) e =
      let (known, positive, fits) =
        parse_consumes parse_ipv6 (take n stream) {h = header} {n = consumed} e in
      (
        new (drop consumed (take n stream)) (drop n stream),
        ground (arith, fits),
        drop-take n consumed stream fits,
      )
  after_parse-HandsOn n stream (err e) h =
      (new (take n stream) (drop n stream), refl, take-append-drop {0} n stream)
  after_parse-HandsOn n stream panic h =
      absurd (parse_proxy_protocol-ne-panic parse_ipv6 (take n stream) h)

  unchanged : (stream : Bytes) → HandsOn (ok (new [] stream, none)) stream none
  unfolding new
  unchanged stream = (new [] stream, refl, refl)

  after_peek-HandsOn :
      (n : ℕ) (stream : Bytes)
      → n ≤ length stream
      → HandsOn
          (after_peek parse_ipv6 n stream)
          (drop (length_of (recognised n stream)) stream)
          (source_of (recognised n stream))
  unfolding after_peek
  after_peek-HandsOn n stream fits = elim (Bool-cases (is_proxy_protocol (take n stream))) [
    | inl known ↦
        rw (known, le→leb n (length stream) fits)
          (after_parse-HandsOn n stream (parse_proxy_protocol parse_ipv6 (take n stream)) refl)
    | inr other ↦ rw other (unchanged stream)
  ]

  -- What a peek may report: no more than the stream gives.
  abbrev pub IsPeek : Bytes → Peeked → Type 0
  IsPeek stream (there n) = n ≤ length stream
  IsPeek stream nothing = Unit {0}

  -- Whatever the client sends, the part of `handle_client` that looks for a PROXY header succeeds. The
  -- stream that it hands on gives just the client's bytes without the header that was read, and
  -- all of them where the option is off, nothing was there, or no header could be read; the
  -- address is that of the header. A peek reports bytes that the stream then gives.
  pub take_header_lem :
      (accept : Bool) (stream : Bytes) (peeked : Peeked)
      → IsPeek stream peeked
      → HandsOn
          (take_header parse_ipv6 accept stream peeked)
          (drop (header_length accept stream peeked) stream)
          (header_source accept stream peeked)
  unfolding take_header
  take_header_lem false stream peeked h = unchanged stream
  take_header_lem true stream nothing h = unchanged stream
  take_header_lem true stream (there n) h = elim (Bool-cases (ltb 0 n)) [
    | inr empty ↦ rw empty (unchanged stream)
    | inl some_bytes ↦ rw some_bytes (after_peek-HandsOn n stream h)
  ]
