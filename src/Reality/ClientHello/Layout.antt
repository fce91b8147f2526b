-- ===== src/Reality/ClientHello/Layout.antt =====
-- src/transport/reality/tls.rs: the layout of a ClientHello, and one that is cut.
use xray_lite.Prelude.{
  ℕ, zero, suc, ◌*◌, ◌/◌, ◌<◌, ◌≡◌, refl, sym, Bool-cases, inl, inr, List, [], ◌∷◌, ◌++◌, length,
  take, drop, ltb, arith, length-append, All, length-drop,
}
use xray_lite.Prelude.Outcome.{ok, panic}
use xray_lite.Prelude.Bytes.{Bytes, IsU16, be16, put_u16}
use xray_lite.Prelude.Read.{Read, ◌>>=◌, get_u8, get_u16, take_bytes, take_bytes-append}
use xray_lite.Reality.Record.{TlsError}
use xray_lite.Reality.ClientHello.{
  ClientHello, Extension, parse_all, read_suites, parse_extensions, parse_suites, parse_fields,
  parse,
}

-- The layout of the message, as RFC 8446 has it.
abbrev pub extension_bytes : Extension → Bytes
extension_bytes e = put_u16 e.extension_type ++ put_u16 (length e.body) ++ e.body

abbrev pub extensions_bytes : List Extension → Bytes
extensions_bytes [] = []
extensions_bytes (e ∷ es) = extension_bytes e ++ extensions_bytes es

abbrev pub suites_bytes : List ℕ → Bytes
suites_bytes [] = []
suites_bytes (s ∷ ss) = put_u16 s ++ suites_bytes ss

abbrev pub IsExtension : Extension → Type 0
IsExtension e = IsU16 e.extension_type × IsU16 (length e.body)

get_u16-put :
    {E : Type 0} (n : ℕ) (s : Bytes) → IsU16 n → get_u16 {E = E} (put_u16 n ++ s) ≡ (ok n, s)
unfolding get_u16
get_u16-put n s h = ground arith

parse_all-extensions_bytes :
    (fuel : ℕ) (es : List Extension)
    → All IsExtension es
    → length (extensions_bytes es) < fuel
    → parse_all fuel (extensions_bytes es) ≡ (ok es, [])
unfolding parse_all
parse_all-extensions_bytes zero es v h = absurd (omega arith)
parse_all-extensions_bytes (suc fuel) [] v h = refl
parse_all-extensions_bytes (suc fuel) (e ∷ es) ((t, n), vs) h =
    rw
      (
        get_u16-put {E = TlsError} e.extension_type
            (put_u16 (length e.body) ++ (e.body ++ extensions_bytes es)) t,
        get_u16-put {E = TlsError} (length e.body) (e.body ++ extensions_bytes es) n,
        take_bytes-append {E = TlsError} e.body (extensions_bytes es),
        parse_all-extensions_bytes fuel es vs
            (omega (arith, length-append {0} e.body (extensions_bytes es))),
      )
      (ground arith)

read_suites-suites_bytes :
    (ss : List ℕ) (rest : Bytes)
    → All IsU16 ss
    → read_suites (length ss) (suites_bytes ss ++ rest) ≡ (ok ss, rest)
unfolding read_suites
read_suites-suites_bytes [] rest v = refl
read_suites-suites_bytes (s ∷ ss) rest (v, vs) =
    rw
      (
        get_u16-put {E = TlsError} s (suites_bytes ss ++ rest) v,
        read_suites-suites_bytes ss rest vs,
      )
      refl

length-suites_bytes : (ss : List ℕ) → length (suites_bytes ss) ≡ 2 * length ss
length-suites_bytes [] = refl
length-suites_bytes (s ∷ ss) = omega (arith, length-suites_bytes ss)

parse_extensions-extensions_bytes :
    (es : List Extension) (rest : Bytes)
    → All IsExtension es
    → IsU16 (length (extensions_bytes es))
    → parse_extensions (put_u16 (length (extensions_bytes es)) ++ (extensions_bytes es ++ rest))
      ≡ (ok es, rest)
unfolding parse_extensions
parse_extensions-extensions_bytes es rest v h =
    rw
      (
        get_u16-put {E = TlsError} (length (extensions_bytes es)) (extensions_bytes es ++ rest) h,
        take_bytes-append {E = TlsError} (extensions_bytes es) rest,
        parse_all-extensions_bytes (suc (length (extensions_bytes es))) es v (omega arith),
      )
      (ground arith)

-- Everything from the cipher suites on.
abbrev pub suites_part : ClientHello → Bytes → Bytes
suites_part h rest =
    put_u16 (length (suites_bytes h.cipher_suites))
    ++ (suites_bytes h.cipher_suites
        ++ (length h.compression_methods
            ∷ (h.compression_methods
                ++ (put_u16 (length (extensions_bytes h.extensions))
                    ++ (extensions_bytes h.extensions ++ rest)))))

-- The whole message; `rest` is what stands behind it in the record.
abbrev pub hello_bytes : ClientHello → (x y z : ℕ) → Bytes → Bytes
hello_bytes h x y z rest =
    1
    ∷ x
    ∷ y
    ∷ z
    ∷ (put_u16 h.version
        ++ (h.random ++ (length h.session_id ∷ (h.session_id ++ suites_part h rest))))

-- A message whose fields fit their length bytes.
pub record IsValid (h : ClientHello) : Type 0 where
  pub version : IsU16 h.version
  pub random : length h.random ≡ 32
  pub suites : All IsU16 h.cipher_suites
  pub suites_fit : IsU16 (length (suites_bytes h.cipher_suites))
  pub extensions : All IsExtension h.extensions
  pub extensions_fit : IsU16 (length (extensions_bytes h.extensions))

half : (n k : ℕ) → n ≡ 2 * k → n / 2 ≡ k
half n k h = omega arith

get_u8-cons : (n : ℕ) (s : Bytes) → get_u8 {E = TlsError} (n ∷ s) ≡ (ok n, s)
unfolding get_u8
get_u8-cons n s = refl

parse_suites-suites_part :
    (h : ClientHello) (raw rest : Bytes)
    → IsValid h
    → parse_suites raw h.version h.random h.session_id (suites_part h rest) ≡ (
      ok (record {
        version = h.version;
        random = h.random;
        session_id = h.session_id;
        cipher_suites = h.cipher_suites;
        compression_methods = h.compression_methods;
        extensions = h.extensions;
        raw_data = raw;
      }),
      rest,
    )
unfolding parse_suites
parse_suites-suites_part h raw rest v =
    let exts =
      put_u16 (length (extensions_bytes h.extensions)) ++ (extensions_bytes h.extensions ++ rest) in
    rw
      (
        get_u16-put {E = TlsError} (length (suites_bytes h.cipher_suites))
            (suites_bytes h.cipher_suites
              ++ (length h.compression_methods ∷ (h.compression_methods ++ exts)))
            v.suites_fit,
        half (length (suites_bytes h.cipher_suites)) (length h.cipher_suites)
            (length-suites_bytes h.cipher_suites),
        read_suites-suites_bytes h.cipher_suites
            (length h.compression_methods ∷ (h.compression_methods ++ exts)) v.suites,
        get_u8-cons (length h.compression_methods) (h.compression_methods ++ exts),
        take_bytes-append {E = TlsError} h.compression_methods exts,
        parse_extensions-extensions_bytes h.extensions rest v.extensions v.extensions_fit,
      )
      refl

parse_fields-hello_bytes :
    (h : ClientHello) (x y z : ℕ) (raw rest : Bytes)
    → IsValid h
    → parse_fields raw (hello_bytes h x y z rest) ≡ (
      ok (record {
        version = h.version;
        random = h.random;
        session_id = h.session_id;
        cipher_suites = h.cipher_suites;
        compression_methods = h.compression_methods;
        extensions = h.extensions;
        raw_data = raw;
      }),
      rest,
    )
unfolding parse_fields
parse_fields-hello_bytes h x y z raw rest v =
    rw
      (
        get_u16-put {E = TlsError} h.version
            (h.random ++ (length h.session_id ∷ (h.session_id ++ suites_part h rest))) v.version,
        sym v.random,
        take_bytes-append {E = TlsError} h.random
            (length h.session_id ∷ (h.session_id ++ suites_part h rest)),
        get_u8-cons (length h.session_id) (h.session_id ++ suites_part h rest),
        take_bytes-append {E = TlsError} h.session_id (suites_part h rest),
      )
      (parse_suites-suites_part h raw rest v)

-- A ClientHello laid out as RFC 8446 has it is parsed into its fields, with the raw bytes kept.
pub parse-hello_bytes :
    (h : ClientHello) (x y z : ℕ) (rest : Bytes)
    → IsValid h
    → h.raw_data ≡ hello_bytes h x y z rest
    → parse (hello_bytes h x y z rest) ≡ ok h
unfolding parse
parse-hello_bytes h x y z rest v raw =
    ground (arith, raw, parse_fields-hello_bytes h x y z (hello_bytes h x y z rest) rest v)

-- The reads behind the handshake header, with too few bytes for a session id.
get_u8-short :
    {A : Type 0} (f : ℕ → Read TlsError A) (s : Bytes) → length s < 1 → ((get_u8 >>= f) s).0 ≡ panic
unfolding get_u8
get_u8-short f [] h = refl
get_u8-short f (a ∷ s) h = absurd (omega arith)

random-short :
    {A : Type 0} (f : Bytes → ℕ → Read TlsError A) (s : Bytes)
    → length s < 33
    → ((take_bytes 32 >>= λ random. get_u8 >>= f random) s).0 ≡ panic
unfolding take_bytes
random-short f s h = elim (Bool-cases (ltb (length s) 32)) [
  | inl short ↦ rw short refl
  | inr enough ↦
      rw enough (get_u8-short (f (take 32 s)) (drop 32 s) (omega (arith, length-drop {0} 32 s)))
]

version-short :
    {A : Type 0} (f : ℕ → Bytes → ℕ → Read TlsError A) (s : Bytes)
    → length s < 35
    → ((get_u16 >>= λ version. take_bytes 32 >>= λ random. get_u8 >>= f version random) s).0 ≡ panic
unfolding get_u16
version-short f [] h = refl
version-short f (a ∷ []) h = refl
version-short f (a ∷ b ∷ s) h = random-short (f (be16 a b)) s (omega arith)

fields_short : (raw s : Bytes) → length (drop 4 s) < 35 → (parse_fields raw s).0 ≡ panic
unfolding parse_fields
fields_short raw s h = version-short _ (drop 4 s) h

-- The reads of the fixed fields are not guarded: every ClientHello that ends before its session id
-- makes the parser panic, even if all its lengths are right.
pub parse_hello_truncated : (s : Bytes) → length s < 38 → parse (1 ∷ s) ≡ panic
unfolding parse
parse_hello_truncated s h =
    ground (arith, fields_short (1 ∷ s) (1 ∷ s) (omega (arith, length-drop {0} 3 s)))
