-- ===== src/Reality/Record.antt =====
-- src/transport/reality/tls.rs, the record layer: content types and TLS records.
pub mod Framing
use xray_lite.Prelude.{
  ℕ, ◌+◌, ◌≡◌, Bool, true, false, Option, none, some, [], ◌∷◌, ◌++◌, length, get_or, ltb, ◌==◌,
  if◌then◌else◌,
}
use xray_lite.Prelude.Outcome.{Outcome, ok, err, panic}
use xray_lite.Prelude.Bytes.{Bytes, IsU16, be16, put_u16, as_u16}
use xray_lite.Prelude.Read.{Read, pure, fail, if_short, ◌>>=◌, ◌>>◌, take_bytes, advance}

pub data ContentType : Type 0 where
  change_cipher_spec alert handshake application_data : ContentType

pub data TlsError : Type 0 where
  unknown_content_type unknown_handshake_type : ℕ → TlsError
  not_client_hello : TlsError
  -- No error of the program: a loop outran the model's fuel.
  out_of_fuel : TlsError

unfoldable pub content_type_from_u8 : ℕ → Outcome TlsError ContentType
content_type_from_u8 value =
    if value == 20
    then ok change_cipher_spec
    else if value == 21
    then ok alert
    else if value == 22
    then ok handshake
    else if value == 23
    then ok application_data
    else err (unknown_content_type value)

-- `self.content_type as u8`
abbrev pub content_type_code : ContentType → ℕ
content_type_code change_cipher_spec = 20
content_type_code alert = 21
content_type_code handshake = 22
content_type_code application_data = 23

pub record TlsRecord : Type 0 where
  pub content_type : ContentType
  pub version : ℕ
  pub payload : Bytes

-- `buf[i]` on the buffer that is read
abbrev pub peek : ℕ → Read TlsError ℕ
peek i s = if ltb i (length s) then (ok (get_or s i 0), s) else (panic, s)

-- `?` on a result that does not depend on the buffer
abbrev pub lift : {A : Type 0} → Outcome TlsError A → Read TlsError A
lift r s = (r, s)

-- A whole record is there: take its header, then its payload.
unfoldable pub split_record : ContentType → ℕ → ℕ → Read TlsError (Option TlsRecord)
split_record content_type version len = do
  advance 5
  payload ← take_bytes len
  pure (some (record { content_type = content_type; version = version; payload = payload }))

-- `ok none` is `Ok(None)`: more bytes are needed.
unfoldable pub parse : Read TlsError (Option TlsRecord)
parse = if_short 5 (pure none) (do
  b0 ← peek 0
  content_type ← lift (content_type_from_u8 b0)
  b1 ← peek 1
  b2 ← peek 2
  b3 ← peek 3
  b4 ← peek 4
  if_short (5 + be16 b3 b4) (pure none) (split_record content_type (be16 b1 b2) (be16 b3 b4)))

-- `payload.len() as u16`
unfoldable pub encode : TlsRecord → Bytes
encode r =
    content_type_code r.content_type ∷ put_u16 r.version ++ put_u16 (length r.payload) ++ r.payload

-- A record as the wire can hold it.
pub record IsValid (r : TlsRecord) : Type 0 where
  pub version : IsU16 r.version
  pub short : IsU16 (length r.payload)
