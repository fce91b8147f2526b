-- ===== src/Reality/ClientHello.antt =====
-- src/transport/reality/tls.rs, the ClientHello and its extensions. The reads are those of an
-- `io::Cursor`: they panic where the bytes are not there, and most of them are not guarded.
pub mod Layout
use xray_lite.Prelude.{
  ℕ, zero, suc, ◌+◌, ◌/◌, Bool, true, false, not, List, [], ◌∷◌, Option, none, some, length, take,
  drop, get_or, ltb, ◌==◌, if◌then◌else◌,
}
use xray_lite.Prelude.Outcome.{Outcome, ok, err, panic}
use xray_lite.Prelude.Bytes.{Bytes, be16, with_index}
use xray_lite.Prelude.Utf8.{is_utf8}
use xray_lite.Prelude.Read.{
  Read, pure, fail, if_short, within, ◌>>=◌, ◌>>◌, get_u8, get_u16, take_bytes, advance,
}
use xray_lite.Reality.Record.{TlsError, not_client_hello, unknown_handshake_type, out_of_fuel}

pub data HandshakeType : Type 0 where
  client_hello server_hello new_session_ticket certificate : HandshakeType
  server_key_exchange certificate_request server_hello_done : HandshakeType
  certificate_verify client_key_exchange finished : HandshakeType

-- `self as u8`
abbrev pub handshake_type_code : HandshakeType → ℕ
handshake_type_code client_hello = 1
handshake_type_code server_hello = 2
handshake_type_code new_session_ticket = 4
handshake_type_code certificate = 11
handshake_type_code server_key_exchange = 12
handshake_type_code certificate_request = 13
handshake_type_code server_hello_done = 14
handshake_type_code certificate_verify = 15
handshake_type_code client_key_exchange = 16
handshake_type_code finished = 20

unfoldable pub handshake_type_from_u8 : ℕ → Outcome TlsError HandshakeType
handshake_type_from_u8 value =
    if value == 1
    then ok client_hello
    else if value == 2
    then ok server_hello
    else if value == 4
    then ok new_session_ticket
    else if value == 11
    then ok certificate
    else if value == 12
    then ok server_key_exchange
    else if value == 13
    then ok certificate_request
    else if value == 14
    then ok server_hello_done
    else if value == 15
    then ok certificate_verify
    else if value == 16
    then ok client_key_exchange
    else if value == 20
    then ok finished
    else err (unknown_handshake_type value)

pub record Extension : Type 0 where
  pub extension_type : ℕ
  pub body : Bytes

pub record ClientHello : Type 0 where
  pub version : ℕ
  pub random : Bytes
  pub session_id : Bytes
  pub cipher_suites : List ℕ
  pub compression_methods : Bytes
  pub extensions : List Extension
  pub raw_data : Bytes

-- `while cursor.position() < data.len()`
unfoldable pub parse_all : ℕ → Read TlsError (List Extension)
parse_all zero = fail out_of_fuel
parse_all (suc fuel) =
    let rest = parse_all fuel in
    if_short 1 (pure []) (do
      extension_type ← get_u16
      len ← get_u16
      ext_data ← take_bytes len
      more ← rest
      pure (record { extension_type = extension_type; body = ext_data } ∷ more))

-- `String::from_utf8(…).ok()`
abbrev utf8_name : Bytes → Option Bytes
utf8_name bytes = if is_utf8 bytes then some bytes else none

unfoldable pub parse_sni : Bytes → Outcome TlsError (Option Bytes)
parse_sni body =
    if ltb (length body) 5
    then ok none
    else with_index body 3 λ hi. with_index body 4 λ lo.
      if ltb (length body) (5 + be16 hi lo)
      then ok none
      else ok (utf8_name (take (be16 hi lo) (drop 5 body)))

-- One key share, its group and length read; `rest` is the shares behind it.
key_share_entry : ℕ → ℕ → Read TlsError (Option Bytes) → Read TlsError (Option Bytes)
key_share_entry group len rest =
    if group == 0x001d then (do key ← take_bytes len; pure (some key)) else (do advance len; rest)

key_shares : ℕ → Read TlsError (Option Bytes)
key_shares zero = fail out_of_fuel
key_shares (suc fuel) =
    let rest = key_shares fuel in
    if_short 1 (pure none) (
      if_short 2 (pure none) (do
        group ← get_u16
        if_short 2 (pure none)
            (do len ← get_u16; if_short len (pure none) (key_share_entry group len rest))))

unfoldable pub parse_client_key_share : Read TlsError (Option Bytes)
unfolding key_shares key_share_entry
parse_client_key_share =
    if_short 2 (pure none) (do advance 2; λ shares. key_shares (suc (length shares)) shares)

-- The `for` loop that both getters share: the first extension of the type.
unfoldable pub find_extension : ℕ → List Extension → Option Bytes
find_extension extension_type [] = none
find_extension extension_type (e ∷ es) =
    if e.extension_type == extension_type then some e.body else find_extension extension_type es

abbrev on_body :
    (Bytes → Outcome TlsError (Option Bytes)) → Option Bytes → Outcome TlsError (Option Bytes)
on_body parse none = ok none
on_body parse (some body) = parse body

unfoldable pub get_sni : ClientHello → Outcome TlsError (Option Bytes)
unfolding find_extension parse_sni
get_sni hello = on_body parse_sni (find_extension 0 hello.extensions)

unfoldable pub get_key_share : ClientHello → Outcome TlsError (Option Bytes)
unfolding find_extension parse_client_key_share
get_key_share hello =
    on_body (λ body. (parse_client_key_share body).0) (find_extension 0x0033 hello.extensions)

unfoldable pub get_reality_short_id : ClientHello → Option Bytes
get_reality_short_id hello =
    if ltb (length hello.session_id) 8 then none else some (take 8 hello.session_id)

-- `cursor.set_position(4)` from the start, which no end of the data stops
abbrev set_position : ℕ → Read TlsError Unit
set_position n s = (ok tt, drop n s)

-- `for _ in 0..n`
read_suites : ℕ → Read TlsError (List ℕ)
read_suites zero = pure []
read_suites (suc n) = do suite ← get_u16; more ← read_suites n; pure (suite ∷ more)

parse_extensions : Read TlsError (List Extension)
unfolding parse_all
parse_extensions = if_short 1 (pure []) (do
  extensions_len ← get_u16
  extensions_data ← take_bytes extensions_len
  within extensions_data (parse_all (suc (length extensions_data))))

-- From the cipher suites on.
parse_suites : Bytes → ℕ → Bytes → Bytes → Read TlsError ClientHello
parse_suites raw_data version random session_id = do
  cipher_suites_len ← get_u16
  cipher_suites ← read_suites (cipher_suites_len / 2)
  compression_methods_len ← get_u8
  compression_methods ← take_bytes compression_methods_len
  extensions ← parse_extensions
  pure (record {
    version = version;
    random = random;
    session_id = session_id;
    cipher_suites = cipher_suites;
    compression_methods = compression_methods;
    extensions = extensions;
    raw_data = raw_data;
  })

parse_fields : Bytes → Read TlsError ClientHello
parse_fields raw_data = do
  set_position 4
  version ← get_u16
  random ← take_bytes 32
  session_id_len ← get_u8
  session_id ← take_bytes session_id_len
  parse_suites raw_data version random session_id

pub parse : Bytes → Outcome TlsError ClientHello
parse body = with_index body 0 λ handshake_type.
    if not (handshake_type == 1) then err not_client_hello else (parse_fields body body).0
