-- ===== src/Reality/HelloParser.antt =====
-- src/transport/reality/hello_parser.rs: what the Reality check needs of a ClientHello.
pub mod Tests
pub mod Safety
pub mod Termination
pub mod Finds
pub mod Shape
use xray_lite.Prelude.{
  ℕ, zero, suc, ◌+◌, Bool, true, false, not, ◌&&◌, Option, none, some, length, drop, ltb, ◌==◌,
  if◌then◌else◌,
}
use xray_lite.Prelude.Outcome.{Outcome, ok, err, panic}
use xray_lite.Prelude.Bytes.{Bytes, be16, with_index}
use xray_lite.Prelude.Utf8.{is_utf8}
use xray_lite.Prelude.Read.{
  Read, pure, fail, ◌>>=◌, ◌>>◌, require, if_short, within, get_u8, get_u16, take_bytes, advance,
}

pub data HelloError : Type 0 where
  short_buffer short_version short_random short_session_id_len short_session_id : HelloError
  short_cipher_suites_len short_cipher_suites short_compression_len short_compression : HelloError
  short_extensions : HelloError
  -- No error of the program: a loop outran the model's fuel.
  out_of_fuel : HelloError

pub record ClientHelloInfo : Type 0 where
  pub session_id : Bytes
  pub client_random : Bytes
  pub public_key : Option Bytes
  pub server_name : Option Bytes

-- `if let Ok(s) = String::from_utf8(name_bytes) { server_name = Some(s) }`
abbrev keep_name : Option Bytes → Bytes → Option Bytes
keep_name old name = if is_utf8 name then some name else old

-- One entry of the name list, its type and length read.
name_entry : Option Bytes → ℕ → ℕ → Read HelloError (Option Bytes) → Read HelloError (Option Bytes)
name_entry old name_type name_len rest =
    if name_type == 0x00
    then (do name ← take_bytes name_len; pure (keep_name old name))
    else (do advance name_len; rest)

-- `while list.has_remaining()`
scan_names : ℕ → Option Bytes → Read HelloError (Option Bytes)
scan_names zero old = fail out_of_fuel
scan_names (suc fuel) old =
    let rest = scan_names fuel old in
    if_short 1 (pure old) (
      if_short 3 (pure old) (do
        name_type ← get_u8
        name_len ← get_u16
        if_short name_len (pure old) (name_entry old name_type name_len rest)))

-- The server name extension, read from its data.
scan_sni : Option Bytes → Read HelloError (Option Bytes)
scan_sni old = if_short 2 (pure old) (do
  list_len ← get_u16
  if_short list_len (pure old)
      (do list ← take_bytes list_len; within list (scan_names (suc (length list)) old)))

share_entry : Option Bytes → ℕ → ℕ → Read HelloError (Option Bytes) → Read HelloError (Option Bytes)
share_entry old group key_len rest =
    if group == 0x001d && key_len == 32
    then (do key ← take_bytes 32; pure (some key))
    else (do advance key_len; rest)

-- `while shares.has_remaining()`
scan_shares : ℕ → Option Bytes → Read HelloError (Option Bytes)
scan_shares zero old = fail out_of_fuel
scan_shares (suc fuel) old =
    let rest = scan_shares fuel old in
    if_short 1 (pure old) (
      if_short 4 (pure old) (do
        group ← get_u16
        key_len ← get_u16
        if_short key_len (pure old) (share_entry old group key_len rest)))

-- The key share extension, read from its data. `none` is the `continue` of the outer loop.
scan_key_share : Option Bytes → Read HelloError (Option (Option Bytes))
scan_key_share old = if_short 2 (pure none) (do
  shares_len ← get_u16
  if_short shares_len (pure none) (do
    shares ← take_bytes shares_len
    key ← within shares (scan_shares (suc (length shares)) old)
    pure (some key)))

abbrev pub Found : Type 0
Found = Option Bytes × Option Bytes

abbrev is_some : Option Bytes → Bool
is_some none = false
is_some (some x) = true

-- The end of a round: leave the loop once both values are there.
next_round : Found → (Found → Read HelloError Found) → Read HelloError Found
next_round found rest = if is_some found.0 && is_some found.1 then pure found else rest found

after_shares :
    Option (Option Bytes) → Found → (Found → Read HelloError Found) → Read HelloError Found
after_shares none found rest = rest found
after_shares (some key) found rest = next_round (key, found.1) rest

-- One extension, by its type. `found` is the public key and the server name so far.
scan_extension : ℕ → Bytes → Found → (Found → Read HelloError Found) → Read HelloError Found
scan_extension ext_type ext_data found rest =
    if ext_type == 0x0000
    then (do name ← within ext_data (scan_sni found.1); next_round (found.0, name) rest)
    else if ext_type == 0x0033
    then (do key ← within ext_data (scan_key_share found.0); after_shares key found rest)
    else next_round found rest

-- `while extensions.has_remaining()`
scan_extensions : ℕ → Found → Read HelloError Found
scan_extensions zero found = fail out_of_fuel
scan_extensions (suc fuel) found =
    let rest = scan_extensions fuel in
    if_short 1 (pure found) (
      if_short 4 (pure found) (do
        ext_type ← get_u16
        ext_len ← get_u16
        if_short ext_len (pure found)
            (do ext_data ← take_bytes ext_len; scan_extension ext_type ext_data found rest)))

abbrev info : Bytes → Bytes → Found → Option ClientHelloInfo
info session_id client_random found = some (record {
  session_id = session_id;
  client_random = client_random;
  public_key = found.0;
  server_name = found.1;
})

-- From the extensions on.
parse_extensions : Bytes → Bytes → Read HelloError (Option ClientHelloInfo)
parse_extensions session_id client_random =
    if_short 2 (pure (info session_id client_random (none, none))) (do
      extensions_len ← get_u16
      require extensions_len short_extensions
      extensions ← take_bytes extensions_len
      found ← within extensions (scan_extensions (suc (length extensions)) (none, none))
      pure (info session_id client_random found))

-- From the cipher suites on.
parse_suites : Bytes → Bytes → Read HelloError (Option ClientHelloInfo)
parse_suites session_id client_random = do
  require 2 short_cipher_suites_len
  cipher_suites_len ← get_u16
  require cipher_suites_len short_cipher_suites
  advance cipher_suites_len
  require 1 short_compression_len
  compression_methods_len ← get_u8
  require compression_methods_len short_compression
  advance compression_methods_len
  parse_extensions session_id client_random

parse_body : Read HelloError (Option ClientHelloInfo)
parse_body = do
  advance 3
  require 2 short_version
  advance 2
  require 32 short_random
  client_random ← take_bytes 32
  require 1 short_session_id_len
  session_id_len ← get_u8
  require session_id_len short_session_id
  session_id ← take_bytes session_id_len
  parse_suites session_id client_random

parse_handshake : Read HelloError (Option ClientHelloInfo)
parse_handshake = do
  require 4 short_buffer
  msg_type ← get_u8
  if not (msg_type == 0x01) then pure none else parse_body

-- The record layer: the whole record must be there.
parse_record : Bytes → Outcome HelloError (Option ClientHelloInfo)
parse_record buf = with_index buf 3 λ hi.
    with_index buf 4
      λ lo. if ltb (length buf) (5 + be16 hi lo) then ok none else (parse_handshake (drop 5 buf)).0

-- `ok none` is `Ok(None)`: not a ClientHello, or not all of it.
pub parse_client_hello : Bytes → Outcome HelloError (Option ClientHelloInfo)
parse_client_hello buf =
    if ltb (length buf) 5
    then ok none
    else with_index buf 0
        λ content_type. if not (content_type == 0x16) then ok none else parse_record buf
