-- ===== src/Reality/Accept.antt =====
-- src/transport/reality/server_rustls.rs: who is let in. X25519, HKDF and AES-256-GCM are parameters.
pub mod Tests
pub mod Verified
pub mod Gathered
pub mod InRange
use xray_lite.Prelude.{
  ℕ, zero, suc, ◌+◌, ◌-◌, ◌*◌, ◌/◌, ◌%◌, Bool, true, false, not, ◌&&◌, ◌||◌, Option, none, some,
  List, [], ◌∷◌, ◌++◌, length, take, drop, get_or, ltb, leb, if◌then◌else◌, ◌==◌,
}
use xray_lite.Prelude.Outcome.{Outcome, ok, err, panic, ◌>>=◌, ◌>>◌, guard}
use xray_lite.Prelude.Bytes.{Bytes, be16, slice, with_index, bytes_eq}
use xray_lite.Reality.HelloParser.{ClientHelloInfo, HelloError, parse_client_hello}

-- `None` of the check, in the order of its early returns.
pub data Refusal : Type 0 where
  bad_hello_shape bad_public_key hkdf_failed bad_tag short_plaintext unknown_short_id : Refusal

pub record RealityServerRustls : Type 0 where
  pub private_key : Bytes
  pub short_ids : List Bytes
  pub server_names : List Bytes

-- `hex::encode`, as the values of the digits
abbrev pub hex_digits : Bytes → Bytes
hex_digits [] = []
hex_digits (b ∷ bs) = b / 16 % 16 ∷ b % 16 ∷ hex_digits bs

unfoldable pub has_prefix : Bytes → Bytes → Bool
has_prefix [] xs = true
has_prefix (p ∷ ps) [] = false
has_prefix (p ∷ ps) (x ∷ xs) = p == x && has_prefix ps xs

abbrev next_position : Option ℕ → Option ℕ
next_position none = none
next_position (some n) = some (suc n)

-- `str::find`
unfoldable pub find : Bytes → Bytes → Option ℕ
unfolding has_prefix
find pattern [] = if has_prefix pattern [] then some 0 else none
find pattern (x ∷ xs) =
    let rest = next_position (find pattern xs) in
    if has_prefix pattern (x ∷ xs) then some 0 else rest

-- `for i in 0..n { if pos + i < aad.len() { aad[pos + i] = 0; } }`
abbrev pub zero_at : ℕ → ℕ → Bytes → Bytes
zero_at pos n [] = []
zero_at (suc pos) n (x ∷ xs) = x ∷ zero_at pos n xs
zero_at zero zero (x ∷ xs) = x ∷ xs
zero_at zero (suc n) (x ∷ xs) = 0 ∷ zero_at zero n xs

abbrev zero_found : Option ℕ → Bytes → Bytes
zero_found none message = message
zero_found (some p) message = zero_at (p / 2) 32 message

-- The additional data: the handshake message with the session id zeroed.
unfoldable pub aad_of : Bytes → Bytes → Bytes
unfolding find
aad_of session_id message = zero_found (find (hex_digits session_id) (hex_digits message)) message

-- `for sid in &short_ids`
unfoldable pub match_short_id : List Bytes → Bytes → Outcome Refusal ℕ
unfolding bytes_eq
match_short_id [] buf = err unknown_short_id
match_short_id (sid ∷ sids) buf =
    let rest = match_short_id sids buf in
    slice buf 4 12 >>= λ at4.
    (let second = slice buf 8 16 >>= (λ at8. if bytes_eq sid at8 then ok 8 else rest) in
      if bytes_eq sid at4 then ok 4 else second)

abbrev or_refuse : {A : Type 0} → Refusal → Option A → Outcome Refusal A
or_refuse e none = err e
or_refuse e (some a) = ok a

-- `copy_from_slice` into an array of `n`
abbrev exact : ℕ → Bytes → Outcome Refusal Bytes
exact n bytes = if length bytes == n then ok bytes else panic

-- "REALITY"
abbrev pub hkdf_info : Bytes
hkdf_info = 0x52 ∷ 0x45 ∷ 0x41 ∷ 0x4c ∷ 0x49 ∷ 0x54 ∷ 0x59 ∷ []

-- `if full_hello[0] == 0x16 { &full_hello[5..] } else { full_hello }`
unfoldable pub handshake_of : Bytes → Outcome Refusal Bytes
handshake_of full_hello =
    with_index full_hello 0
      λ first. if first == 0x16 then slice full_hello 5 (length full_hello) else ok full_hello

module _ (diffie_hellman : Bytes → Bytes → Bytes) (hkdf : Bytes → Bytes → Bytes → Option Bytes)
    (decrypt_in_place : Bytes → Bytes → Bytes → Bytes → Option Bytes) where
  -- From the shared secret on: `hkdf salt secret info`, `decrypt_in_place key nonce aad buf`.
  unfoldable pub verify_key :
      RealityServerRustls → ClientHelloInfo → Bytes → Bytes → Outcome Refusal (ℕ × Bytes)
  unfolding aad_of match_short_id
  verify_key server info message client_pub = do
    salt ← slice info.client_random 0 20
    auth_key ←
        or_refuse hkdf_failed (hkdf salt (diffie_hellman server.private_key client_pub) hkdf_info)
    nonce ← slice info.client_random 20 32
    buf ←
        or_refuse bad_tag
          (decrypt_in_place auth_key nonce (aad_of info.session_id message) info.session_id)
    guard (not (ltb (length buf) 16)) short_plaintext
    offset ← match_short_id server.short_ids buf
    ok (offset, auth_key)

  -- The offset of the short id, and the key of the connection.
  unfoldable pub verify_client_reality :
      RealityServerRustls → ClientHelloInfo → Bytes → Outcome Refusal (ℕ × Bytes)
  unfolding verify_key handshake_of
  verify_client_reality server info full_hello = do
    guard (length info.session_id == 32) bad_hello_shape
    public_key ← or_refuse bad_hello_shape info.public_key
    server_priv ← exact 32 server.private_key
    guard (length public_key == 32) bad_public_key
    handshake_msg ← handshake_of full_hello
    verify_key server info handshake_msg public_key

abbrev contains_name : List Bytes → Bytes → Bool
contains_name [] name = false
contains_name (s ∷ ss) name = bytes_eq s name || contains_name ss name

unfoldable pub sni_valid : List Bytes → Option Bytes → Bool
unfolding bytes_eq
sni_valid [] name = true
sni_valid (s ∷ ss) none = false
sni_valid (s ∷ ss) (some name) = contains_name (s ∷ ss) name

-- What `accept` does with the bytes that it gathered: serve TLS under this key, hand the
-- connection to the fallback destination, or panic.
pub data Decision : Type 0 where
  serve : ℕ → Bytes → Decision
  fall_back crash : Decision

abbrev by_check : Outcome Refusal (ℕ × Bytes) → Decision
by_check (ok (offset, auth_key)) = serve offset auth_key
by_check (err e) = fall_back
by_check panic = crash

module _ (diffie_hellman : Bytes → Bytes → Bytes) (hkdf : Bytes → Bytes → Bytes → Option Bytes)
    (decrypt_in_place : Bytes → Bytes → Bytes → Bytes → Option Bytes) where
  by_hello : RealityServerRustls → Bytes → Outcome HelloError (Option ClientHelloInfo) → Decision
  by_hello server buffer (ok (some info)) =
      if not (sni_valid server.server_names info.server_name)
      then fall_back
      else by_check (verify_client_reality diffie_hellman hkdf decrypt_in_place server info buffer)
  by_hello server buffer (ok none) = fall_back
  by_hello server buffer (err e) = fall_back
  by_hello server buffer panic = crash

  pub decide : RealityServerRustls → Bytes → Decision
  decide server buffer = by_hello server buffer (parse_client_hello buffer)

-- Gathering the first record, from the answers of the stream; an empty one is the end of the
-- stream, and a list that is used up stands for the timeout. What was gathered comes with what the
-- stream answers after it; `out_of_range` is a panic.
pub data Gather : Type 0 where
  gathered : Bytes → List Bytes → Gather
  closed_early timed_out out_of_range : Gather

-- The second loop: `while buffer.len() < needed && buffer.len() < 16384`.
unfoldable pub read_needed : ℕ → Bytes → List Bytes → Gather
read_needed needed buffer [] =
    if ltb (length buffer) needed && ltb (length buffer) 16384
    then timed_out
    else gathered buffer []
read_needed needed buffer ([] ∷ chunks) =
    if ltb (length buffer) needed && ltb (length buffer) 16384
    then gathered buffer chunks
    else gathered buffer ([] ∷ chunks)
read_needed needed buffer ((x ∷ xs) ∷ chunks) =
    let rest = read_needed needed (buffer ++ (x ∷ xs)) chunks in
    if ltb (length buffer) needed && ltb (length buffer) 16384
    then rest
    else gathered buffer ((x ∷ xs) ∷ chunks)

-- The length of the first record, by its header.
unfoldable pub needed_of : Bytes → Outcome ⊥ ℕ
needed_of buffer = with_index buffer 0 λ kind.
    if kind == 0x16
    then with_index buffer 3 (λ hi. with_index buffer 4 (λ lo. ok (5 + be16 hi lo)))
    else ok (length buffer)

-- What follows the first loop; there is no error but a panic.
unfoldable pub after_header : Bytes → List Bytes → Outcome ⊥ ℕ → Gather
unfolding read_needed
after_header buffer chunks (ok needed) = read_needed needed buffer chunks
after_header buffer chunks (err e) = absurd e
after_header buffer chunks panic = out_of_range

-- The first loop: `while buffer.len() < 5`.
unfoldable pub read_header : Bytes → List Bytes → Gather
unfolding needed_of after_header
read_header buffer [] =
    if ltb (length buffer) 5 then timed_out else after_header buffer [] (needed_of buffer)
read_header buffer ([] ∷ chunks) =
    if ltb (length buffer) 5
    then closed_early
    else after_header buffer ([] ∷ chunks) (needed_of buffer)
read_header buffer ((x ∷ xs) ∷ chunks) =
    let rest = read_header (buffer ++ (x ∷ xs)) chunks in
    if ltb (length buffer) 5
    then rest
    else after_header buffer ((x ∷ xs) ∷ chunks) (needed_of buffer)

-- `PrefixedStream`: what of the prefix is not read yet. `none` hands the read to the inner stream.
unfoldable pub prefixed_read : ℕ → Bytes → Option (Bytes × Bytes)
prefixed_read room prefix =
    if ltb 0 (length prefix) then some (take room prefix, drop room prefix) else none
