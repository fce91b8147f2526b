-- ===== src/Reality/ServerHello/Shape.antt =====
-- src/transport/reality/tls.rs: the lengths of the ServerHello, and the tag in its random.
use xray_lite.Prelude.{
  ◌-◌, ◌≡◌, refl, ◌∙◌, sym, some, ◌∷◌, ◌++◌, length, take, arith, length-append, length-take,
  append_assoc,
}
use xray_lite.Prelude.Outcome.{ok}
use xray_lite.Prelude.Bytes.{Bytes, IsU16, as_u8, put_u16, put_u24}
use xray_lite.Reality.Record
use xray_lite.Reality.Record.{TlsRecord, handshake}
use xray_lite.Reality.Record.Framing.{parse-encode_record}
use xray_lite.Reality.Auth.{
  RealityAuth, inject_auth_into_random, generate_auth_tag, modify_server_hello,
}
use xray_lite.Reality.Auth.Tags.{modify_server_hello_layout}
use xray_lite.Reality.ServerHello.{ServerHello, new_reality, hello_fields, extensions_block, encode}

-- The encoded ServerHello is one handshake record, which the record parser gives back.
pub parse-encode_server_hello :
    (hello : ServerHello) (rest : Bytes)
    → IsU16 (length hello.raw_data)
    → Record.parse (encode hello ++ rest) ≡ (
      ok (some (record { content_type = handshake; version = 0x0303; payload = hello.raw_data })),
      rest,
    )
unfolding encode Record.encode
parse-encode_server_hello hello rest h =
    parse-encode_record
      (record { content_type = handshake; version = 0x0303; payload = hello.raw_data }) rest
      (record { version = omega arith; short = h })

inject-length :
    (sign : Bytes → Bytes → Bytes) (auth : RealityAuth) (random client_random : Bytes)
    → ((key message : Bytes) → length (sign key message) ≡ 32)
    → length random ≡ 32
    → length (inject_auth_into_random sign auth random client_random) ≡ 32
unfolding inject_auth_into_random
inject-length sign auth random client_random hs hr = ground (
  arith,
  length-append {0} (take 20 random)
      (take 12 (sign auth.private_key_bytes (take 20 random ++ client_random))),
  length-take {0} 20 random,
  length-take {0} 12 (sign auth.private_key_bytes (take 20 random ++ client_random)),
  hs auth.private_key_bytes (take 20 random ++ client_random),
)

-- What follows the random.
fields_tail : Bytes → Bytes → Bytes
fields_tail session_id key_share =
    as_u8 (length session_id)
    ∷ (session_id
        ++ (put_u16 0x1301
            ++ (0 ∷ (put_u16 (length (extensions_block key_share)) ++ extensions_block key_share))))

hello_fields_split :
    (session_id random key_share : Bytes)
    → hello_fields session_id random key_share
      ≡ 3 ∷ 3 ∷ (random ++ fields_tail session_id key_share)
unfolding hello_fields fields_tail
hello_fields_split session_id random key_share = refl

append-length : (xs ys zs : Bytes) → length xs ≡ length ys → length (xs ++ zs) ≡ length (ys ++ zs)
append-length xs ys zs h = omega (arith, length-append {0} xs zs, length-append {0} ys zs)

-- Injecting the tag into a new ServerHello gives the ServerHello that has the tagged random in place
-- of the original one: nothing else of the message changes, its lengths included.
pub modify-new_reality :
    (sign : Bytes → Bytes → Bytes) (auth : RealityAuth)
    (session_id random key_share client_random : Bytes)
    → ((key message : Bytes) → length (sign key message) ≡ 32)
    → length random ≡ 32
    → modify_server_hello sign auth (new_reality session_id random key_share).raw_data client_random
      ≡ ok
          (new_reality session_id
            (inject_auth_into_random sign auth random client_random)
            key_share).raw_data
unfolding new_reality inject_auth_into_random generate_auth_tag
modify-new_reality sign auth session_id random key_share client_random hs hr =
    let tail = fields_tail session_id key_share in
    let tagged =
      take 20 random ++ take 12 (sign auth.private_key_bytes (take 20 random ++ client_random)) in
    rw
      (
        hello_fields_split session_id random key_share,
        hello_fields_split session_id tagged key_share,
        append-length tagged random tail
            (inject-length sign auth random client_random hs hr ∙ sym hr),
        append_assoc (take 20 random)
            (take 12 (sign auth.private_key_bytes (take 20 random ++ client_random))) tail,
      )
      (modify_server_hello_layout sign auth
        (put_u24 (length (2 ∷ 0 ∷ 0 ∷ 0 ∷ 3 ∷ 3 ∷ (random ++ tail)) - 4) ++ put_u16 0x0303) random
        tail client_random refl hr)
