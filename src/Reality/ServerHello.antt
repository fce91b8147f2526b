-- ===== src/Reality/ServerHello.antt =====
-- src/transport/reality/tls.rs, the ServerHello that the Reality server sends.
pub mod Shape
use xray_lite.Prelude.{ℕ, ◌+◌, ◌-◌, [], ◌∷◌, ◌++◌, length}
use xray_lite.Prelude.Bytes.{Bytes, as_u8, put_u16, put_u24}
use xray_lite.Reality.Record.{TlsRecord, handshake}

pub record ServerHello : Type 0 where
  pub raw_data : Bytes

-- The supported versions and the key share.
unfoldable pub extensions_block : Bytes → Bytes
extensions_block key_share_data =
    put_u16 0x002b
    ++ put_u16 2
    ++ put_u16 0x0304
    ++ put_u16 0x0033
    ++ put_u16 (4 + length key_share_data)
    ++ put_u16 0x001d
    ++ put_u16 (length key_share_data)
    ++ key_share_data

-- All that stands behind the handshake header.
unfoldable pub hello_fields : Bytes → Bytes → Bytes → Bytes
hello_fields client_session_id random key_share_data =
    put_u16 0x0303
    ++ (random
        ++ (as_u8 (length client_session_id)
            ∷ (client_session_id
                ++ (put_u16 0x1301
                    ++ (0
                        ∷ (put_u16 (length (extensions_block key_share_data))
                            ++ extensions_block key_share_data))))))

-- The header is written with a length of 0, and three bytes of the length of what follows it are
-- filled in at the end.
unfoldable pub new_reality : Bytes → Bytes → Bytes → ServerHello
new_reality client_session_id random key_share_data =
    let fields = hello_fields client_session_id random key_share_data in
    record { raw_data = 2 ∷ (put_u24 (length (2 ∷ 0 ∷ 0 ∷ 0 ∷ fields) - 4) ++ fields) }

unfoldable pub encode : ServerHello → Bytes
encode hello = 22 ∷ put_u16 0x0303 ++ put_u16 (length hello.raw_data) ++ hello.raw_data
