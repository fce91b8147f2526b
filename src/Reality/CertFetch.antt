-- ===== src/Reality/CertFetch.antt =====
-- src/transport/reality/cert_fetch.rs: the ClientHello that asks a destination for its certificate,
-- and the search for the certificate in the answer. The network is not modelled.
mod Tests
pub mod Asks
use xray_lite.Prelude.{
  ℕ, zero, suc, ◌+◌, ◌-◌, Bool, true, false, Option, none, some, [], ◌∷◌, ◌++◌, length, take, drop,
  get_or, ltb, if◌then◌else◌, ◌==◌,
}
use xray_lite.Prelude.Bytes.{Bytes, put_u16, put_u24, be16}

-- `server_name.split(':').next()`
unfoldable pub host_part : Bytes → Bytes
host_part [] = []
host_part (b ∷ bs) = let rest = host_part bs in if b == 0x3a then [] else b ∷ rest

abbrev sni_data : Bytes → Bytes
sni_data sni = put_u16 (length sni + 3) ++ (0 ∷ (put_u16 (length sni) ++ sni))

-- The server name, and the supported versions.
unfoldable pub hello_extensions : Bytes → Bytes
hello_extensions sni =
    put_u16 0x0000
    ++ (put_u16 (length (sni_data sni))
        ++ (sni_data sni ++ (put_u16 0x002b ++ put_u16 3 ++ (2 ∷ put_u16 0x0304))))

-- From the version to the extensions; `random` is what the random number generator gave.
unfoldable pub hello_fields : Bytes → Bytes → Bytes
hello_fields random sni =
    put_u16 0x0303
    ++ (random
        ++ (0
            ∷ (put_u16 2
                ++ (put_u16 0x1301
                    ++ (1
                        ∷ 0
                        ∷ (put_u16 (length (hello_extensions sni)) ++ hello_extensions sni))))))

-- The lengths of the record and of the message are filled in at the end.
unfoldable pub build_simple_client_hello : Bytes → Bytes → Bytes
build_simple_client_hello random server_name =
    let fields = hello_fields random (host_part server_name) in
    0x16
    ∷ (put_u16 0x0303
        ++ (put_u16 (length (0x01 ∷ 0 ∷ 0 ∷ 0 ∷ fields))
            ++ (0x01 ∷ (put_u24 (length fields) ++ fields))))

pub data Search : Type 0 where
  certificate : Bytes → Search
  -- `out_of_fuel` is no value of the program: a loop outran the model's fuel.
  not_found out_of_fuel : Search

-- A handshake record whose payload starts with a Certificate message, or the records behind it.
certificate_or : ℕ → Bytes → Search → Search
certificate_or content_type payload rest =
    if content_type == 0x16
    then (if ltb 0 (length payload)
        then (if get_or payload 0 0 == 11 then certificate payload else rest)
        else rest)
    else rest

-- `while pos + 5 < data.len()`
search : ℕ → Bytes → ℕ → Search
search zero bytes pos = out_of_fuel
search (suc fuel) bytes pos =
    let record_len = be16 (get_or bytes (pos + 3) 0) (get_or bytes (pos + 4) 0) in
    let rest = search fuel bytes (pos + (5 + record_len)) in
    if ltb (pos + 5) (length bytes)
    then (if ltb (length bytes) (pos + 5 + record_len)
        then not_found
        else certificate_or (get_or bytes pos 0) (take record_len (drop (pos + 5) bytes)) rest)
    else not_found

pub extract_certificate_from_response : Bytes → Search
extract_certificate_from_response bytes = search (suc (length bytes)) bytes 0
