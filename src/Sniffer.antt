-- ===== src/Sniffer.antt =====
-- src/protocol/sniffer.rs: the server name in the first bytes that a client sends.
mod Tests
pub mod Safety
use xray_lite.Prelude.{
  ℕ, zero, suc, ◌+◌, Bool, true, false, not, Option, none, some, length, get_or, ltb, leb, ◌==◌,
  if◌then◌else◌,
}
use xray_lite.Prelude.Outcome.{Outcome, ok, err, panic, ◌>>=◌, ◌>>◌, guard}
use xray_lite.Prelude.Bytes.{Bytes, be16, index, slice}
use xray_lite.Prelude.Utf8.{is_utf8}

-- `None` of the sniffer. `out_of_fuel` is no value of the program: a loop outran the model's fuel.
pub data Miss : Type 0 where
  absent out_of_fuel : Miss

-- `data.get(pos)?`
get_at : Bytes → ℕ → Outcome Miss ℕ
get_at bytes pos = if ltb pos (length bytes) then ok (get_or bytes pos 0) else err absent

-- `u16::from_be_bytes([data[pos], data[pos + 1]])`
u16_at : Bytes → ℕ → Outcome Miss ℕ
u16_at bytes pos = do hi ← index bytes pos; lo ← index bytes (pos + 1); ok (be16 hi lo)

-- The name of the HostName entry, `std::str::from_utf8(&data[p2..p2 + name_len])`.
host_name : Bytes → ℕ → ℕ → Outcome Miss (Option Bytes)
host_name bytes p2 name_len = do
  name ← slice bytes p2 (p2 + name_len)
  guard (is_utf8 name) absent
  ok (some name)

-- One entry of the name list, and the entries behind it. `ok none`: the loop ended with no name.
sniff_entry :
    Bytes → ℕ → ℕ → ℕ → ℕ → (ℕ → Outcome Miss (Option Bytes)) → Outcome Miss (Option Bytes)
sniff_entry bytes p2 end_list name_type name_len rest =
    if ltb end_list (p2 + name_len)
    then ok none
    else if name_type == 0x00
    then host_name bytes p2 name_len
    else rest (p2 + name_len)

-- `while p2 + 3 <= end_list`
sniff_names : ℕ → Bytes → ℕ → ℕ → Outcome Miss (Option Bytes)
sniff_names zero bytes end_list p2 = err out_of_fuel
sniff_names (suc fuel) bytes end_list p2 =
    let rest = sniff_names fuel bytes end_list in
    let entry = (do
      name_type ← index bytes p2
      name_len ← u16_at bytes (p2 + 1)
      sniff_entry bytes (p2 + 3) end_list name_type name_len rest) in
    if leb (p2 + 3) end_list then entry else ok none

found_or : Outcome Miss Bytes → Option Bytes → Outcome Miss Bytes
found_or rest none = rest
found_or rest (some name) = ok name

-- The server name extension at `pos`, with `len` bytes; `rest` is the extensions behind it.
sniff_server_name : Bytes → ℕ → ℕ → Outcome Miss Bytes → Outcome Miss Bytes
sniff_server_name bytes pos len rest = do
  guard (not (ltb len 2)) absent
  list_len ← u16_at bytes pos
  guard (not (ltb (pos + len) (pos + 2 + list_len))) absent
  name ← sniff_names (suc (length bytes)) bytes (pos + 2 + list_len) (pos + 2)
  found_or rest name

sniff_extension : Bytes → ℕ → ℕ → ℕ → ℕ → (ℕ → Outcome Miss Bytes) → Outcome Miss Bytes
sniff_extension bytes end_ext pos ext_type len rest =
    if ltb end_ext (pos + len)
    then err absent
    else if ext_type == 0x0000
    then sniff_server_name bytes pos len (rest (pos + len))
    else rest (pos + len)

-- `while pos + 4 <= end_ext`
sniff_extensions : ℕ → Bytes → ℕ → ℕ → Outcome Miss Bytes
sniff_extensions zero bytes end_ext pos = err out_of_fuel
sniff_extensions (suc fuel) bytes end_ext pos =
    let rest = sniff_extensions fuel bytes end_ext in
    let extension = (do
      ext_type ← u16_at bytes pos
      len ← u16_at bytes (pos + 2)
      sniff_extension bytes end_ext (pos + 4) ext_type len rest) in
    if leb (pos + 4) end_ext then extension else err absent

-- From the cipher suites on.
sniff_suites : Bytes → ℕ → Outcome Miss Bytes
sniff_suites bytes pos = do
  guard (not (ltb (length bytes) (pos + 2))) absent
  cipher_len ← u16_at bytes pos
  let comp_pos = pos + (2 + cipher_len)
  guard (not (ltb (length bytes) (comp_pos + 1))) absent
  comp_len ← get_at bytes comp_pos
  let ext_pos = comp_pos + (1 + comp_len)
  guard (not (ltb (length bytes) (ext_pos + 2))) absent
  ext_len ← u16_at bytes ext_pos
  guard (not (ltb (length bytes) (ext_pos + 2 + ext_len))) absent
  sniff_extensions (suc (length bytes)) bytes (ext_pos + 2 + ext_len) (ext_pos + 2)

-- `err absent` is the `None` of the source, and `ok name` its `Some(name)`.
pub sniff_tls_sni : Bytes → Outcome Miss Bytes
sniff_tls_sni bytes = do
  guard (not (ltb (length bytes) 43)) absent
  content_type ← get_at bytes 0
  guard (content_type == 0x16) absent
  handshake_type ← get_at bytes 5
  guard (handshake_type == 0x01) absent
  sess_id_len ← get_at bytes 43
  sniff_suites bytes (43 + (1 + sess_id_len))
