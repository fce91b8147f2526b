-- ===== src/Sniffer/Safety.antt =====
-- src/protocol/sniffer.rs on any bytes.
use xray_lite.Prelude.{
  ℕ, zero, suc, ◌+◌, ◌-◌, ◌≤◌, ◌<◌, ◌≡◌, ◌≢◌, refl, not, Option, none, some, length, arith,
  Bool-cases, inl, inr, get_or, leb, ltb,
}
use xray_lite.Prelude.Outcome.{Outcome, ok, err, panic, ◌>>=◌, ◌>>◌, guard}
use xray_lite.Prelude.Bytes.{Bytes, be16}
use xray_lite.Sniffer.{
  Miss, absent, out_of_fuel, get_at, u16_at, host_name, sniff_entry, sniff_names, found_or,
  sniff_server_name, sniff_extension, sniff_extensions, sniff_suites, sniff_tls_sni,
}

-- A result that the program can give.
abbrev Returns {ℓ} : {A : Type ℓ} → Outcome Miss A → Type ℓ
Returns r = (r ≢ panic) × (r ≢ err out_of_fuel)

u16_at-ok :
    (bytes : Bytes) (pos : ℕ)
    → pos + 2 ≤ length bytes
    → u16_at bytes pos ≡ ok (be16 (get_or bytes pos 0) (get_or bytes (pos + 1) 0))
unfolding u16_at
u16_at-ok bytes pos h = ground arith

host_name-Returns : (bytes : Bytes) (p n : ℕ) → p + n ≤ length bytes → Returns (host_name bytes p n)
unfolding host_name
host_name-Returns bytes p n h = (ground arith, ground arith)

sniff_entry-Returns :
    (bytes : Bytes) (p e t n : ℕ) (rest : ℕ → Outcome Miss (Option Bytes))
    → e ≤ length bytes
    → (p + n ≤ e → Returns (rest (p + n)))
    → Returns (sniff_entry bytes p e t n rest)
unfolding sniff_entry
sniff_entry-Returns bytes p e t n rest h k = elim (Bool-cases (ltb e (p + n))) [
  | inl over ↦ (ground arith, ground arith)
  | inr fits ↦
      let r = k (ground arith) in
      let hn = host_name-Returns bytes p n (ground arith) in
      (ground (arith, r.0, hn.0), ground (arith, r.1, hn.1))
]

sniff_names-Returns :
    (fuel : ℕ) (bytes : Bytes) (e p : ℕ)
    → e ≤ length bytes
    → e - p < fuel
    → Returns (sniff_names fuel bytes e p)
unfolding sniff_names
sniff_names-Returns zero bytes e p h k = absurd (omega arith)
sniff_names-Returns (suc fuel) bytes e p h k = elim (Bool-cases (leb (p + 3) e)) [
  | inl more ↦
      let r =
        sniff_entry-Returns bytes (p + 3) e (get_or bytes p 0)
          (be16 (get_or bytes (p + 1) 0) (get_or bytes (p + 1 + 1) 0)) (sniff_names fuel bytes e) h
          (λ inside. sniff_names-Returns fuel bytes e _ h (ground arith)) in
      let u = u16_at-ok bytes (p + 1) (ground arith) in
      (ground (arith, r.0, u), ground (arith, r.1, u))
  | inr done ↦ (ground arith, ground arith)
]

found_or-Returns :
    (rest : Outcome Miss Bytes) (o : Option Bytes) → Returns rest → Returns (found_or rest o)
unfolding found_or
found_or-Returns rest none h = h
found_or-Returns rest (some name) h = (ground arith, ground arith)

bind-Returns {ℓ κ} :
    {A : Type ℓ} {B : Type κ} (m : Outcome Miss A) (f : A → Outcome Miss B)
    → Returns m
    → ((a : A) → Returns (f a))
    → Returns (m >>= f)
bind-Returns (ok a) f h k = k a
bind-Returns (err absent) f h k = ((λ p. cc), (λ p. cc))
bind-Returns (err out_of_fuel) f h k = absurd (h.1 refl)
bind-Returns panic f h k = absurd (h.0 refl)

sniff_server_name-Returns :
    (bytes : Bytes) (pos len : ℕ) (rest : Outcome Miss Bytes)
    → pos + len ≤ length bytes
    → Returns rest
    → Returns (sniff_server_name bytes pos len rest)
unfolding sniff_server_name
sniff_server_name-Returns bytes pos len rest h k = elim (Bool-cases (ltb len 2)) [
  | inl short ↦ rw short ((λ p. cc), (λ p. cc))
  | inr enough ↦
      rw (enough, u16_at-ok bytes pos (ground arith))
        (elim (Bool-cases
          (ltb (pos + len) (pos + 2 + be16 (get_or bytes pos 0) (get_or bytes (pos + 1) 0)))) [
            | inl over ↦ rw over ((λ p. cc), (λ p. cc))
            | inr inside ↦ rw inside (
                bind-Returns _ _
                  (sniff_names-Returns (suc (length bytes)) bytes _ (pos + 2) (ground arith)
                    (ground arith))
                  (λ o. found_or-Returns rest o k))
          ])
]

sniff_extension-Returns :
    (bytes : Bytes) (e p t n : ℕ) (rest : ℕ → Outcome Miss Bytes)
    → e ≤ length bytes
    → (p + n ≤ e → Returns (rest (p + n)))
    → Returns (sniff_extension bytes e p t n rest)
unfolding sniff_extension
sniff_extension-Returns bytes e p t n rest h k = elim (Bool-cases (ltb e (p + n))) [
  | inl over ↦ rw over ((λ p. cc), (λ p. cc))
  | inr fits ↦
      let r = k (ground arith) in
      let s = sniff_server_name-Returns bytes p n (rest (p + n)) (ground arith) r in
      rw fits (ground (arith, r.0, s.0), ground (arith, r.1, s.1))
]

sniff_extensions-Returns :
    (fuel : ℕ) (bytes : Bytes) (e p : ℕ)
    → e ≤ length bytes
    → e - p < fuel
    → Returns (sniff_extensions fuel bytes e p)
unfolding sniff_extensions
sniff_extensions-Returns zero bytes e p h k = absurd (omega arith)
sniff_extensions-Returns (suc fuel) bytes e p h k = elim (Bool-cases (leb (p + 4) e)) [
  | inl more ↦
      rw (more, u16_at-ok bytes p (ground arith), u16_at-ok bytes (p + 2) (ground arith))
        (sniff_extension-Returns bytes e (p + 4) _ _ (sniff_extensions fuel bytes e) h
          (λ inside. sniff_extensions-Returns fuel bytes e _ h (ground arith)))
  | inr done ↦ rw done ((λ p. cc), (λ p. cc))
]

-- `if n < k { return None; }`
long-Returns :
    (n k : ℕ) (m : Outcome Miss Bytes)
    → (k ≤ n → Returns m)
    → Returns (guard (not (ltb n k)) absent >> m)
long-Returns n k m h = elim (Bool-cases (ltb n k)) [
  | inl short ↦ rw short ((λ p. cc), (λ p. cc))
  | inr long ↦ rw long (h (ground arith))
]

u16-Returns :
    (bytes : Bytes) (pos : ℕ) (f : ℕ → Outcome Miss Bytes)
    → pos + 2 ≤ length bytes
    → ((n : ℕ) → Returns (f n))
    → Returns (u16_at bytes pos >>= f)
u16-Returns bytes pos f h k = rw (u16_at-ok bytes pos h) (k _)

get_at-Returns : (bytes : Bytes) (pos : ℕ) → Returns (get_at bytes pos)
unfolding get_at
get_at-Returns bytes pos = (ground arith, ground arith)

sniff_suites-Returns : (bytes : Bytes) (pos : ℕ) → Returns (sniff_suites bytes pos)
unfolding sniff_suites
sniff_suites-Returns bytes pos = long-Returns (length bytes) (pos + 2) _ λ a.
    u16-Returns bytes pos _ a λ cipher_len.
      long-Returns (length bytes) (pos + (2 + cipher_len) + 1) _ λ b.
        bind-Returns _ _ (get_at-Returns bytes _) λ comp_len.
          long-Returns (length bytes) (pos + (2 + cipher_len) + (1 + comp_len) + 2) _ λ c.
            u16-Returns bytes (pos + (2 + cipher_len) + (1 + comp_len)) _ c λ ext_len.
              long-Returns (length bytes) (pos + (2 + cipher_len) + (1 + comp_len) + 2 + ext_len) _
                λ d. sniff_extensions-Returns (suc (length bytes)) bytes _ _ d (omega arith)

-- Whatever the bytes, the sniffer returns: it indexes and slices within the data, and both loops end.
pub sniff_tls_sni-Returns :
    (bytes : Bytes) → (sniff_tls_sni bytes ≢ panic) × (sniff_tls_sni bytes ≢ err out_of_fuel)
unfolding sniff_tls_sni get_at
sniff_tls_sni-Returns bytes =
    let s = sniff_suites-Returns bytes (43 + (1 + get_or bytes 43 0)) in
    (ground (arith, s.0), ground (arith, s.1))
