-- ===== src/Reality/CertFetch/Asks.antt =====
-- src/transport/reality/cert_fetch.rs: the search for a certificate.
use xray_lite.Prelude.{
  ℕ, zero, suc, ◌+◌, ◌-◌, ◌<◌, ◌≡◌, ◌≢◌, refl, ◌++◌, length, take, drop, get_or, ltb, arith,
  Bool-cases, inl, inr, ◌⊎◌, subst, take-append-drop,
}
use xray_lite.Prelude.Bytes.{Bytes, be16}
use xray_lite.Reality.CertFetch.{
  Search, certificate, out_of_fuel, certificate_or, search, extract_certificate_from_response,
}

search_ends :
    (fuel : ℕ) (bytes : Bytes) (pos : ℕ)
    → length bytes - pos < fuel
    → search fuel bytes pos ≢ out_of_fuel
unfolding search certificate_or
search_ends zero bytes pos h = absurd (omega arith)
search_ends (suc fuel) bytes pos h = elim (Bool-cases (ltb (pos + 5) (length bytes))) [
  | inl more ↦ ground (
    arith,
    search_ends fuel bytes (pos + (5 + be16 (get_or bytes (pos + 3) 0) (get_or bytes (pos + 4) 0)))
        (ground (arith, more)),
  )
  | inr done ↦ ground (arith, done)
]

-- A run of bytes inside an answer.
abbrev pub IsPart : Bytes → Bytes → Type 0
IsPart part whole = (front : Bytes) × (back : Bytes) × (front ++ (part ++ back) ≡ whole)

cut_IsPart : (pos n : ℕ) (bytes : Bytes) → IsPart (take n (drop pos bytes)) bytes
cut_IsPart pos n bytes = (
  take pos bytes,
  drop n (drop pos bytes),
  rw (take-append-drop n (drop pos bytes), take-append-drop pos bytes) refl,
)

certificate_or_sound :
    (t : ℕ) (payload found : Bytes) (rest : Search)
    → certificate_or t payload rest ≡ certificate found
    → ((payload ≡ found) × (0 < length payload) × (get_or payload 0 0 ≡ 11))
      ⊎ (rest ≡ certificate found)
unfolding certificate_or
certificate_or_sound t payload found rest e = ground arith

search_sound :
    (fuel : ℕ) (bytes : Bytes) (pos : ℕ) (found : Bytes)
    → search fuel bytes pos ≡ certificate found
    → (0 < length found) × (get_or found 0 0 ≡ 11) × IsPart found bytes
unfolding search
search_sound zero bytes pos found e = absurd (ground arith)
search_sound (suc fuel) bytes pos found e = elim (Bool-cases (ltb (pos + 5) (length bytes))) [
  | inr done ↦ absurd (ground (arith, done))
  | inl more ↦
      elim (Bool-cases (
        ltb (length bytes)
          (pos + 5 + be16 (get_or bytes (pos + 3) 0) (get_or bytes (pos + 4) 0)))) [
            | inl cut ↦ absurd (ground (arith, more, cut))
            | inr whole ↦
                elim (certificate_or_sound (get_or bytes pos 0)
                  (take (be16 (get_or bytes (pos + 3) 0) (get_or bytes (pos + 4) 0))
                    (drop (pos + 5) bytes))
                  found
                  (search fuel bytes
                    (pos + (5 + be16 (get_or bytes (pos + 3) 0) (get_or bytes (pos + 4) 0))))
                  (ground (arith, more, whole))) [
                    | inl (here, filled, typed) ↦ (
                      ground (arith, here, filled),
                      ground (arith, here, typed),
                      subst (λ p. IsPart p bytes) here
                          (cut_IsPart (pos + 5)
                            (be16 (get_or bytes (pos + 3) 0) (get_or bytes (pos + 4) 0)) bytes),
                    )
                    | inr later ↦ search_sound fuel bytes _ found later
                  ]
          ]
]

-- Whatever the answer, the search in it ends.
pub extract_ends : (bytes : Bytes) → extract_certificate_from_response bytes ≢ out_of_fuel
unfolding extract_certificate_from_response
extract_ends bytes = search_ends (suc (length bytes)) bytes 0 (omega arith)

-- What the search finds is part of the answer and starts with the type of a Certificate message.
pub extract_sound :
    (bytes found : Bytes)
    → extract_certificate_from_response bytes ≡ certificate found
    → (0 < length found) × (get_or found 0 0 ≡ 11) × IsPart found bytes
unfolding extract_certificate_from_response
extract_sound bytes found e = search_sound (suc (length bytes)) bytes 0 found e
