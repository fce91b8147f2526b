-- ===== src/Reality/Accept/Verified.antt =====
-- src/transport/reality/server_rustls.rs: which clients are served.
use xray_lite.Prelude.{
  ℕ, ◌-◌, ◌≤◌, ◌≡◌, ◌⊎◌, refl, subst, take_all, length-drop, true, Option, none, some, List, [],
  ◌∷◌, length, take, drop, get_or, ltb, if◌then◌else◌, ◌==◌, arith, Bool-cases, Option-cases, inl,
  inr,
}
use xray_lite.Prelude.Outcome.{Outcome, ok, err, panic, ◌>>=◌, >>=-eq-ok}
use xray_lite.Prelude.Bytes.{Bytes, bytes_eq, bytes_eq_iff}
use xray_lite.Reality.HelloParser.{ClientHelloInfo, HelloError, parse_client_hello}
use xray_lite.Reality.Accept.{
  Refusal, RealityServerRustls, match_short_id, aad_of, verify_key, verify_client_reality,
  sni_valid, serve, by_hello, decide, hkdf_info, by_check, handshake_of,
}

-- Membership in the configured list.
abbrev pub Elem : Bytes → List Bytes → Type 0
Elem x [] = ⊥
Elem x (y ∷ ys) = (y ≡ x) ⊎ Elem x ys

offset_of : (o n : ℕ) → ◌≡◌ {A = Outcome Refusal ℕ} (ok n) (ok o) → o ≡ n
offset_of o n e = ground arith

match_short_id_sound :
    (ids : List Bytes) (buf : Bytes) (offset : ℕ)
    → 16 ≤ length buf
    → match_short_id ids buf ≡ ok offset
    → ((offset ≡ 4) ⊎ (offset ≡ 8)) × Elem (take 8 (drop offset buf)) ids
unfolding match_short_id
match_short_id_sound [] buf o long e = absurd (ground arith)
match_short_id_sound (i ∷ ids) buf o long e = elim (Bool-cases (bytes_eq i (take 8 (drop 4 buf)))) [
  | inl at4 ↦
      let four = offset_of o 4 (ground (arith, at4, long)) in
      (inl four, rw four (inl ((bytes_eq_iff i (take 8 (drop 4 buf))).0 at4)))
  | inr no4 ↦ elim (Bool-cases (bytes_eq i (take 8 (drop 8 buf)))) [
    | inl at8 ↦
        let eight = offset_of o 8 (ground (arith, no4, at8, long)) in
        (inr eight, rw eight (inl ((bytes_eq_iff i (take 8 (drop 8 buf))).0 at8)))
    | inr no8 ↦
        let (where_, found) =
          match_short_id_sound ids buf o long (ground (arith, no4, no8, long)) in
        (where_, inr found)
  ]
]

offset_and_key :
    (m : Outcome Refusal ℕ) (k : Bytes) (offset : ℕ) (key : Bytes)
    → ◌>>=◌ {B = ℕ × Bytes} m (λ offset. ok (offset, k)) ≡ ok (offset, key)
    → (m ≡ ok offset) × (k ≡ key)
offset_and_key (ok o) k offset key e = (ground arith, ground arith)
offset_and_key (err x) k offset key e = absurd (ground arith)
offset_and_key panic k offset key e = absurd (ground arith)

-- What a client that is let in has shown.
pub record IsVerified (diffie_hellman : Bytes → Bytes → Bytes)
    (hkdf : Bytes → Bytes → Bytes → Option Bytes)
    (decrypt_in_place : Bytes → Bytes → Bytes → Bytes → Option Bytes) (server : RealityServerRustls)
    (info : ClientHelloInfo) (hello : Bytes) (offset : ℕ) (key : Bytes) : Type 0 where
  pub session_id : length info.session_id ≡ 32
  pub share : Bytes
  pub shared : info.public_key ≡ some share
  pub derived :
      hkdf (take 20 info.client_random) (diffie_hellman server.private_key share) hkdf_info
      ≡ some key
  pub plain : Bytes
  pub opened :
      decrypt_in_place key
        (take 12 (drop 20 info.client_random))
        (aad_of info.session_id (if get_or hello 0 0 == 0x16 then drop 5 hello else hello))
        info.session_id
      ≡ some plain
  pub long : 16 ≤ length plain
  pub at : (offset ≡ 4) ⊎ (offset ≡ 8)
  pub known : Elem (take 8 (drop offset plain)) server.short_ids

take_rest : (n : ℕ) (xs : Bytes) → take (length xs - n) (drop n xs) ≡ drop n xs
take_rest n xs = take_all (length xs - n) (drop n xs) (omega (arith, length-drop {0} n xs))

-- The message is the ClientHello without the header of its record.
handshake_of_sound :
    (hello message : Bytes)
    → handshake_of hello ≡ ok message
    → message ≡ (if get_or hello 0 0 == 0x16 then drop 5 hello else hello)
unfolding handshake_of
handshake_of_sound hello message e = ground (arith, e, take_rest 5 hello)

module _ (diffie_hellman : Bytes → Bytes → Bytes) (hkdf : Bytes → Bytes → Bytes → Option Bytes)
    (decrypt_in_place : Bytes → Bytes → Bytes → Bytes → Option Bytes) where
  verify_key_sound :
      (server : RealityServerRustls) (info : ClientHelloInfo) (message share : Bytes) (offset : ℕ)
      (key : Bytes)
      → verify_key diffie_hellman hkdf decrypt_in_place server info message share ≡ ok (offset, key)
      → (hkdf (take 20 info.client_random) (diffie_hellman server.private_key share) hkdf_info
          ≡ some key)
        × (plain : Bytes) × (decrypt_in_place key
              (take 12 (drop 20 info.client_random))
              (aad_of info.session_id message)
              info.session_id
            ≡ some plain)
        × (16 ≤ length plain)
        × (match_short_id server.short_ids plain ≡ ok offset)
  unfolding verify_key
  verify_key_sound server info message share offset key e =
      elim (Option-cases
        (hkdf (take 20 info.client_random) (diffie_hellman server.private_key share) hkdf_info)) [
          | inl failed ↦ absurd (ground (arith, failed))
          | inr (k, made) ↦
              elim (Option-cases (
                decrypt_in_place k (take 12 (drop 20 info.client_random))
                  (aad_of info.session_id message) info.session_id)) [
                    | inl bad ↦ absurd (ground (arith, made, bad))
                    | inr (plain, opened) ↦ elim (Bool-cases (ltb (length plain) 16)) [
                      | inl short ↦ absurd (ground (arith, made, opened, short))
                      | inr long ↦
                          let (found, same) =
                            offset_and_key (match_short_id server.short_ids plain) k offset key
                              (ground (arith, made, opened, long)) in
                          (
                            ground (arith, made, same),
                            plain,
                            ground (arith, opened, same),
                            ground (arith, long),
                            found,
                          )
                    ]
                  ]
        ]

  verify_sound :
      (server : RealityServerRustls) (info : ClientHelloInfo) (hello : Bytes) (offset : ℕ)
      (key : Bytes)
      → verify_client_reality diffie_hellman hkdf decrypt_in_place server info hello
        ≡ ok (offset, key)
      → IsVerified diffie_hellman hkdf decrypt_in_place server info hello offset key
  unfolding verify_client_reality
  verify_sound server info hello offset key e = elim (Option-cases info.public_key) [
    | inl missing ↦ absurd (ground (arith, missing))
    | inr (share, there) ↦
        let (message, made, checked) =
          >>=-eq-ok (handshake_of hello)
            (λ m. verify_key diffie_hellman hkdf decrypt_in_place server info m share)
            (ground (arith, there)) in
        let (derived, plain, opened, long, found) =
          verify_key_sound server info (if get_or hello 0 0 == 0x16 then drop 5 hello else hello)
            share offset key
            (subst
              (λ (m : Bytes).
                verify_key diffie_hellman hkdf decrypt_in_place server info m share
                ≡ ok (offset, key))
              (handshake_of_sound hello message made) checked) in
        let (where_, known) = match_short_id_sound server.short_ids plain offset long found in
        record {
          session_id = ground (arith, there);
          share = share;
          shared = there;
          derived = derived;
          plain = plain;
          opened = opened;
          long = long;
          at = where_;
          known = known;
        }
  ]

  by_check_serve :
      (o : Outcome Refusal (ℕ × Bytes)) (offset : ℕ) (key : Bytes)
      → by_check o ≡ serve offset key
      → o ≡ ok (offset, key)
  by_check_serve (ok (a, b)) offset key e = ground arith
  by_check_serve (err x) offset key e = absurd (ground arith)
  by_check_serve panic offset key e = absurd (ground arith)

  by_hello_serve :
      (server : RealityServerRustls) (buffer : Bytes)
      (o : Outcome HelloError (Option ClientHelloInfo)) (offset : ℕ) (key : Bytes)
      → by_hello diffie_hellman hkdf decrypt_in_place server buffer o ≡ serve offset key
      → (info : ClientHelloInfo) × (o ≡ ok (some info))
        × (sni_valid server.server_names info.server_name ≡ true)
        × IsVerified diffie_hellman hkdf decrypt_in_place server info buffer offset key
  unfolding by_hello
  by_hello_serve server buffer (ok (some info)) offset key e =
      elim (Bool-cases (sni_valid server.server_names info.server_name)) [
        | inl valid ↦ (
          info,
          refl,
          valid,
          verify_sound server info buffer offset key
              (by_check_serve _ offset key (ground (arith, valid))),
        )
        | inr other ↦ absurd (ground (arith, other))
      ]
  by_hello_serve server buffer (ok none) offset key e = absurd (ground arith)
  by_hello_serve server buffer (err x) offset key e = absurd (ground arith)
  by_hello_serve server buffer panic offset key e = absurd (ground arith)

  -- TLS is served only to a client whose ClientHello parsed, whose server name is allowed, and whose
  -- session id, opened under the key derived from its key share, holds a short id of the server.
  pub decide_serves :
      (server : RealityServerRustls) (buffer : Bytes) (offset : ℕ) (key : Bytes)
      → decide diffie_hellman hkdf decrypt_in_place server buffer ≡ serve offset key
      → (info : ClientHelloInfo) × (parse_client_hello buffer ≡ ok (some info))
        × (sni_valid server.server_names info.server_name ≡ true)
        × IsVerified diffie_hellman hkdf decrypt_in_place server info buffer offset key
  unfolding decide
  decide_serves server buffer offset key e =
      by_hello_serve server buffer (parse_client_hello buffer) offset key e
