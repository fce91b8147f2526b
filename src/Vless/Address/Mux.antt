-- ===== src/Vless/Address/Mux.antt =====
-- src/protocol/vless/address.rs: the Mux marker.
use xray_lite.Prelude.{
  ℕ, zero, suc, ◌<◌, ◌≡◌, refl, [], ◌∷◌, ◌++◌, length, length-take, take-append-drop, take, arith,
  All, inl, inr, true, subst, ◌⊎◌,
}
use xray_lite.Prelude.Outcome.{ok}
use xray_lite.Prelude.Bytes.{Bytes, IsByte, be16}
use xray_lite.Prelude.Read.{Read, get_u8, get_u16, take_bytes}
use xray_lite.Prelude.Utf8.{is_utf8}
use xray_lite.Vless.Error.{VlessError}
use xray_lite.Vless.Address.{
  Address, ipv4, ipv6, domain, decode_ipv4, decode_domain, decode_ipv6, decode_mux, decode_type,
  decode_fuel, decode, encode, IsValid,
}

decode_type_agree :
    (t p x : ℕ) (m k : Read VlessError Address) (s : Bytes)
    → m s ≡ k s
    → decode_type t p m (x ∷ s) ≡ decode_type t p k (x ∷ s)
unfolding decode_type decode_mux get_u8
decode_type_agree t p x m k s h = ground arith

decode_type_nil :
    (t p : ℕ) (m k : Read VlessError Address) → decode_type t p m [] ≡ decode_type t p k []
unfolding decode_type decode_mux
decode_type_nil t p m k = ground arith

-- Any two fuels above the length of the buffer give one result.
decode_fuel_agree :
    (f g : ℕ) (s : Bytes) → length s < f → length s < g → decode_fuel f s ≡ decode_fuel g s
unfolding decode_fuel get_u8 get_u16
decode_fuel_agree zero g s hf hg = absurd (omega arith)
decode_fuel_agree (suc f) zero s hf hg = absurd (omega arith)
decode_fuel_agree (suc f) (suc g) [] hf hg = ground arith
decode_fuel_agree (suc f) (suc g) (a ∷ []) hf hg = ground arith
decode_fuel_agree (suc f) (suc g) (a ∷ b ∷ []) hf hg = ground arith
decode_fuel_agree (suc f) (suc g) (a ∷ b ∷ t ∷ []) hf hg =
    ground (arith, decode_type_nil t (be16 a b) (decode_fuel f) (decode_fuel g))
decode_fuel_agree (suc f) (suc g) (a ∷ b ∷ t ∷ x ∷ s) hf hg = ground (
  arith,
  decode_type_agree t (be16 a b) x (decode_fuel f) (decode_fuel g) s
      (decode_fuel_agree f g s (omega arith) (omega arith)),
)

-- A port, the Mux marker 0 and a session id in front change nothing: `decode` skips them.
pub decode_mux_skips : (p q sid : ℕ) (s : Bytes) → decode (p ∷ q ∷ 0x00 ∷ sid ∷ s) ≡ decode s
unfolding decode
decode_mux_skips p q sid s =
    ground (arith, decode_fuel_agree (suc (suc (suc (suc (length s))))) (suc (length s)) s)

-- `Wraps s t`: `s` is `t` behind any number of Mux markers.
pub data Wraps : Bytes → Bytes → Type 0 where
  bare : (s : Bytes) → Wraps s s
  mux : (p q sid : ℕ) {s t : Bytes} → Wraps s t → Wraps (p ∷ q ∷ 0x00 ∷ sid ∷ s) t

take_bytes-eq-ok :
    (n : ℕ) (s xs r : Bytes)
    → take_bytes {E = VlessError} n s ≡ (ok xs, r)
    → (length xs ≡ n) × (s ≡ xs ++ r)
unfolding take_bytes
take_bytes-eq-ok n s xs r e = ground (arith, length-take {0} n s, take-append-drop {0} n s)

bare_eq : (s t : Bytes) → s ≡ t → Wraps s t
bare_eq s t e = rw e (bare t)

decode_ipv4_sound :
    (p : ℕ) (s : Bytes) (a : Address) (r : Bytes)
    → decode_ipv4 p s ≡ (ok a, r)
    → (ip : Bytes) × (a ≡ ipv4 ip p) × (length ip ≡ 4) × (s ≡ ip ++ r)
unfolding decode_ipv4 take_bytes
decode_ipv4_sound p s a r e = (
  take 4 s,
  ground arith,
  ground (arith, length-take {0} 4 s),
  ground (arith, take-append-drop {0} 4 s),
)

decode_ipv6_sound :
    (p : ℕ) (s : Bytes) (a : Address) (r : Bytes)
    → decode_ipv6 p s ≡ (ok a, r)
    → (ip : Bytes) × (a ≡ ipv6 ip p) × (length ip ≡ 16) × (s ≡ ip ++ r)
unfolding decode_ipv6 take_bytes
decode_ipv6_sound p s a r e = (
  take 16 s,
  ground arith,
  ground (arith, length-take {0} 16 s),
  ground (arith, take-append-drop {0} 16 s),
)

decode_domain_sound :
    (p : ℕ) (s : Bytes) (a : Address) (r : Bytes)
    → All IsByte s
    → decode_domain p s ≡ (ok a, r)
    → (name : Bytes) × (a ≡ domain name p)
      × (length name < 256)
      × (is_utf8 name ≡ true)
      × (s ≡ length name ∷ name ++ r)
unfolding decode_domain take_bytes get_u8
decode_domain_sound p [] a r h e = absurd (ground arith)
decode_domain_sound p (n ∷ s) a r h e = (
  take n s,
  ground arith,
  ground (arith, length-take {0} n s),
  ground arith,
  ground (arith, take-append-drop {0} n s, length-take {0} n s),
)

-- An encoding behind no marker, put together from what a branch read.
bare_ipv4 :
    (x y t : ℕ) (s r : Bytes) {a : Address}
    → IsByte x
    → IsByte y
    → t ≡ 1
    → (ip : Bytes) × (a ≡ ipv4 ip (be16 x y)) × (length ip ≡ 4) × (s ≡ ip ++ r)
    → IsValid a × Wraps (x ∷ y ∷ t ∷ s) (encode a ++ r)
unfolding encode
bare_ipv4 x y t s r hx hy ht (ip, ha, len, hs) =
    rw ha ((len, omega arith), bare_eq _ _ (ground arith))

bare_ipv6 :
    (x y t : ℕ) (s r : Bytes) {a : Address}
    → IsByte x
    → IsByte y
    → t ≡ 3
    → (ip : Bytes) × (a ≡ ipv6 ip (be16 x y)) × (length ip ≡ 16) × (s ≡ ip ++ r)
    → IsValid a × Wraps (x ∷ y ∷ t ∷ s) (encode a ++ r)
unfolding encode
bare_ipv6 x y t s r hx hy ht (ip, ha, len, hs) =
    rw ha ((len, omega arith), bare_eq _ _ (ground arith))

bare_domain :
    (x y t : ℕ) (s r : Bytes) {a : Address}
    → IsByte x
    → IsByte y
    → t ≡ 2
    → (name : Bytes) × (a ≡ domain name (be16 x y))
      × (length name < 256)
      × (is_utf8 name ≡ true)
      × (s ≡ length name ∷ name ++ r)
    → IsValid a × Wraps (x ∷ y ∷ t ∷ s) (encode a ++ r)
unfolding encode
bare_domain x y t s r hx hy ht (name, ha, len, text, hs) =
    rw ha ((len, text, omega arith), bare_eq _ _ (ground arith))

-- The cases of `match addr_type` that succeed.
decode_type_cases :
    (t p : ℕ) (m : Read VlessError Address) (s : Bytes) {a : Address} {r : Bytes}
    → decode_type t p m s ≡ (ok a, r)
    → ((t ≡ 1) × (decode_ipv4 p s ≡ (ok a, r)))
      ⊎ ((t ≡ 2) × (decode_domain p s ≡ (ok a, r)))
      ⊎ ((t ≡ 3) × (decode_ipv6 p s ≡ (ok a, r)))
      ⊎ ((t ≡ 0) × (decode_mux m s ≡ (ok a, r)))
unfolding decode_type
decode_type_cases t p m s e = ground arith

decode_mux_sound :
    (m : Read VlessError Address) (s : Bytes) {a : Address} {r : Bytes}
    → decode_mux m s ≡ (ok a, r)
    → (sid : ℕ) × (s' : Bytes) × (s ≡ sid ∷ s') × (m s' ≡ (ok a, r))
unfolding decode_mux get_u8
decode_mux_sound m [] e = absurd (ground arith)
decode_mux_sound m (sid ∷ s) e = (sid, s, refl, ground arith)

behind_mux :
    (x y t : ℕ) (s : Bytes) {a : Address} {r : Bytes} (m : Read VlessError Address)
    → ((s' : Bytes) → All IsByte s' → m s' ≡ (ok a, r) → IsValid a × Wraps s' (encode a ++ r))
    → All IsByte s
    → t ≡ 0
    → ((sid : ℕ) × (s' : Bytes) × (s ≡ sid ∷ s') × (m s' ≡ (ok a, r)))
    → IsValid a × Wraps (x ∷ y ∷ t ∷ s) (encode a ++ r)
behind_mux x y t s {a} {r} m ih h ht (sid, s', hs, e) =
    let bytes : All IsByte (sid ∷ s') = subst (All IsByte) hs h in
    let (valid, wraps) = ih s' bytes.1 e in
    (valid, subst (λ w. Wraps w (encode a ++ r)) (ground arith) (mux x y sid wraps))

decode_fuel_sound :
    (fuel : ℕ) (s : Bytes) (a : Address) (r : Bytes)
    → All IsByte s
    → decode_fuel fuel s ≡ (ok a, r)
    → IsValid a × Wraps s (encode a ++ r)
unfolding decode_fuel get_u8 get_u16
decode_fuel_sound zero s a r h e = absurd (ground arith)
decode_fuel_sound (suc fuel) [] a r h e = absurd (ground arith)
decode_fuel_sound (suc fuel) (x ∷ []) a r h e = absurd (ground arith)
decode_fuel_sound (suc fuel) (x ∷ y ∷ []) a r h e = absurd (ground arith)
decode_fuel_sound (suc fuel) (x ∷ y ∷ t ∷ s) a r (hx, (hy, (ht, hs))) e =
    elim (decode_type_cases t (be16 x y) (decode_fuel fuel) s {a = a} {r = r} (ground arith)) [
      | inl (is, k) ↦ bare_ipv4 x y t s r hx hy is (decode_ipv4_sound _ s a r k)
      | inr (inl (is, k)) ↦ bare_domain x y t s r hx hy is (decode_domain_sound _ s a r hs k)
      | inr (inr (inl (is, k))) ↦ bare_ipv6 x y t s r hx hy is (decode_ipv6_sound _ s a r k)
      | inr (inr (inr (is, k))) ↦
          behind_mux x y t s _ (λ s' h' e'. decode_fuel_sound fuel s' a r h' e') hs is
            (decode_mux_sound _ s k)
    ]

-- Whatever `decode` accepts is the encoding of a valid address behind any number of Mux markers,
-- followed by what is left in the buffer.
pub decode_sound :
    (s : Bytes) (a : Address) (r : Bytes)
    → All IsByte s
    → decode s ≡ (ok a, r)
    → IsValid a × Wraps s (encode a ++ r)
unfolding decode
decode_sound s a r h e = decode_fuel_sound (suc (length s)) s a r h e
