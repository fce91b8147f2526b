-- ===== src/Reality/Server/Cert.antt =====
-- src/transport/reality/server_rustls.rs: the certificates of one host.
use xray_lite.Prelude.{
  ◌-◌, ◌≤◌, ◌≡◌, refl, subst, Option-cases, Option, none, some, ◌++◌, length, take, drop, ltb,
  arith, Bool-cases, inl, inr, length-append, length-take, take-append_at, drop-append_at,
}
use xray_lite.Prelude.Outcome.{Outcome, ok, >>=-eq-ok}
use xray_lite.Prelude.Bytes.{Bytes}
use xray_lite.Reality.Server.{Template, CertError, template_for, overwrite, generate_reality_cert}

module _ {Cache : Type 0} (cache_get : Cache → Bytes → Option Template × Cache)
    (cache_put : Cache → Bytes → Template → Cache) (generate : Bytes → Option Template)
    (sign : Bytes → Bytes → Bytes) where
  -- What a cache does for one host: what was stored or found last is found again.
  pub record Keeps (host : Bytes) : Type 0 where
    pub stored : (c : Cache) (t : Template) → (cache_get (cache_put c host t) host).0 ≡ some t
    pub found :
        (c : Cache) (t : Template)
        → (cache_get c host).0 ≡ some t
        → (cache_get (cache_get c host).1 host).0 ≡ some t

  -- A certificate of this template for this key.
  pub record Shows (t : Template) (auth_key : Bytes) (shown : Bytes × Bytes) : Type 0 where
    pub long : 64 ≤ length t.cert_der
    pub same_length : length shown.0 ≡ length t.cert_der
    pub same_body : take (length t.cert_der - 64) shown.0 ≡ take (length t.cert_der - 64) t.cert_der
    pub signed : drop (length t.cert_der - 64) shown.0 ≡ sign auth_key t.pub_key_raw
    pub same_key : shown.1 ≡ t.priv_key_der

  overwrite-Shows :
      ((key message : Bytes) → length (sign key message) ≡ 64)
      → (auth_key : Bytes) (t : Template) → 64 ≤ length t.cert_der
      → (shown : Bytes × Bytes) × (overwrite cache_get cache_put generate sign auth_key t
          ≡ ok shown)
        × Shows t auth_key shown
  unfolding overwrite
  overwrite-Shows tag auth_key t long =
      let n = length t.cert_der - 64 in
      let body = take n t.cert_der in
      let signature = sign auth_key t.pub_key_raw in
      let size : length body ≡ n = omega (arith, length-take {0} n t.cert_der) in
      (
        (body ++ signature, t.priv_key_der),
        ground (arith, tag auth_key t.pub_key_raw, long),
        record {
          long = long;
          same_length =
              omega (arith, length-append {0} body signature, size, tag auth_key t.pub_key_raw);
          same_body = take-append_at n body signature size;
          signed = drop-append_at n body signature size;
          same_key = refl;
        },
      )

  overwrite_long :
      (auth_key : Bytes) (t : Template) (shown : Bytes × Bytes)
      → overwrite cache_get cache_put generate sign auth_key t ≡ ok shown
      → 64 ≤ length t.cert_der
  unfolding overwrite
  overwrite_long auth_key t shown e = elim (Bool-cases (ltb (length t.cert_der) 64)) [
    | inl short ↦ absurd (ground (arith, short, e))
    | inr long ↦ ground (arith, long)
  ]

  abbrev template_of : Cache → Bytes → Outcome CertError Template × Cache
  template_of c host = template_for cache_get cache_put generate sign host (cache_get c host)

  template_kept :
      (host : Bytes) (c c' : Cache) (o : Option Template) (t : Template)
      → Keeps host
      → cache_get c host ≡ (o, c')
      → (template_for cache_get cache_put generate sign host (o, c')).0 ≡ ok t
      → (cache_get (template_for cache_get cache_put generate sign host (o, c')).1 host).0 ≡ some t
  unfolding template_for
  template_kept host c c' (some t') t keeps e h =
      let again = keeps.found c t (ground (arith, e, h)) in ground (arith, again, e)
  template_kept host c c' none t keeps e h = elim (Option-cases (generate host)) [
    | inl failed ↦ absurd (ground (arith, failed, h))
    | inr (made, e') ↦ ground (arith, e', h, keeps.stored c' made)
  ]

  template_hit :
      (host : Bytes) (o : Option Template × Cache) (t : Template)
      → o.0 ≡ some t
      → (template_for cache_get cache_put generate sign host o).0 ≡ ok t
  unfolding template_for
  template_hit host (some t', c) t h = ground (arith, h)
  template_hit host (none, c) t h = absurd (ground (arith, h))

  abbrev certificate : Cache → Bytes → Bytes → Outcome CertError (Bytes × Bytes) × Cache
  certificate = generate_reality_cert cache_get cache_put generate sign

  -- Once a certificate was made for a host, the next one for that host succeeds under any key, and
  -- is of the same template: the same private key, the same bytes but the last 64, which are the
  -- HMAC of the template's public key under the key of the connection. The cache keeps what it
  -- stored or found last for the host, and the HMAC has 64 bytes.
  pub generate_reality_cert_again :
      (c : Cache) (host first_key second_key : Bytes) (first : Bytes × Bytes)
      → Keeps host
      → ((key message : Bytes) → length (sign key message) ≡ 64)
      → (certificate c first_key host).0 ≡ ok first
      → (t : Template) × Shows t first_key first
        × ((second : Bytes × Bytes) × ((certificate
                (certificate c first_key host).1
                second_key
                host).0
              ≡ ok second)
            × Shows t second_key second)
  unfolding generate_reality_cert
  generate_reality_cert_again c host k1 k2 first keeps tag e =
      let (t, found, made) =
        >>=-eq-ok (template_of c host).0 (overwrite cache_get cache_put generate sign k1) e in
      let long = overwrite_long k1 t first made in
      let (shown, made', shows) = overwrite-Shows tag k1 t long in
      let kept =
        template_kept host c (cache_get c host).1 (cache_get c host).0 t keeps refl found in
      let hit = template_hit host (cache_get (template_of c host).1 host) t kept in
      let (second, last, shows') = overwrite-Shows tag k2 t long in
      (t, subst (Shows t k1) (ground (arith, made, made')) shows, (second, rw hit last, shows'))
