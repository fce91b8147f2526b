-- ===== src/Reality/Server/Made.antt =====
-- src/transport/reality/server.rs: which configurations make a server.
use xray_lite.Prelude.{
  ◌≡◌, ◌≢◌, refl, Bool, true, false, not, Option, none, some, List, [], ◌∷◌, length, ◌==◌, arith,
  Bool-cases, inl, inr,
}
use xray_lite.Prelude.Outcome.{Outcome, ok, err, panic, ◌>>=◌, ◌>>◌, guard, >>=-eq-ok}
use xray_lite.Prelude.Bytes.{Bytes}
use xray_lite.Server.{RealityConfig}
use xray_lite.Config.Validator.{is_empty}
use xray_lite.Reality.Inject
use xray_lite.Reality.Server.{
  RealityServer, RealityError, decode_short_ids, new_rustls, new, or_fail, first_some, bad_short_id,
}

-- Every short id is hex, and decodes to the bytes beside it.
abbrev pub DecodesAll : (Bytes → Option Bytes) → List Bytes → List Bytes → Type 0
DecodesAll hex [] [] = Unit {0}
DecodesAll hex [] (b ∷ bs) = ⊥
DecodesAll hex (i ∷ ids) [] = ⊥
DecodesAll hex (i ∷ ids) (b ∷ bs) = (hex i ≡ some b) × DecodesAll hex ids bs

-- What a server is made of.
pub record Makes (hex url_safe standard : Bytes → Option Bytes) (config : RealityConfig)
    (s : RealityServer) : Type 0 where
  pub dest_given : config.dest ≢ []
  pub key_given : config.private_key ≢ []
  pub decoded :
      first_some (url_safe config.private_key) (standard config.private_key)
      ≡ some s.reality_config.private_key
  pub whole_key : length s.reality_config.private_key ≡ 32
  pub ids : DecodesAll hex config.short_ids s.reality_config.short_ids
  pub target : s.reality_config.dest ≡ some config.dest
  pub verifying : s.reality_config.verify_client ≡ true
  pub names : s.server_names ≡ config.server_names

guard-eq-ok :
    {A : Type 0} (b : Bool) (x : RealityError) (m : Outcome RealityError A) {a : A}
    → guard b x >> m ≡ ok a
    → (b ≡ true) × (m ≡ ok a)
guard-eq-ok true x m e = (refl, e)
guard-eq-ok false x m e = absurd (ground arith)

or_fail-eq-ok :
    {A B : Type 0} (o : Option A) (x : RealityError) (f : A → Outcome RealityError B) {b : B}
    → or_fail x o >>= f ≡ ok b
    → (a : A) × (o ≡ some a) × (f a ≡ ok b)
or_fail-eq-ok (some a) x f e = (a, refl, e)
or_fail-eq-ok none x f e = absurd (ground arith)

filled : (xs : Bytes) → not (is_empty xs) ≡ true → xs ≢ []
filled [] h = absurd (ground arith)
filled (x ∷ xs) h = λ p. cc

module _ (hex : Bytes → Option Bytes) where
  decode_cons :
      (i : Bytes) (ids : List Bytes) (o : Option Bytes) (r : Outcome RealityError (List Bytes))
      {bs : List Bytes}
      → (or_fail bad_short_id o >>= λ b. r >>= λ others. ok (b ∷ others)) ≡ ok bs
      → (b : Bytes) × (others : List Bytes) × (o ≡ some b) × (r ≡ ok others) × (bs ≡ b ∷ others)
  decode_cons i ids (some b) (ok others) e = (b, others, refl, refl, ground (arith, e))
  decode_cons i ids (some b) (err x) e = absurd (ground arith)
  decode_cons i ids (some b) panic e = absurd (ground arith)
  decode_cons i ids none r e = absurd (ground arith)

  decode_short_ids-DecodesAll :
      (ids bs : List Bytes) → decode_short_ids hex ids ≡ ok bs → DecodesAll hex ids bs
  unfolding decode_short_ids
  decode_short_ids-DecodesAll [] [] e = tt
  decode_short_ids-DecodesAll [] (b ∷ bs) e = absurd (ground arith)
  decode_short_ids-DecodesAll (i ∷ ids) [] e =
      let (b, others, _, _, eq) = decode_cons i ids (hex i) (decode_short_ids hex ids) e in
      absurd (ground (arith, eq))
  decode_short_ids-DecodesAll (i ∷ ids) (b ∷ bs) e =
      let (b', others, found, rest, eq) = decode_cons i ids (hex i) (decode_short_ids hex ids) e in
      (ground (arith, eq, found), decode_short_ids-DecodesAll ids bs (ground (arith, eq, rest)))

  new_rustls_sound :
      (key dest : Bytes) (ids names : List Bytes) (s : RealityServer)
      → new_rustls hex key (some dest) ids names ≡ ok s
      → (decode_short_ids hex ids ≡ ok s.reality_config.short_ids)
        × (s.reality_config.private_key ≡ key)
        × (s.reality_config.dest ≡ some dest)
        × (s.reality_config.verify_client ≡ true)
        × (s.server_names ≡ names)
  unfolding new_rustls Inject.new Inject.with_dest Inject.with_short_ids Inject.with_verify_client
      Inject.validate
  new_rustls_sound key dest ids names s e =
      let (bytes, decoded, made) = >>=-eq-ok (decode_short_ids hex ids) _ e in
      elim (Bool-cases (length key == 32)) [
        | inl whole ↦ (
          ground (arith, whole, decoded, made),
          ground (arith, whole, made),
          ground (arith, whole, made),
          ground (arith, whole, made),
          ground (arith, whole, made),
        )
        | inr cut ↦ absurd (ground (arith, cut, made))
      ]

  -- A server is made only of a configuration with a destination, a key that one of the base64 decoders
  -- reads as 32 bytes, the URL-safe one first, and short ids in hex; it has that key, those ids, the
  -- server names as they are, and the destination.
  pub new_sound :
      (url_safe standard : Bytes → Option Bytes) (config : RealityConfig) (s : RealityServer)
      → new hex url_safe standard config ≡ ok s
      → Makes hex url_safe standard config s
  unfolding new
  new_sound url_safe standard config s e =
      let (has_dest, e1) = guard-eq-ok _ _ _ e in
      let (has_key, e2) = guard-eq-ok _ _ _ e1 in
      let (key, decoded, e3) = or_fail-eq-ok _ _ _ e2 in
      let (whole, e4) = guard-eq-ok _ _ _ e3 in
      let (ids, same_key, target, verifying, names) =
        new_rustls_sound key config.dest config.short_ids config.server_names s e4 in
      record {
        dest_given = filled _ has_dest;
        key_given = filled _ has_key;
        decoded = rw same_key decoded;
        whole_key = rw same_key (ground (arith, whole));
        ids = decode_short_ids-DecodesAll config.short_ids s.reality_config.short_ids ids;
        target = target;
        verifying = verifying;
        names = names;
      }
