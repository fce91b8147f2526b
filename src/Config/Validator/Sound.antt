-- ===== src/Config/Validator/Sound.antt =====
-- src/config/validator.rs, against what a valid configuration is.
use xray_lite.Prelude.{
  ℕ, suc, Bool, true, false, not, List, [], ◌∷◌, Option, none, some, ◌==◌, ◌≡◌, ◌≢◌, ◌↔◌, All,
  arith, refl,
}
use xray_lite.Prelude.Outcome.{Outcome, ok, err, panic, ◌>>◌, guard}
use xray_lite.Prelude.Bytes.{Bytes}
use xray_lite.Config.{Config, Inbound, Client, RealitySettings, XhttpSettings}
use xray_lite.Config.Validator.{
  ConfigError, validate_reality_settings, validate_xhttp_settings, validate_clients,
  validate_inbound, validate_inbounds, validate, if_some, is_some, is_empty,
}

abbrev pub IsReality : Option RealitySettings → Type 0
IsReality none = Unit {0}
IsReality (some r) = (r.dest ≢ []) × ((r.server_names ≢ []) × (r.private_key ≢ []))

abbrev pub IsXhttp : Option XhttpSettings → Type 0
IsXhttp none = Unit {0}
IsXhttp (some x) = x.path ≢ []

-- A guarded step succeeds just if the test holds and the rest succeeds.
guard_iff {ℓ} :
    {P Q : Type ℓ} (b : Bool) (e : ConfigError) (m : Outcome ConfigError (Unit {0}))
    → ((b ≡ true) ↔ P)
    → ((m ≡ ok tt) ↔ Q)
    → ((guard b e >> m) ≡ ok tt) ↔ (P × Q)
guard_iff true e m f g = (λ h. (f.0 refl, g.0 h), λ h. g.1 h.1)
guard_iff false e m f g = (λ h. absurd (ground arith), λ h. absurd (ground (arith, f.1 h.0)))

then_iff {ℓ} :
    {P Q : Type ℓ} (n m : Outcome ConfigError (Unit {0}))
    → ((n ≡ ok tt) ↔ P)
    → ((m ≡ ok tt) ↔ Q)
    → ((n >> m) ≡ ok tt) ↔ (P × Q)
then_iff (ok tt) m f g = (λ h. (f.0 refl, g.0 h), λ h. g.1 h.1)
then_iff (err e) m f g = (λ h. absurd (ground arith), λ h. absurd (ground (arith, f.1 h.0)))
then_iff panic m f g = (λ h. absurd (ground arith), λ h. absurd (ground (arith, f.1 h.0)))

last_iff {ℓ} :
    {P : Type ℓ} (b : Bool) (e : ConfigError) → ((b ≡ true) ↔ P) → (guard b e ≡ ok tt) ↔ P
last_iff true e f = (λ h. f.0 refl, λ h. refl)
last_iff false e f = (λ h. absurd (ground arith), λ h. absurd (ground (arith, f.1 h)))

filled_iff {ℓ} : {A : Type ℓ} (xs : List A) → (not (is_empty xs) ≡ true) ↔ (xs ≢ [])
filled_iff [] = (λ h. absurd (ground arith), λ h. absurd (h refl))
filled_iff (x ∷ xs) = (λ h p. cc, λ h. refl)

settings_iff :
    (r : Option RealitySettings) (idx : ℕ)
    → (if_some validate_reality_settings r idx ≡ ok tt) ↔ IsReality r
unfolding validate_reality_settings
settings_iff none idx = (λ h. tt, λ h. refl)
settings_iff (some r) idx =
    guard_iff _ _ _ (filled_iff r.dest)
      (guard_iff _ _ _ (filled_iff r.server_names) (last_iff _ _ (filled_iff r.private_key)))

path_iff :
    (x : Option XhttpSettings) (idx : ℕ)
    → (if_some validate_xhttp_settings x idx ≡ ok tt) ↔ IsXhttp x
unfolding validate_xhttp_settings
path_iff none idx = (λ h. tt, λ h. refl)
path_iff (some x) idx = last_iff _ _ (filled_iff x.path)

port_iff : (n : ℕ) → (not (n == 0) ≡ true) ↔ (n ≢ 0)
port_iff n = (λ h p. ground arith, λ h. ground arith)

module _ (parse_str : Bytes → Option Bytes) where
  -- A client with a UUID, and an inbound that may be served: a port, such clients, complete settings.
  abbrev pub IsClient : Client → Type 0
  IsClient c = is_some (parse_str c.id) ≡ true

  abbrev pub IsInbound : Inbound → Type 0
  IsInbound i =
      (i.port ≢ 0)
      × (All IsClient i.settings.clients
          × (IsReality i.stream_settings.reality_settings
              × IsXhttp i.stream_settings.xhttp_settings))

  clients_iff :
      (idx k : ℕ) (cs : List Client)
      → (validate_clients parse_str idx k cs ≡ ok tt) ↔ All IsClient cs
  unfolding validate_clients
  clients_iff idx k [] = (λ h. tt, λ h. refl)
  clients_iff idx k (c ∷ cs) = guard_iff _ _ _ (λ h. h, λ h. h) (clients_iff idx (suc k) cs)

  inbound_iff : (i : Inbound) (idx : ℕ) → (validate_inbound parse_str i idx ≡ ok tt) ↔ IsInbound i
  unfolding validate_inbound
  inbound_iff i idx = guard_iff _ _ _ (port_iff i.port) (
      then_iff _ _ (clients_iff idx 0 i.settings.clients) (
        then_iff _ _ (settings_iff i.stream_settings.reality_settings idx)
          (path_iff i.stream_settings.xhttp_settings idx)))

  inbounds_iff :
      (idx : ℕ) (is : List Inbound)
      → (validate_inbounds parse_str idx is ≡ ok tt) ↔ All IsInbound is
  unfolding validate_inbounds
  inbounds_iff idx [] = (λ h. tt, λ h. refl)
  inbounds_iff idx (i ∷ is) = then_iff _ _ (inbound_iff i idx) (inbounds_iff (suc idx) is)

  -- A configuration passes exactly if it has inbounds and outbounds and every inbound may be served:
  -- a port, client ids that `Uuid::parse_str` reads, and complete Reality and XHTTP settings.
  pub validate_iff :
      {Value : Type 0} (config : Config Value)
      → (validate parse_str config ≡ ok tt)
        ↔ ((config.inbounds ≢ []) × (All IsInbound config.inbounds × (config.outbounds ≢ [])))
  unfolding validate
  validate_iff config =
      guard_iff _ _ _ (filled_iff config.inbounds)
        (then_iff _ _ (inbounds_iff 0 config.inbounds) (last_iff _ _ (filled_iff config.outbounds)))
