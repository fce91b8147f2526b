-- ===== src/Server/Configured.antt =====
-- src/server.rs and src/transport/xhttp/server.rs on a configuration that src/config/validator.rs
-- accepted.
use xray_lite.Prelude.{
  ◌≡◌, sym, subst, Option-cases, inl, inr, Option, some, List, [], ◌∷◌, All, arith,
}
use xray_lite.Prelude.Outcome.{ok}
use xray_lite.Prelude.Bytes.{Bytes}
use xray_lite.Config.{Config, Inbound, Client}
use xray_lite.Config.Validator.{validate}
use xray_lite.Config.Validator.Sound.{IsClient, IsInbound, validate_iff}
use xray_lite.Server.{uuids}

module _ (parse_str : Bytes → Option Bytes) where
  -- Every client has an entry, in order: his id is read as that UUID.
  abbrev pub Reads : List Client → List Bytes → Type 0
  Reads [] [] = Unit {0}
  Reads [] (u ∷ us) = ⊥
  Reads (c ∷ cs) [] = ⊥
  Reads (c ∷ cs) (u ∷ us) = (parse_str c.id ≡ some u) × Reads cs us

  uuids_cons :
      (c : Client) (cs : List Client) (u : Bytes)
      → parse_str c.id ≡ some u
      → uuids parse_str (c ∷ cs) ≡ u ∷ uuids parse_str cs
  unfolding uuids
  uuids_cons c cs u e = ground (arith, e)

  uuids-Reads : (cs : List Client) → All (IsClient parse_str) cs → Reads cs (uuids parse_str cs)
  uuids-Reads [] h = unfold uuids in tt
  uuids-Reads (c ∷ cs) h = elim (Option-cases (parse_str c.id)) [
    | inl e ↦ absurd (ground (arith, e, h.0))
    | inr (u, e) ↦ subst (Reads (c ∷ cs)) (sym (uuids_cons c cs u e)) (e, uuids-Reads cs h.1)
  ]

  abbrev pub ServesAll : List Inbound → Type 0
  ServesAll [] = Unit {0}
  ServesAll (i ∷ is) = Reads i.settings.clients (uuids parse_str i.settings.clients) × ServesAll is

  IsInbound-Reads : (is : List Inbound) → All (IsInbound parse_str) is → ServesAll is
  IsInbound-Reads [] h = tt
  IsInbound-Reads (i ∷ is) h = (uuids-Reads i.settings.clients h.0.1.0, IsInbound-Reads is h.1)

  -- Of a configuration that passes the check no client is left out: at every inbound the list of the
  -- codec has the UUID of each client, in order, though `run_inbound` drops ids that are no UUIDs.
  pub validate-uuids :
      {Value : Type 0} (config : Config Value)
      → validate parse_str config ≡ ok tt
      → ServesAll config.inbounds
  validate-uuids config h =
      IsInbound-Reads config.inbounds ((validate_iff parse_str config).0 h).1.0
