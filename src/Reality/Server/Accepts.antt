-- ===== src/Reality/Server/Accepts.antt =====
-- src/transport/reality/server_rustls.rs: `accept` on the servers that `new` makes.
use xray_lite.Prelude.{◌+◌, ◌<◌, ◌≡◌, ◌≢◌, refl, Option, List, [], ◌++◌, length, All, arith}
use xray_lite.Prelude.Outcome.{ok}
use xray_lite.Prelude.Bytes.{Bytes}
use xray_lite.Server.{RealityConfig}
use xray_lite.Reality.Accept.{
  Decision, serve, fall_back, crash, Gather, gathered, closed_early, timed_out, out_of_range,
  read_header,
}
use xray_lite.Reality.Accept.Gathered.{
  read_header_keeps, read_header-ne-out_of_range, IsChunk, concat,
}
use xray_lite.Reality.Accept.InRange.{decide-ne-crash}
use xray_lite.Reality.Server.{
  RealityServer, verifier, new, Accepted, tls, fallback, panicked, closed, timeout, by_decision,
  by_gather, accept,
}
use xray_lite.Reality.Server.Made.{new_sound}

module _ (diffie_hellman : Bytes → Bytes → Bytes) (hkdf : Bytes → Bytes → Bytes → Option Bytes)
    (decrypt_in_place : Bytes → Bytes → Bytes → Bytes → Option Bytes) where
  by_decision-ne-panicked :
      (s : RealityServer) (buffer : Bytes) (left : List Bytes) (d : Decision)
      → d ≢ crash
      → by_decision diffie_hellman hkdf decrypt_in_place s buffer left d ≢ panicked
  unfolding by_decision
  by_decision-ne-panicked s buffer left (serve offset key) h = λ p. cc
  by_decision-ne-panicked s buffer left fall_back h = λ p. cc
  by_decision-ne-panicked s buffer left crash h = absurd (h refl)

  by_gather-ne-panicked :
      (s : RealityServer) (g : Gather)
      → length s.reality_config.private_key ≡ 32
      → g ≢ out_of_range
      → by_gather diffie_hellman hkdf decrypt_in_place s g ≢ panicked
  unfolding by_gather
  by_gather-ne-panicked s (gathered buffer left) key h =
      by_decision-ne-panicked s buffer left _
        (decide-ne-crash diffie_hellman hkdf decrypt_in_place (verifier s) buffer key)
  by_gather-ne-panicked s closed_early key h = λ p. cc
  by_gather-ne-panicked s timed_out key h = λ p. cc
  by_gather-ne-panicked s out_of_range key h = absurd (h refl)

  -- No client makes a server that `new` made panic, whatever it sends and in whatever pieces: the
  -- gathering, the parser of the ClientHello and the check of the client all stay in range. What
  -- `accept` does after the decision is not part of this.
  pub accept-ne-panicked :
      (hex url_safe standard : Bytes → Option Bytes) (config : RealityConfig) (s : RealityServer)
      (chunks : List Bytes)
      → new hex url_safe standard config ≡ ok s
      → accept diffie_hellman hkdf decrypt_in_place s chunks ≢ panicked
  unfolding accept
  accept-ne-panicked hex url_safe standard config s chunks made =
      by_gather-ne-panicked s (read_header [] chunks)
        (new_sound hex url_safe standard config s made).whole_key
        (read_header-ne-out_of_range [] chunks)

  -- The connection goes on, over these bytes and then those that the stream still gives.
  abbrev pub Replays : Accepted → Bytes → List Bytes → Type 0
  Replays (tls offset key host bytes rest) buffer left = (bytes ≡ buffer) × (rest ≡ left)
  Replays (fallback dest bytes rest) buffer left = (bytes ≡ buffer) × (rest ≡ left)
  Replays closed buffer left = ⊥
  Replays timeout buffer left = ⊥
  Replays panicked buffer left = ⊥

  by_decision_gathers :
      (s : RealityServer) (buffer out : Bytes) (rest left : List Bytes) (d : Decision)
      → Replays (by_decision diffie_hellman hkdf decrypt_in_place s buffer rest d) out left
      → (buffer ≡ out) × (rest ≡ left)
  unfolding by_decision
  by_decision_gathers s buffer out rest left (serve offset key) h = h
  by_decision_gathers s buffer out rest left fall_back h = h
  by_decision_gathers s buffer out rest left crash h = absurd h

  by_gather_gathers :
      (s : RealityServer) (out : Bytes) (left : List Bytes) (g : Gather)
      → Replays (by_gather diffie_hellman hkdf decrypt_in_place s g) out left
      → g ≡ gathered out left
  unfolding by_gather
  by_gather_gathers s out left (gathered buffer rest) h =
      let (same, same_rest) = by_decision_gathers s buffer out rest left _ h in
      rw (same, same_rest) refl
  by_gather_gathers s out left closed_early h = absurd h
  by_gather_gathers s out left timed_out h = absurd h
  by_gather_gathers s out left out_of_range h = absurd h

  -- Whichever way a connection goes on, over TLS or to the fallback destination, no byte of it is lost:
  -- the bytes that were read of it, followed by those that it still gives, are all that it gives,
  -- in order; and fewer than 17408 bytes were read. The reads give at most 1024 bytes each.
  pub accept-Replays :
      (s : RealityServer) (chunks : List Bytes) (out : Bytes) (left : List Bytes)
      → All IsChunk chunks
      → Replays (accept diffie_hellman hkdf decrypt_in_place s chunks) out left
      → (length out < 16384 + 1024) × (out ++ concat left ≡ concat chunks)
  unfolding accept
  accept-Replays s chunks out left v h =
      read_header_keeps [] chunks out left v (omega arith)
        (by_gather_gathers s out left (read_header [] chunks) h)
