-- ===== src/Xhttp/Routing/Pairing.antt =====
-- src/transport/xhttp/h2.rs: when a POST meets the GET of its path.
use xray_lite.Prelude.{
  ℕ, zero, suc, ◌+◌, ◌<◌, ◌≤◌, ◌≡◌, true, false, none, some, arith, ltb, if◌then◌else◌, Bool-cases,
  Option-cases, inl, inr,
}
use xray_lite.Prelude.Bytes.{Bytes}
use xray_lite.ProxyProtocol.Text.{starts_with}
use xray_lite.Server.{XhttpConfig}
use xray_lite.Xhttp.Sessions.{Table, get}
use xray_lite.Xhttp.Routing.{
  Request, post_method, split_post, standalone, contains, go_client, grpc_word, wait_from,
  route_post, handle_request,
}

module _ (tables : ℕ → Table) (path : Bytes) (k id : ℕ)
    (opened : (n : ℕ) → k ≤ n → get path (tables n) ≡ some id)
    (closed : (n : ℕ) → n < k → get path (tables n) ≡ none) where
  -- A loop that may go on to the kth look does, if nothing is there before.
  wait_reaches : (rounds n : ℕ) → n ≤ k → k ≤ n + rounds → k ≤ wait_from tables rounds n path
  unfolding wait_from
  wait_reaches zero n low high = omega arith
  wait_reaches (suc rounds) n low high = elim (Option-cases (get path (tables n))) [
    | inl missing ↦ elim (Bool-cases (ltb n k)) [
      | inl early ↦
          ground (arith, missing, wait_reaches rounds (n + 1) (ground (arith, early)) (omega arith))
      | inr late ↦ absurd (ground (arith, late, missing, opened n))
    ]
    | inr (j, found) ↦ ground (arith, found, closed n)
  ]

-- A POST that does not come from the Go client waits for the GET of its path, up to 40 looks: if the
-- path leads to no session before the kth look and to the session `id` from then on, with k at
-- most 40, the POST is handed to that session.
pub handle_request-waits :
    (tables : ℕ → Table) (config : XhttpConfig) (r : Request) (k id : ℕ)
    → starts_with config.path r.path ≡ true
    → r.method ≡ post_method
    → contains go_client r.user_agent ≡ false
    → k ≤ 40
    → ((n : ℕ) → k ≤ n → get r.path (tables n) ≡ some id)
    → ((n : ℕ) → n < k → get r.path (tables n) ≡ none)
    → handle_request tables config r ≡ split_post id
unfolding handle_request route_post
handle_request-waits tables config r k id inside post other soon opened closed = ground (
  arith,
  inside,
  post,
  other,
  opened (wait_from tables 40 0 r.path)
      (wait_reaches tables r.path k id opened closed 40 0 (omega arith) (omega arith)),
)

-- A POST whose path has no session at any look gets a stream of its own, with gRPC framing exactly if
-- its content type speaks of gRPC.
pub handle_request-alone :
    (tables : ℕ → Table) (config : XhttpConfig) (r : Request)
    → starts_with config.path r.path ≡ true
    → r.method ≡ post_method
    → ((n : ℕ) → get r.path (tables n) ≡ none)
    → handle_request tables config r ≡ standalone (contains grpc_word r.content_type)
unfolding handle_request route_post
handle_request-alone tables config r inside post closed = ground (
  arith,
  inside,
  post,
  closed (if contains go_client r.user_agent then 0 else wait_from tables 40 0 r.path),
)
