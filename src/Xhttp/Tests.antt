-- ===== src/Xhttp/Tests.antt =====
-- Runs of the routing, of the session table and of the downlink.
use xray_lite.Prelude.{
  ◌⊎◌, false, ℕ, ◌≤◌, ◌<◌, ◌∙◌, refl, none, ltb, if◌then◌else◌, ◌≡◌, true, false, some, List, [],
  ◌∷◌, arith,
}
use xray_lite.Prelude.Bytes.{Bytes, bytes_eq_refl}
use xray_lite.ProxyProtocol.Text.{starts_with}
use xray_lite.Server.{XhttpConfig, auto}
use xray_lite.Xhttp.Sessions.{
  Table, State, get, idle, Steps, here, next, get_starts, get_answers, up_ends, open_session,
  serve_session, end_downstream, end_upstream, drop_guard, starting, serving, get-insert,
}
use xray_lite.Xhttp.Sessions.Live.{Steps-IsLive}
use xray_lite.Xhttp.Sessions.Replaced.{both, close-open-open}
use xray_lite.Xhttp.Routing.{Request, post_method, split_post, contains, go_client, handle_request}
use xray_lite.Xhttp.Routing.Pairing.{handle_request-waits}
use xray_lite.Xhttp.Downlink.{trailers, down_task}
use xray_lite.Xhttp.Downlink.Sends.{EnoughSizes, Sends, pulls_of, wire, down_task_lem}

-- A POST that finds the session of its path at the third look.
abbrev chat : Bytes
chat = 0x2f ∷ 0x61 ∷ []

abbrev chat_tables : ℕ → Table
chat_tables n = if ltb n 3 then [] else (chat, 5) ∷ []

abbrev chat_post : Request
chat_post = record { path = chat; method = post_method; user_agent = []; content_type = [] }

abbrev chat_config : XhttpConfig
chat_config = record { mode = auto; path = 0x2f ∷ []; host = [] }

chat_opened : (n : ℕ) → 3 ≤ n → get chat (chat_tables n) ≡ some 5
unfolding get
chat_opened n h = ground (arith, bytes_eq_refl chat)

chat_closed : (n : ℕ) → n < 3 → get chat (chat_tables n) ≡ none
unfolding get
chat_closed n h = ground arith

chat_inside : starts_with chat_config.path chat ≡ true
unfolding starts_with
chat_inside = refl

chat_other : contains go_client [] ≡ false
unfolding contains starts_with
chat_other = refl

handle_request-waits_example : handle_request chat_tables chat_config chat_post ≡ split_post 5
handle_request-waits_example =
    handle_request-waits chat_tables chat_config chat_post 3 5 chat_inside refl chat_other
      (omega arith) chat_opened chat_closed

-- Two GETs of a path, and the end of the first.
chat_started : Steps idle (open_session 1 chat idle)
chat_started = next here (get_starts 1 chat refl)

chat_leads : get chat (open_session 1 chat idle).table ≡ some 1
unfolding open_session
chat_leads = get-insert chat chat 1 [] ∙ ground (arith, bytes_eq_refl chat)

Steps-IsLive_example :
    ((open_session 1 chat idle).phase 1 ≡ starting chat)
    ⊎ ((open_session 1 chat idle).phase 1 ≡ serving chat)
Steps-IsLive_example = Steps-IsLive chat_started chat 1 chat_leads

close-open-open_example :
    (get chat (both 1 2 chat idle).table ≡ some 2)
    × ((get chat (end_downstream 1 chat (both 1 2 chat idle)).table ≡ none)
        × ((end_downstream 1 chat (both 1 2 chat idle)).phase 2 ≡ serving chat))
    × ((get chat (drop_guard 1 chat (both 1 2 chat idle)).table ≡ none)
        × ((drop_guard 1 chat (both 1 2 chat idle)).phase 2 ≡ serving chat))
close-open-open_example = close-open-open idle 1 2 chat (omega arith)

-- The upstream of a GET whose downstream goes on is over, and its path leads to it still.
abbrev half_over : State
half_over = end_upstream 1 (serve_session 1 chat (open_session 1 chat idle))

half_over_reached : Steps idle half_over
unfolding open_session serve_session
half_over_reached =
    next (next (next here (get_starts 1 chat refl)) (get_answers 1 chat refl)) (up_ends 1 chat refl)

half_over_leads : (get chat half_over.table ≡ some 1) × (half_over.receives 1 ≡ false)
unfolding open_session serve_session end_upstream
half_over_leads = (get-insert chat chat 1 [] ∙ ground (arith, bytes_eq_refl chat), refl)

abbrev six_sizes : ℕ → List ℕ
six_sizes i = 8192 ∷ 9000 ∷ 8192 ∷ 9000 ∷ 8192 ∷ 9000 ∷ []

six_sizes-EnoughSizes : EnoughSizes six_sizes 1
six_sizes-EnoughSizes i = (omega arith, omega arith)

down_task_lem_example :
    Sends
      (down_task six_sizes 0 (pulls_of true ((7 ∷ []) ∷ (8 ∷ []) ∷ [])))
      (wire true ((7 ∷ []) ∷ (8 ∷ []) ∷ []))
      trailers
down_task_lem_example =
    down_task_lem six_sizes 1 0 true ((7 ∷ []) ∷ (8 ∷ []) ∷ []) six_sizes-EnoughSizes
      ((λ p. cc, omega arith), ((λ p. cc, omega arith), tt))
