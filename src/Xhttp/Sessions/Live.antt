-- ===== src/Xhttp/Sessions/Live.antt =====
-- src/transport/xhttp/h2.rs: the entries of the session table and their GETs.
use xray_lite.Prelude.{ℕ, ◌≡◌, ◌⊎◌, some, arith, inl, inr, Bool-cases}
use xray_lite.Prelude.Bytes.{Bytes, bytes_eq_iff}
use xray_lite.Xhttp.Sessions.{
  State, Phase, Step, Steps, absent, starting, serving, closing, get_starts, get_answers,
  answer_fails, down_ends, up_ends, up_ends_late, get_ends, post_sends, here, next, get,
  open_session, serve_session, end_downstream, end_upstream, drop_guard, post_chunk, get-remove,
  get-insert, idle,
}

-- A GET of the path, not beyond its downstream.
abbrev pub Runs : Bytes → Phase → Type 0
Runs path p = (p ≡ starting path) ⊎ (p ≡ serving path)

-- Each path of the table leads to such a GET.
abbrev pub IsLive : State → Type 0
IsLive s = (path : Bytes) (id : ℕ) → get path s.table ≡ some id → Runs path (s.phase id)

open-IsLive :
    (s : State) (id : ℕ) (path : Bytes)
    → s.phase id ≡ absent
    → IsLive s
    → IsLive (open_session id path s)
unfolding open_session
open-IsLive s id path fresh live q j h =
    ground (arith, get-insert path q id s.table, bytes_eq_iff path q, fresh, live q j, h)

serve-IsLive :
    (s : State) (id : ℕ) (path : Bytes)
    → s.phase id ≡ starting path
    → IsLive s
    → IsLive (serve_session id path s)
unfolding serve_session
serve-IsLive s id path mine live q j h = ground (arith, bytes_eq_iff path q, mine, live q j h)

down-IsLive :
    (s : State) (id : ℕ) (path : Bytes)
    → s.phase id ≡ serving path
    → IsLive s
    → IsLive (end_downstream id path s)
unfolding end_downstream
down-IsLive s id path mine live q j h =
    ground (arith, get-remove path q s.table, bytes_eq_iff path q, mine, live q j, h)

drop-IsLive :
    (s : State) (id : ℕ) (path : Bytes)
    → (s.phase id ≡ starting path) ⊎ (s.phase id ≡ closing path)
    → IsLive s
    → IsLive (drop_guard id path s)
unfolding drop_guard
drop-IsLive s id path mine live q j h =
    ground (arith, get-remove path q s.table, bytes_eq_iff path q, mine, live q j, h)

post-IsLive : (s : State) (id : ℕ) (chunk : Bytes) → IsLive s → IsLive (post_chunk id chunk s)
unfolding post_chunk
post-IsLive s id chunk live = elim (Bool-cases (s.receives id)) [
  | inl there ↦ rw there live
  | inr gone ↦ rw gone live
]

Step-IsLive : {s t : State} → Step s t → IsLive s → IsLive t
unfolding end_upstream
Step-IsLive {s} (get_starts id path fresh) live = open-IsLive s id path fresh live
Step-IsLive {s} (get_answers id path mine) live = serve-IsLive s id path mine live
Step-IsLive {s} (answer_fails id path mine) live = drop-IsLive s id path (inl mine) live
Step-IsLive {s} (down_ends id path mine) live = down-IsLive s id path mine live
Step-IsLive (up_ends id path mine) live = live
Step-IsLive (up_ends_late id path mine) live = live
Step-IsLive {s} (get_ends id path mine gone) live = drop-IsLive s id path (inr mine) live
Step-IsLive {s} (post_sends id chunk) live = post-IsLive s id chunk live

-- In every state that requests reach, in any order of their steps, a path of the session table leads
-- to a GET of that path whose downstream is not over: no entry is left behind when a downstream ends
-- or a GET returns. Its upstream may be over all the same.
pub Steps-IsLive :
    {s : State}
    → Steps idle s
    → (path : Bytes) (id : ℕ) → get path s.table ≡ some id
    → (s.phase id ≡ starting path) ⊎ (s.phase id ≡ serving path)
unfolding get
Steps-IsLive here path id h = absurd (ground (arith, h))
Steps-IsLive (next before step) path id h = Step-IsLive step (Steps-IsLive before) path id h
