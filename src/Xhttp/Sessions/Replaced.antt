-- ===== src/Xhttp/Sessions/Replaced.antt =====
-- src/transport/xhttp/h2.rs: two GETs of one path.
use xray_lite.Prelude.{ℕ, ◌≡◌, ◌≢◌, none, some, arith}
use xray_lite.Prelude.Bytes.{Bytes, bytes_eq_refl}
use xray_lite.Xhttp.Sessions.{
  State, get, insert, serving, open_session, serve_session, end_downstream, drop_guard, get-remove,
  get-insert,
}

-- Two GETs of one path have started and answered, the second after the first.
abbrev pub both : ℕ → ℕ → Bytes → State → State
both first second path s =
    serve_session second path
      (open_session second path (serve_session first path (open_session first path s)))

-- A second GET of a path takes the POSTs of the path over. When the downstream of the first one ends,
-- it removes the entry of the second, which is still serving and gets no more POSTs; and so does
-- the guard of the first.
pub close-open-open :
    (s : State) (first second : ℕ) (path : Bytes)
    → first ≢ second
    → (get path (both first second path s).table ≡ some second)
      × ((get path (end_downstream first path (both first second path s)).table ≡ none)
          × ((end_downstream first path (both first second path s)).phase second ≡ serving path))
      × ((get path (drop_guard first path (both first second path s)).table ≡ none)
          × ((drop_guard first path (both first second path s)).phase second ≡ serving path))
unfolding open_session serve_session end_downstream drop_guard
close-open-open s first second path apart =
    let one = insert path first s.table in
    let two = insert path second one in
    let gone = get-remove path path two in
    (
      ground (arith, get-insert path path second one, bytes_eq_refl path),
      (ground (arith, gone, bytes_eq_refl path), ground arith),
      (ground (arith, gone, bytes_eq_refl path), ground arith),
    )
