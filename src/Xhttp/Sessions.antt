-- ===== src/Xhttp/Sessions.antt =====
-- src/transport/xhttp/h2.rs: the table of split sessions. A GET opens a session under its path and
-- reads what POSTs to that path send; the number of a GET stands for its channel.
pub mod Live
pub mod Replaced
use xray_lite.Prelude.{
  ℕ, Bool, true, false, Option, none, some, List, [], ◌∷◌, ◌++◌, ◌≡◌, refl, ◌==◌, if◌then◌else◌,
  arith, Bool-cases, inl, inr,
}
use xray_lite.Prelude.Bytes.{Bytes, bytes_eq, bytes_eq_iff}

-- `SESSIONS`: the channel that the POSTs of a path go to.
abbrev pub Table : Type 0
Table = List (Bytes × ℕ)

-- `SESSIONS.get(&path)`, `remove(&path)` and `insert(path, …)`, which replaces.
unfoldable pub get : Bytes → Table → Option ℕ
get path [] = none
get path ((p, id) ∷ table) = if bytes_eq p path then some id else get path table

unfoldable pub remove : Bytes → Table → Table
remove path [] = []
remove path ((p, id) ∷ table) =
    let rest = remove path table in if bytes_eq p path then rest else (p, id) ∷ rest

unfoldable pub insert : Bytes → ℕ → Table → Table
insert path id table = (path, id) ∷ remove path table

-- How far a GET is: its entry is in the table and it has not answered yet, its downstream runs, its
-- downstream is over and it waits for its upstream, or it has returned.
pub data Phase : Type 0 where
  absent over : Phase
  starting serving closing : Bytes → Phase

-- The table, how far each GET is, whether the receiver of its channel is there, and what that got.
pub record State : Type 0 where
  pub table : Table
  pub phase : ℕ → Phase
  pub receives : ℕ → Bool
  pub received : ℕ → List Bytes

abbrev pub update {ℓ} : {A : Type ℓ} → (ℕ → A) → ℕ → A → ℕ → A
update f i a j = if i == j then a else f j

-- The start of `handle_xhttp_get`.
unfoldable pub open_session : ℕ → Bytes → State → State
open_session id path s = record s {
  table = insert path id s.table;
  phase = update s.phase id (starting path);
  receives = update s.receives id true;
}

-- The response is sent, and the two tasks are started.
unfoldable pub serve_session : ℕ → Bytes → State → State
serve_session id path s = record s { phase = update s.phase id (serving path) }

-- The downstream is over, and the path is removed, whoever inserted it.
unfoldable pub end_downstream : ℕ → Bytes → State → State
end_downstream id path s = record s {
  table = remove path s.table;
  phase = update s.phase id (closing path);
}

-- The upstream is over: after 300 idle seconds, a failed write, or when all senders are gone.
unfoldable pub end_upstream : ℕ → State → State
end_upstream id s = record s { receives = update s.receives id false }

-- `SessionGuard::drop`, when `handle_xhttp_get` returns: the path is removed, whoever inserted it.
unfoldable pub drop_guard : ℕ → Bytes → State → State
drop_guard id path s = record s {
  table = remove path s.table;
  phase = update s.phase id over;
  receives = update s.receives id false;
}

-- One chunk of `handle_xhttp_post`, for a sender that was taken from the table; an error of the send is
-- dropped.
unfoldable pub post_chunk : ℕ → Bytes → State → State
post_chunk id chunk s =
    if s.receives id
    then record s { received = update s.received id (s.received id ++ chunk ∷ []) }
    else s

abbrev pub idle : State
idle = record { table = []; phase = λ id. absent; receives = λ id. false; received = λ id. [] }

-- The requests that run at once, in any order of their steps.
pub data Step (s : State) : State → Type 0 where
  get_starts : (id : ℕ) (path : Bytes) → s.phase id ≡ absent → Step s (open_session id path s)
  get_answers :
      (id : ℕ) (path : Bytes) → s.phase id ≡ starting path → Step s (serve_session id path s)
  answer_fails :
      (id : ℕ) (path : Bytes) → s.phase id ≡ starting path → Step s (drop_guard id path s)
  down_ends :
      (id : ℕ) (path : Bytes) → s.phase id ≡ serving path → Step s (end_downstream id path s)
  up_ends : (id : ℕ) (path : Bytes) → s.phase id ≡ serving path → Step s (end_upstream id s)
  up_ends_late : (id : ℕ) (path : Bytes) → s.phase id ≡ closing path → Step s (end_upstream id s)
  get_ends :
      (id : ℕ) (path : Bytes)
      → s.phase id ≡ closing path
      → s.receives id ≡ false
      → Step s (drop_guard id path s)
  post_sends : (id : ℕ) (chunk : Bytes) → Step s (post_chunk id chunk s)

pub data Steps (s : State) : State → Type 0 where
  here : Steps s s
  next : {t u : State} → Steps s t → Step t u → Steps s u

-- The map laws.
pub get-remove :
    (p q : Bytes) (table : Table)
    → get q (remove p table) ≡ (if bytes_eq p q then none else get q table)
unfolding get remove
get-remove p q [] = ground arith
get-remove p q ((r, id) ∷ table) = elim (Bool-cases (bytes_eq r p)) [
  | inl same ↦ ground (arith, same, get-remove p q table, (bytes_eq_iff r p).0 same)
  | inr other ↦
      ground
        (arith, other, get-remove p q table, bytes_eq_iff r p, bytes_eq_iff r q, bytes_eq_iff p q)
]

pub get-insert :
    (p q : Bytes) (id : ℕ) (table : Table)
    → get q (insert p id table) ≡ (if bytes_eq p q then some id else get q table)
unfolding get insert
get-insert p q id table = ground (arith, get-remove p q table)
