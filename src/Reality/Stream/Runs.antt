-- ===== src/Reality/Stream/Runs.antt =====
-- src/transport/reality/stream.rs: any sequence of writes and flushes, against the queue.
use xray_lite.Prelude.{
  ℕ, ◌+◌, ◌≡◌, ◌∙◌, refl, sym, ap, subst, Option, List, [], ◌∷◌, ◌++◌, length, arith, append_assoc,
  append-nil, length-append,
}
use xray_lite.Prelude.Bytes.{Bytes}
use xray_lite.Reality.Crypto.{TlsKeys}
use xray_lite.Reality.Stream.{TlsStream}
use xray_lite.Reality.Stream.Calls.{Call, Answer, answered, errored, answer, after_answer, run}
use xray_lite.Reality.Stream.Fifo.{concat, Sealed, Moves, answer-Moves}

concat-append : (xs ys : List Bytes) → concat (xs ++ ys) ≡ concat xs ++ concat ys
concat-append [] ys = refl
concat-append (x ∷ xs) ys = rw (concat-append xs ys) (sym (append_assoc x (concat xs) (concat ys)))

module _ {Key : Type 0} (seal : Key → Bytes → Bytes → Bytes → Option Bytes) (tag_len : ℕ) where
  Sealed-append :
      (keys : TlsKeys Key) (ps qs : List Bytes) (seq : ℕ) (v w : Bytes)
      → Sealed seal tag_len keys seq ps v
      → Sealed seal tag_len keys (seq + length ps) qs w
      → Sealed seal tag_len keys seq (ps ++ qs) (v ++ w)
  Sealed-append keys [] qs seq v w h k =
      rw h (subst (λ n. Sealed seal tag_len keys n qs w) (omega arith) k)
  Sealed-append keys (p ∷ ps) qs seq v w (sealed, rest, split, done, more) k = (
    sealed,
    rest ++ w,
    rw split (append_assoc sealed rest w),
    done,
    Sealed-append keys ps qs (seq + 1) rest w more
        (subst (λ n. Sealed seal tag_len keys n qs w) (omega arith) k),
  )

  Moves-then :
      (s t u : TlsStream Key) (a b v w : Bytes)
      → Moves seal tag_len s a v t
      → Moves seal tag_len t b w u
      → Moves seal tag_len s (a ++ b) (v ++ w) u
  Moves-then s t u a b v w m n = record {
    pieces = m.pieces ++ n.pieces;
    sealed = Sealed-append s.keys m.pieces n.pieces s.write_seq v w m.sealed (
        subst (λ k. Sealed seal tag_len s.keys k n.pieces w) m.seq
          (subst (λ keys. Sealed seal tag_len keys t.write_seq n.pieces w) m.keys n.sealed));
    queue =
        ap (λ bytes. bytes ++ u.write_buffer) (concat-append m.pieces n.pieces)
        ∙ append_assoc (concat m.pieces) (concat n.pieces) u.write_buffer
        ∙ ap (λ bytes. concat m.pieces ++ bytes) n.queue
        ∙ sym (append_assoc (concat m.pieces) t.write_buffer b)
        ∙ ap (λ bytes. bytes ++ b) m.queue
        ∙ append_assoc s.write_buffer a b;
    seq = omega (arith, m.seq, n.seq, length-append {0} m.pieces n.pieces);
    keys = n.keys ∙ m.keys;
  }

  nothing-Moves : (s : TlsStream Key) → Moves seal tag_len s [] [] s
  nothing-Moves s = record {
    pieces = [];
    sealed = refl;
    queue = sym (append-nil s.write_buffer);
    seq = omega arith;
    keys = refl;
  }

  abbrev AsQueue : TlsStream Key → Bytes × Bytes × TlsStream Key → Type 0
  AsQueue s (taken, wire, t) = Moves seal tag_len s taken wire t

  after_answer-AsQueue :
      (s : TlsStream Key) (call : Call) (a : Answer Key)
      (rest : TlsStream Key → Bytes × Bytes × TlsStream Key)
      → answer seal tag_len s call ≡ a
      → ((t : TlsStream Key) → AsQueue t (rest t))
      → AsQueue s (after_answer seal tag_len s a rest)
  after_answer-AsQueue s call (answered taken wire t) rest e later =
      let (b, w, u) = rest t in
      Moves-then s t u taken b wire w (answer-Moves seal tag_len s t call taken wire e) (later t)
  after_answer-AsQueue s call errored rest e later = nothing-Moves s

  -- Any sequence of writes and flushes, whatever the transport answers, up to the first error, is a
  -- queue: what went out is a row of whole records under consecutive sequence numbers, and their
  -- contents followed by what is still in the buffer are what was in the buffer before followed
  -- by all the bytes that were taken, in order.
  pub run_refines :
      (calls : List Call) (s : TlsStream Key)
      → let (taken, wire, t) = run seal tag_len calls s in Moves seal tag_len s taken wire t
  unfolding run
  run_refines [] s = nothing-Moves s
  run_refines (call ∷ calls) s =
      after_answer-AsQueue s call (answer seal tag_len s call) (run seal tag_len calls) refl
        (run_refines calls)
