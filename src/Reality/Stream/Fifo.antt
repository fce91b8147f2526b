-- ===== src/Reality/Stream/Fifo.antt =====
-- src/transport/reality/stream.rs: the stream as a queue of bytes.
use xray_lite.Prelude.{
  ℕ, ◌+◌, ◌≡◌, ◌∙◌, refl, sym, ap, subst, Option, List, [], ◌∷◌, ◌++◌, length, take, arith, inl,
  inr, append_assoc, append-nil, take_all,
}
use xray_lite.Prelude.Outcome.{ok}
use xray_lite.Prelude.Bytes.{Bytes}
use xray_lite.Reality.Crypto.{TlsKeys, encrypt_server_record}
use xray_lite.Reality.Stream.{
  TlsStream, Poll, Sink, ready, pending, failed, partial_write, incomplete_record, panicked,
  out_of_fuel, protection_failed, flush_write_buffer, poll_write, poll_flush, after_sent,
}
use xray_lite.Reality.Stream.Writes.{flush_lem, flush_pending, poll_write_ready, poll_write-pending}
use xray_lite.Reality.Stream.Calls.{
  Call, write, flush, answered, write_answer, flush_answer, answer,
}

abbrev pub concat : List Bytes → Bytes
concat [] = []
concat (c ∷ cs) = c ++ concat cs

module _ {Key : Type 0} (seal : Key → Bytes → Bytes → Bytes → Option Bytes) (tag_len : ℕ) where
  -- The wire holds these pieces, each sealed as one record, under consecutive sequence numbers.
  abbrev pub Sealed : TlsKeys Key → ℕ → List Bytes → Bytes → Type 0
  Sealed keys seq [] wire = wire ≡ []
  Sealed keys seq (piece ∷ pieces) wire =
      (record_bytes : Bytes) × (rest : Bytes) × (wire ≡ record_bytes ++ rest)
      × (encrypt_server_record seal tag_len keys seq piece 23 ≡ ok record_bytes)
      × Sealed keys (seq + 1) pieces rest

  -- One call as a step of the queue.
  pub record Moves (s : TlsStream Key) (taken wire : Bytes) (t : TlsStream Key) : Type 0 where
    pub pieces : List Bytes
    pub sealed : Sealed s.keys s.write_seq pieces wire
    pub queue : concat pieces ++ t.write_buffer ≡ s.write_buffer ++ taken
    pub seq : t.write_seq ≡ s.write_seq + length pieces
    pub keys : t.keys ≡ s.keys

  flush-Moves :
      (s t : TlsStream Key) (sink : Sink) (wire : Bytes)
      → flush_write_buffer seal tag_len s sink ≡ (ready tt, t, wire)
      → Moves s [] wire t
  flush-Moves s t sink wire e = elim (flush_lem seal tag_len s t sink wire e) [
    | inl (nothing, (same, w)) ↦ record {
      pieces = [];
      sealed = w;
      queue = ap (λ (r : TlsStream Key). r.write_buffer) same ∙ sym (append-nil s.write_buffer);
      seq = ground (arith, same);
      keys = ap (λ (r : TlsStream Key). r.keys) same;
    }
    | inr (sent, after) ↦ record {
      pieces = s.write_buffer ∷ [];
      sealed = (wire, [], sym (append-nil wire), sent, refl);
      queue = ground (arith, after, append-nil s.write_buffer);
      seq = ground (arith, after);
      keys = ap (λ (r : TlsStream Key). r.keys) after;
    }
  ]

  idle-Moves : (s t : TlsStream Key) (wire : Bytes) → t ≡ s → wire ≡ [] → Moves s [] wire t
  idle-Moves s t wire same nothing = record {
    pieces = [];
    sealed = nothing;
    queue = ap (λ (r : TlsStream Key). r.write_buffer) same ∙ sym (append-nil s.write_buffer);
    seq = ground (arith, same);
    keys = ap (λ (r : TlsStream Key). r.keys) same;
  }

  write-Moves :
      (s t : TlsStream Key) (buf : Bytes) (sink : Sink) (wire : Bytes) (n : ℕ)
      → poll_write seal tag_len s buf sink ≡ (ready n, t, wire)
      → Moves s (take n buf) wire t
  write-Moves s t buf sink wire n e =
      let (all, split) = poll_write_ready seal tag_len s t buf sink wire n e in
      let whole : take n buf ≡ buf = take_all {0} n buf (omega (arith, all)) in
      elim split [
        | inl (grown, nothing) ↦ record {
          pieces = [];
          sealed = nothing;
          queue = ground (arith, grown, whole);
          seq = ground (arith, grown);
          keys = ap (λ (r : TlsStream Key). r.keys) grown;
        }
        | inr (u, flushed, grown) ↦
            let m = flush-Moves s u sink wire flushed in
            record {
              pieces = m.pieces;
              sealed = m.sealed;
              queue =
                  ap (λ (r : TlsStream Key). concat m.pieces ++ r.write_buffer) grown
                  ∙ sym (append_assoc (concat m.pieces) u.write_buffer buf)
                  ∙ ap (λ bytes. bytes ++ buf) (m.queue ∙ append-nil s.write_buffer)
                  ∙ ap (λ bytes. s.write_buffer ++ bytes) (sym whole);
              seq = ground (arith, grown, m.seq);
              keys = ap (λ (r : TlsStream Key). r.keys) grown ∙ m.keys;
            }
      ]

  write_answer-Moves :
      (s t : TlsStream Key) (buf : Bytes) (sink : Sink) (taken wire : Bytes)
      (r : Poll ℕ × TlsStream Key × Bytes)
      → poll_write seal tag_len s buf sink ≡ r
      → write_answer buf r ≡ answered taken wire t
      → Moves s taken wire t
  write_answer-Moves s t buf sink taken wire (ready n, u, w) e h =
      subst (λ bytes. Moves s bytes wire t) (ground (arith, h))
        (write-Moves s t buf sink wire n (ground (arith, e, h)))
  write_answer-Moves s t buf sink taken wire (pending, u, w) e h =
      let (same, nothing) = poll_write-pending seal tag_len s u buf sink w e in
      subst (λ bytes. Moves s bytes wire t) (ground (arith, h))
        (idle-Moves s t wire (ground (arith, h, same)) (ground (arith, h, nothing)))
  write_answer-Moves s t buf sink taken wire (failed, u, w) e h = absurd (ground arith)
  write_answer-Moves s t buf sink taken wire (partial_write, u, w) e h = absurd (ground arith)
  write_answer-Moves s t buf sink taken wire (incomplete_record, u, w) e h = absurd (ground arith)
  write_answer-Moves s t buf sink taken wire (panicked, u, w) e h = absurd (ground arith)
  write_answer-Moves s t buf sink taken wire (out_of_fuel, u, w) e h = absurd (ground arith)
  write_answer-Moves s t buf sink taken wire (protection_failed x, u, w) e h = absurd (ground arith)

  same_answer :
      (s u t : TlsStream Key) (taken w wire : Bytes)
      → Moves s [] w u
      → answered [] w u ≡ answered taken wire t
      → Moves s taken wire t
  same_answer s u t taken w wire m h = record {
    pieces = m.pieces;
    sealed = subst (Sealed s.keys s.write_seq m.pieces) (ground (arith, h)) m.sealed;
    queue = ground (arith, h, m.queue);
    seq = ground (arith, h, m.seq);
    keys = ground (arith, h, m.keys);
  }

  below-Moves :
      (s u t : TlsStream Key) (taken w wire : Bytes) (below : Poll Unit)
      → Moves s [] w u
      → flush_answer (below, u, w) ≡ answered taken wire t
      → Moves s taken wire t
  below-Moves s u t taken w wire (ready x) m h = same_answer s u t taken w wire m h
  below-Moves s u t taken w wire pending m h = same_answer s u t taken w wire m h
  below-Moves s u t taken w wire failed m h = absurd (ground arith)
  below-Moves s u t taken w wire partial_write m h = absurd (ground arith)
  below-Moves s u t taken w wire incomplete_record m h = absurd (ground arith)
  below-Moves s u t taken w wire panicked m h = absurd (ground arith)
  below-Moves s u t taken w wire out_of_fuel m h = absurd (ground arith)
  below-Moves s u t taken w wire (protection_failed x) m h = absurd (ground arith)

  flush_answer-Moves :
      (s t : TlsStream Key) (sink : Sink) (below : Poll Unit) (taken wire : Bytes) (r : Poll Unit)
      (u : TlsStream Key) (w : Bytes)
      → flush_write_buffer seal tag_len s sink ≡ (r, u, w)
      → flush_answer (after_sent seal tag_len below (r, u, w)) ≡ answered taken wire t
      → Moves s taken wire t
  unfolding after_sent
  flush_answer-Moves s t sink below taken wire (ready x) u w e h =
      below-Moves s u t taken w wire below (flush-Moves s u sink w (ground (arith, e))) h
  flush_answer-Moves s t sink below taken wire pending u w e h =
      let (same, nothing, filled) = flush_pending seal tag_len s u sink w e in
      same_answer s u t taken w wire (idle-Moves s u w same nothing) h
  flush_answer-Moves s t sink below taken wire failed u w e h = absurd (ground arith)
  flush_answer-Moves s t sink below taken wire partial_write u w e h = absurd (ground arith)
  flush_answer-Moves s t sink below taken wire incomplete_record u w e h = absurd (ground arith)
  flush_answer-Moves s t sink below taken wire panicked u w e h = absurd (ground arith)
  flush_answer-Moves s t sink below taken wire out_of_fuel u w e h = absurd (ground arith)
  flush_answer-Moves s t sink below taken wire (protection_failed x) u w e h = absurd (ground arith)

  -- A call that is answered moves bytes through the queue.
  pub answer-Moves :
      (s t : TlsStream Key) (call : Call) (taken wire : Bytes)
      → answer seal tag_len s call ≡ answered taken wire t
      → Moves s taken wire t
  unfolding answer poll_flush
  answer-Moves s t (write buf sink) taken wire h =
      write_answer-Moves s t buf sink taken wire (poll_write seal tag_len s buf sink) refl h
  answer-Moves s t (flush sink below) taken wire h =
      let (r, u, w) = flush_write_buffer seal tag_len s sink in
      flush_answer-Moves s t sink below taken wire r u w refl h
