-- ===== src/Reality/Stream/Writes.antt =====
-- src/transport/reality/stream.rs: writing.
use xray_lite.Prelude.{
  ℕ, ◌+◌, ◌≤◌, ◌≡◌, ◌⊎◌, refl, true, false, Option, [], ◌∷◌, ◌++◌, length, ltb, arith, Bool-cases,
  inl, inr, length-append,
}
use xray_lite.Prelude.Outcome.{Outcome, ok, err, panic}
use xray_lite.Prelude.Bytes.{Bytes}
use xray_lite.Reality.Crypto.{CryptoError, encrypt_server_record}
use xray_lite.Reality.Stream.{
  TlsStream, Poll, Sink, took, sink_failed, sink_pending, ready, pending, failed, partial_write,
  incomplete_record, panicked, out_of_fuel, protection_failed, flush_write_buffer, sealed_record,
  after_sink, after_flush, poll_write,
}

empty_nil : (xs : Bytes) → ltb 0 (length xs) ≡ false → xs ≡ []
empty_nil [] h = refl
empty_nil (x ∷ xs) h = absurd (ground arith)

module _ {Key : Type 0} (seal : Key → Bytes → Bytes → Bytes → Option Bytes) (tag_len : ℕ) where
  sealed_lem :
      (s t : TlsStream Key) (sink : Sink) (wire : Bytes) (o : Outcome CryptoError Bytes)
      → sealed_record seal tag_len s sink o ≡ (ready tt, t, wire)
      → (o ≡ ok wire) × (t ≡ record s { write_seq = s.write_seq + 1; write_buffer = [] })
  unfolding sealed_record after_sink
  sealed_lem s t (took n) wire (ok w) e = ground arith
  sealed_lem s t sink_failed wire (ok w) e = ground arith
  sealed_lem s t sink_pending wire (ok w) e = ground arith
  sealed_lem s t sink wire (err x) e = ground arith
  sealed_lem s t sink wire panic e = ground arith

  -- A flush that ends well sent the whole buffer as one record under the current sequence number,
  -- which it then counts up, and left the buffer empty; with an empty buffer it did nothing.
  pub flush_lem :
      (s t : TlsStream Key) (sink : Sink) (wire : Bytes)
      → flush_write_buffer seal tag_len s sink ≡ (ready tt, t, wire)
      → ((s.write_buffer ≡ []) × ((t ≡ s) × (wire ≡ [])))
        ⊎ ((encrypt_server_record seal tag_len s.keys s.write_seq s.write_buffer 23 ≡ ok wire)
            × (t ≡ record s { write_seq = s.write_seq + 1; write_buffer = [] }))
  unfolding flush_write_buffer
  flush_lem s t sink wire e = elim (Bool-cases (ltb 0 (length s.write_buffer))) [
    | inl filled ↦ inr (
        sealed_lem s t sink wire
          (encrypt_server_record seal tag_len s.keys s.write_seq s.write_buffer 23)
          (ground (arith, filled)))
    | inr empty ↦
        inl (empty_nil s.write_buffer empty, (ground (arith, empty), ground (arith, empty)))
  ]

  -- A flush that is not over yet, or did not do its work, has left the stream as it was.
  sealed_pending :
      (s t : TlsStream Key) (sink : Sink) (wire : Bytes) (o : Outcome CryptoError Bytes)
      → sealed_record seal tag_len s sink o ≡ (pending, t, wire)
      → (t ≡ s) × (wire ≡ [])
  unfolding sealed_record after_sink
  sealed_pending s t (took n) wire (ok w) e = absurd (ground arith)
  sealed_pending s t sink_failed wire (ok w) e = absurd (ground arith)
  sealed_pending s t sink_pending wire (ok w) e = (ground arith, ground arith)
  sealed_pending s t sink wire (err x) e = absurd (ground arith)
  sealed_pending s t sink wire panic e = absurd (ground arith)

  pub flush_pending :
      (s t : TlsStream Key) (sink : Sink) (wire : Bytes)
      → flush_write_buffer seal tag_len s sink ≡ (pending, t, wire)
      → (t ≡ s) × (wire ≡ []) × (ltb 0 (length s.write_buffer) ≡ true)
  unfolding flush_write_buffer
  flush_pending s t sink wire e = elim (Bool-cases (ltb 0 (length s.write_buffer))) [
    | inl filled ↦
        let (same, nothing) =
          sealed_pending s t sink wire
            (encrypt_server_record seal tag_len s.keys s.write_seq s.write_buffer 23)
            (ground (arith, filled)) in
        (same, nothing, filled)
    | inr empty ↦ absurd (ground (arith, empty))
  ]

  pub flush_empties :
      (s t : TlsStream Key) (sink : Sink) (wire : Bytes)
      → flush_write_buffer seal tag_len s sink ≡ (ready tt, t, wire)
      → t.write_buffer ≡ []
  flush_empties s t sink wire e = elim (flush_lem s t sink wire e) [
    | inl (nothing, (same, w)) ↦ ground (arith, nothing, same)
    | inr (sent, after) ↦ ground (arith, after)
  ]

  after_flush_lem :
      (s : TlsStream Key) (sink : Sink) (buf : Bytes) (r : Poll Unit) (u : TlsStream Key)
      (w : Bytes) (t : TlsStream Key) (wire : Bytes) (n : ℕ)
      → flush_write_buffer seal tag_len s sink ≡ (r, u, w)
      → after_flush seal tag_len buf (r, u, w) ≡ (ready n, t, wire)
      → (r ≡ ready tt)
        × (w ≡ wire)
        × (n ≡ length buf)
        × (t ≡ record u { write_buffer = u.write_buffer ++ buf })
  unfolding after_flush
  after_flush_lem s sink buf (ready x) u w t wire n e h =
      (refl, ground arith, ground arith, ground arith)
  after_flush_lem s sink buf pending u w t wire n e h =
      let (same, nothing, filled) = flush_pending s u sink w e in
      absurd (ground (arith, same, filled))
  after_flush_lem s sink buf failed u w t wire n e h = absurd (ground arith)
  after_flush_lem s sink buf partial_write u w t wire n e h = absurd (ground arith)
  after_flush_lem s sink buf incomplete_record u w t wire n e h = absurd (ground arith)
  after_flush_lem s sink buf panicked u w t wire n e h = absurd (ground arith)
  after_flush_lem s sink buf out_of_fuel u w t wire n e h = absurd (ground arith)
  after_flush_lem s sink buf (protection_failed x) u w t wire n e h = absurd (ground arith)

  -- A write that is accepted, by what the stream is after it.
  pub poll_write_ready :
      (s t : TlsStream Key) (buf : Bytes) (sink : Sink) (wire : Bytes) (n : ℕ)
      → poll_write seal tag_len s buf sink ≡ (ready n, t, wire)
      → (n ≡ length buf)
        × (((t ≡ record s { write_buffer = s.write_buffer ++ buf }) × (wire ≡ []))
            ⊎ ((u : TlsStream Key) × (flush_write_buffer seal tag_len s sink ≡ (ready tt, u, wire))
                × (t ≡ record u { write_buffer = u.write_buffer ++ buf })))
  unfolding poll_write
  poll_write_ready s t buf sink wire n e =
      elim (Bool-cases (ltb 14336 (length s.write_buffer + length buf))) [
        | inl over ↦
            let (r, u, w) = flush_write_buffer seal tag_len s sink in
            let (done, same, len, grown) =
              after_flush_lem s sink buf r u w t wire n refl (ground (arith, over)) in
            (len, inr (u, ground (arith, done, same), grown))
        | inr room ↦ (ground (arith, room), inl (ground (arith, room), ground (arith, room)))
      ]

  after_flush-pending :
      (s : TlsStream Key) (sink : Sink) (buf : Bytes) (r : Poll Unit) (u : TlsStream Key)
      (w : Bytes) (t : TlsStream Key) (wire : Bytes)
      → flush_write_buffer seal tag_len s sink ≡ (r, u, w)
      → after_flush seal tag_len buf (r, u, w) ≡ (pending, t, wire)
      → (t ≡ s) × (wire ≡ [])
  unfolding after_flush
  after_flush-pending s sink buf pending u w t wire e h =
      let (same, nothing, filled) = flush_pending s u sink w e in
      (ground (arith, same, nothing, filled), ground (arith, same, nothing, filled))
  after_flush-pending s sink buf (ready x) u w t wire e h = absurd (ground arith)
  after_flush-pending s sink buf failed u w t wire e h = absurd (ground arith)
  after_flush-pending s sink buf partial_write u w t wire e h = absurd (ground arith)
  after_flush-pending s sink buf incomplete_record u w t wire e h = absurd (ground arith)
  after_flush-pending s sink buf panicked u w t wire e h = absurd (ground arith)
  after_flush-pending s sink buf out_of_fuel u w t wire e h = absurd (ground arith)
  after_flush-pending s sink buf (protection_failed x) u w t wire e h = absurd (ground arith)

  -- A write that has to wait took nothing and sent nothing.
  pub poll_write-pending :
      (s t : TlsStream Key) (buf : Bytes) (sink : Sink) (wire : Bytes)
      → poll_write seal tag_len s buf sink ≡ (pending, t, wire)
      → (t ≡ s) × (wire ≡ [])
  unfolding poll_write
  poll_write-pending s t buf sink wire e =
      elim (Bool-cases (ltb 14336 (length s.write_buffer + length buf))) [
        | inl over ↦
            let (r, u, w) = flush_write_buffer seal tag_len s sink in
            after_flush-pending s sink buf r u w t wire refl (ground (arith, over))
        | inr room ↦ absurd (ground (arith, room))
      ]

  -- A write that is accepted takes all its bytes. Either they join the buffer, which then holds 14336
  -- bytes at most and nothing is sent, or the buffer was flushed first and holds only them.
  pub poll_write_lem :
      (s t : TlsStream Key) (buf : Bytes) (sink : Sink) (wire : Bytes) (n : ℕ)
      → poll_write seal tag_len s buf sink ≡ (ready n, t, wire)
      → (n ≡ length buf)
        × (((t.write_buffer ≡ s.write_buffer ++ buf)
              × ((length t.write_buffer ≤ 14336) × (wire ≡ [])))
            ⊎ ((t.write_buffer ≡ buf)
                × ((u : TlsStream Key) × (flush_write_buffer seal tag_len s sink
                      ≡ (ready tt, u, wire)))))
  unfolding poll_write
  poll_write_lem s t buf sink wire n e =
      elim (Bool-cases (ltb 14336 (length s.write_buffer + length buf))) [
        | inl over ↦
            let (r, u, w) = flush_write_buffer seal tag_len s sink in
            let (done, same, len, grown) =
              after_flush_lem s sink buf r u w t wire n refl (ground (arith, over)) in
            let nil = flush_empties s u sink w (ground (arith, done)) in
            (len, inr (ground (arith, grown, nil), (u, ground (arith, done, same))))
        | inr room ↦ (
          ground (arith, room),
          inl (
            ground (arith, room),
            (ground (arith, room, length-append {0} s.write_buffer buf), ground (arith, room)),
          ),
        )
      ]
