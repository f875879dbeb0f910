-- ===== src/Sink/Short.antt =====
-- How many bytes wait after a call of src/sink.c.
use libbgp.Prelude.{
  ℕ, zero, suc, ◌+◌, ◌-◌, ◌≤◌, ◌<◌, ◌≡◌, inl, inr, refl, ap, ◌∙◌, List, ◌∷◌, leb, ◌==◌, length,
  take, arith, Bool-cases,
}
use libbgp.Prelude.Errors.{Result, ok, err, Mem}
use libbgp.Sink.{
  Sink, Parser, Fed, max_packet_len, buffered, sink_reserve_packets, sink_reserve_buf,
  sink_drop_buffer_prefix, push_packet,
}
use libbgp.Sink.Ops.{
  take_packet, process_frame, and_then, sink_process, sink_feed, sink_buffered_len, store_bytes,
}
use libbgp.Sink.Frames.{head-cases, head_of-more}
use libbgp.Sink.Room.{sink_reserve_buf-Made}
use libbgp.Sink.Buffer.{IsSink, length-buffered, store_bytes-buffered}
use libbgp.Sink.Ring.{sink_reserve_packets-Keeps}
use libbgp.Sink.Steps.{process_frame-Follows, sink_process_head}

module _ {P : Type 0} (parse : Parser P) where
  drop-len : (impl : Sink P) (w : ℕ) → (sink_drop_buffer_prefix impl w).buf_len ≡ impl.buf_len - w
  unfolding sink_drop_buffer_prefix
  drop-len impl w = elim (Bool-cases (leb impl.buf_len w)) [
    | inl e ↦ rw e (ground arith)
    | inr e ↦ rw e refl
  ]

  take_packet-len :
      (impl : Sink P) (w : ℕ) (r : Result (P × ℕ) × Mem)
      → (take_packet parse impl w r).1.buf_len ≡ impl.buf_len - w
  unfolding take_packet push_packet
  take_packet-len impl w (err e, m) = drop-len impl w
  take_packet-len impl w (ok r, m) = elim (Bool-cases (r.1 == w)) [
    | inl e ↦ rw e (drop-len (push_packet impl r.0) w)
    | inr e ↦ rw e (drop-len impl w)
  ]

  process_frame-len :
      (impl : Sink P) (w : ℕ) (m : Mem)
      → IsSink impl
      → let r = process_frame parse impl w (sink_reserve_packets impl (impl.packet_count + 1) m) in
        (r.0 ≡ ok tt → r.1.buf_len ≡ impl.buf_len - w)
  unfolding process_frame
  process_frame-len impl w m h =
      let reserved = sink_reserve_packets impl (impl.packet_count + 1) m in
      let k = sink_reserve_packets-Keeps impl m h in
      elim (Bool-cases reserved.0) [
        | inr e ↦ rw e (λ no. absurd (cc))
        | inl e ↦
            let frame = take w (buffered reserved.1) in
            let answer = parse reserved.1.use_4b_asn frame reserved.2 in
            rw e (λ yes. take_packet-len reserved.1 w answer ∙ ap (λ (a : ℕ). a - w) k.0.len)
      ]

  and_then-short :
      (r : Fed P) (go : Sink P → Mem → Fed P)
      → (r.0 ≡ ok tt → (m : Mem) → (go r.1 m).0 ≡ ok tt → (go r.1 m).1.buf_len < max_packet_len)
      → (and_then r go).0 ≡ ok tt
      → (and_then r go).1.buf_len < max_packet_len
  and_then-short (ok u, next, m) go h done = h refl m done
  and_then-short (err e, next, m) go h done = absurd (cc)

  sink_process-short :
      (fuel : ℕ) (impl : Sink P) (m : Mem)
      → IsSink impl
      → impl.buf_len ≤ fuel
      → (sink_process parse fuel impl m).0 ≡ ok tt
      → (sink_process parse fuel impl m).1.buf_len < max_packet_len
  unfolding sink_process
  sink_process-short zero impl m h low = λ done. omega arith
  sink_process-short (suc fuel) impl m h low =
      let size = length-buffered impl h in
      rw (sink_process_head parse fuel impl m h) (elim (head-cases (buffered impl)) [
        | inl (inl e) ↦ rw e (λ done. omega (arith, head_of-more (buffered impl) e))
        | inl (inr e) ↦ rw e (λ done. absurd (cc))
        | inr v ↦
            let w = v.0 in
            let round =
              process_frame parse impl w (sink_reserve_packets impl (impl.packet_count + 1) m) in
            let valid = (process_frame-Follows parse impl w m h v.1).valid in
            rw v.1 (
              and_then-short round (sink_process parse fuel) (λ went m'.
                sink_process-short fuel round.1 m' valid
                  (omega (arith, process_frame-len impl w m h went, v.2, v.3))))
      ])

  -- When bytes are taken with the answer OK, less than one packet of the greatest length waits in the buffer.
  pub sink_feed-short :
      (impl : Sink P) (b : ℕ) (bs : List ℕ) (m : Mem)
      → IsSink impl
      → (sink_feed parse impl (b ∷ bs) m).0 ≡ ok tt
      → sink_buffered_len (sink_feed parse impl (b ∷ bs) m).1 < max_packet_len
  unfolding sink_feed sink_buffered_len
  sink_feed-short impl b bs m h =
      let bytes = b ∷ bs in
      let reserved = sink_reserve_buf impl (length bytes) m in
      let made = sink_reserve_buf-Made impl (length bytes) m h in
      elim (Bool-cases reserved.0) [
        | inr e ↦ rw e (λ no. absurd (cc))
        | inl e ↦
            let stored = store_bytes reserved.1 bytes in
            let put = store_bytes-buffered reserved.1 bytes made.0.valid (made.1 e) in
            rw e (sink_process-short stored.buf_len stored reserved.2 put.0 (omega arith))
      ]
