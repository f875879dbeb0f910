-- ===== src/Sink/Ops.antt =====
-- The loop of src/sink.c that cuts packets off the buffer, and the operations.
use libbgp.Prelude.{
  ℕ, zero, suc, ◌+◌, ◌-◌, ◌%◌, List, [], ◌∷◌, Option, none, ltb, ◌==◌, ◌||◌, if◌then◌else◌, length,
  get_or, set, take, drop,
}
use libbgp.Prelude.Errors.{Result, ok, err, nomem, bad_len, not_found, Mem}
use libbgp.Prelude.Wire.{bgp_get_be16}
use libbgp.Sink.{
  Sink, Parser, Fed, Reserved, header_len, max_packet_len, buffered, sink_marker_valid, reset_buf,
  sink_reserve_buf, sink_reserve_packets, sink_drop_buffer_prefix, push_packet, copy_to,
}

module _ {P : Type 0} where
  -- memcpy of the new bytes behind those that wait.
  unfoldable pub store_bytes : Sink P → List ℕ → Sink P
  store_bytes impl bytes = record impl {
    buf = copy_to (impl.buf_off + impl.buf_len) bytes impl.buf;
    buf_len = impl.buf_len + length bytes;
  }

  abbrev pub and_then : Fed P → (Sink P → Mem → Fed P) → Fed P
  and_then (ok u, impl, m) go = go impl m
  and_then (err e, impl, m) go = (err e, impl, m)

module _ {P : Type 0} (parse : Parser P) where
  -- The parser's answer on a frame of `wire_len` bytes: the packet is queued only if all were consumed.
  unfoldable pub take_packet : Sink P → ℕ → Result (P × ℕ) × Mem → Fed P
  take_packet impl wire_len (err e, m) = (err e, sink_drop_buffer_prefix impl wire_len, m)
  take_packet impl wire_len (ok r, m) =
      if r.1 == wire_len
      then (ok tt, sink_drop_buffer_prefix (push_packet impl r.0) wire_len, m)
      else (err bad_len, sink_drop_buffer_prefix impl wire_len, m)

  -- The rest of a round, when the buffer holds the whole frame.
  unfoldable pub process_frame : Sink P → ℕ → Reserved P → Fed P
  process_frame impl wire_len reserved =
      if reserved.0
      then take_packet reserved.1 wire_len
          (parse reserved.1.use_4b_asn (take wire_len (buffered reserved.1)) reserved.2)
      else (err nomem, reserved.1, reserved.2)

  -- `sink_process_locked`, on fuel; every round takes at least 19 bytes off the buffer.
  unfoldable pub sink_process : ℕ → Sink P → Mem → Fed P
  sink_process zero impl m = (ok tt, impl, m)
  sink_process (suc fuel) impl m =
      let frame = buffered impl in
      let wire_len = bgp_get_be16 (drop 16 frame) in
      let round =
        process_frame impl wire_len (sink_reserve_packets impl (impl.packet_count + 1) m) in
      if ltb impl.buf_len header_len
      then (ok tt, impl, m)
      else (if sink_marker_valid frame
          then (if ltb wire_len header_len || ltb max_packet_len wire_len
              then (err bad_len, reset_buf impl, m)
              else (if ltb impl.buf_len wire_len
                  then (ok tt, impl, m)
                  else and_then round (sink_process fuel)))
          else (err bad_len, reset_buf impl, m))

  unfoldable pub sink_feed : Sink P → List ℕ → Mem → Fed P
  sink_feed impl [] m = (ok tt, impl, m)
  sink_feed impl (b ∷ bs) m =
      let bytes = b ∷ bs in
      let reserved = sink_reserve_buf impl (length bytes) m in
      let stored = store_bytes reserved.1 bytes in
      if reserved.0
      then sink_process stored.buf_len stored reserved.2
      else (err nomem, reserved.1, reserved.2)

module _ {P : Type 0} where
  unfoldable pub sink_packet_count : Sink P → ℕ
  sink_packet_count impl = impl.packet_count

  unfoldable pub sink_buffered_len : Sink P → ℕ
  sink_buffered_len impl = impl.buf_len

  -- The slot that is handed out, and the sink without it.
  unfoldable pub sink_pop : Sink P → Result (Option P) × Sink P
  sink_pop impl =
      if impl.packet_count == 0
      then (err not_found, impl)
      else (let left = impl.packet_count - 1 in
          (
            ok (get_or impl.packets impl.packet_head none),
            record impl {
              packets = set impl.packets impl.packet_head none;
              packet_head = if left == 0 then 0 else (impl.packet_head + 1) % impl.packet_cap;
              packet_count = left;
            },
          ))
