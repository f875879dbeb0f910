-- ===== src/Sink/Steps.antt =====
-- What a call of src/sink.c leaves behind, whatever the allocator and the parser answer.
use libbgp.Prelude.{
  ℕ, zero, suc, ◌+◌, ◌<◌, ◌≡◌, inl, inr, refl, sym, ap, ◌∙◌, subst, List, [], ◌∷◌, ◌++◌, some, ltb,
  leb, ◌==◌, ◌||◌, length, take, drop, arith, Bool-cases, append-nil, append_assoc, All, All-append,
  ==→eq, Bool,
}
use mathlib.Core.List.{map, map-append}
use libbgp.Prelude.Errors.{Result, ok, err, bad_len, Mem}
use libbgp.Prelude.Wire.{bgp_get_be16}
use libbgp.Sink.{
  Sink, Parser, Fed, header_len, max_packet_len, buffered, waiting, sink_marker_valid, reset_buf,
  sink_reserve_packets, sink_reserve_buf, sink_drop_buffer_prefix, push_packet,
}
use libbgp.Sink.Ops.{take_packet, process_frame, and_then, sink_process, sink_feed, store_bytes}
use libbgp.Sink.Frames.{Head, more, malformed, whole, head_of, head-cases}
use libbgp.Sink.Parsed.{IsFrame, IsParsed, take-IsFrame}
use libbgp.Sink.Room.{sink_reserve_buf-Made}
use libbgp.Sink.Buffer.{
  IsSink, Keeps, Keeps-refl, length-buffered, buffer_IsSink, store_bytes-buffered,
  drop_prefix-buffered,
}
use libbgp.Sink.Ring.{push_packet-waiting, sink_reserve_packets-Keeps}

module _ {P : Type 0} (parse : Parser P) where
  -- The packets that waited wait on, and the new ones behind them are each what the parser made of a whole
  -- message; memory keeps its size, and what waits lies in it.
  pub record Follows (impl impl' : Sink P) : Type 0 where
    pub valid : IsSink impl'
    pub added : List P
    pub parsed : All (IsParsed parse) added
    pub queue : waiting impl' ≡ waiting impl ++ map some added

  -- A round by what the first bytes say.
  abbrev pub on_verdict : ℕ → Sink P → Mem → Head → Fed P
  on_verdict fuel impl m more = (ok tt, impl, m)
  on_verdict fuel impl m malformed = (err bad_len, reset_buf impl, m)
  on_verdict fuel impl m (whole w) =
      and_then (process_frame parse impl w (sink_reserve_packets impl (impl.packet_count + 1) m))
        (sink_process parse fuel)

  pub sink_process_head :
      (fuel : ℕ) (impl : Sink P) (m : Mem)
      → IsSink impl
      → sink_process parse (suc fuel) impl m ≡ on_verdict fuel impl m (head_of (buffered impl))
  unfolding sink_process head_of
  sink_process_head fuel impl m h =
      let bytes = buffered impl in
      let w = bgp_get_be16 (drop 16 bytes) in
      let size : length bytes ≡ impl.buf_len = length-buffered impl h in
      elim (Bool-cases (ltb impl.buf_len header_len)) [
        | inl e ↦ rw (size, e) refl
        | inr e ↦ elim (Bool-cases (sink_marker_valid bytes)) [
          | inr n ↦ rw (size, e, n) refl
          | inl y ↦ elim (Bool-cases (ltb w header_len || ltb max_packet_len w)) [
            | inl bad ↦ rw (size, e, y, bad) refl
            | inr good ↦ elim (Bool-cases (ltb impl.buf_len w)) [
              | inl short ↦ rw (size, e, y, good, short) refl
              | inr full ↦ rw (size, e, y, good, full) refl
            ]
          ]
        ]
      ]

  Keeps-Follows : (impl impl' : Sink P) → Keeps impl impl' → Follows impl impl'
  Keeps-Follows impl impl' k = record {
    valid = k.valid;
    added = [];
    parsed = tt;
    queue = k.queue ∙ sym (append-nil (waiting impl));
  }

  Follows-trans : (a b c : Sink P) → Follows a b → Follows b c → Follows a c
  Follows-trans a b c h k = record {
    valid = k.valid;
    added = h.added ++ k.added;
    parsed = All-append (IsParsed parse) h.added k.added h.parsed k.parsed;
    queue =
        k.queue
        ∙ ap (λ t. t ++ map some k.added) h.queue
        ∙ append_assoc (waiting a) (map some h.added) (map some k.added)
        ∙ ap (λ t. waiting a ++ t) (sym (map-append some h.added k.added));
  }

  -- The buffer's front is dropped; the ring is untouched.
  drop-Follows :
      (impl : Sink P) (w : ℕ) → IsSink impl → Follows impl (sink_drop_buffer_prefix impl w)
  unfolding sink_drop_buffer_prefix
  drop-Follows impl w h = record {
    valid = (drop_prefix-buffered impl w h).0;
    added = [];
    parsed = tt;
    queue =
        elim (Bool-cases (leb impl.buf_len w)) [ inl e ↦ rw e refl | inr e ↦ rw e refl ]
        ∙ sym (append-nil (waiting impl));
  }

  push-Follows :
      (impl : Sink P) (pkt : P) (w : ℕ)
      → IsSink impl
      → impl.packet_count < impl.packet_cap
      → IsParsed parse pkt
      → Follows impl (sink_drop_buffer_prefix (push_packet impl pkt) w)
  push-Follows impl pkt w h free born =
      let pushed = push_packet-waiting impl pkt h free in
      Follows-trans impl (push_packet impl pkt) (sink_drop_buffer_prefix (push_packet impl pkt) w)
        (record { valid = pushed.0; added = pkt ∷ []; parsed = (born, tt); queue = pushed.1 })
        (drop-Follows (push_packet impl pkt) w pushed.0)

  take_packet-Follows :
      (impl : Sink P) (four : Bool) (frame : List ℕ) (m : Mem) (r : Result (P × ℕ) × Mem)
      → IsSink impl
      → impl.packet_count < impl.packet_cap
      → IsFrame frame
      → parse four frame m ≡ r
      → Follows impl (take_packet parse impl (length frame) r).1
  unfolding take_packet
  take_packet-Follows impl four frame m (err e, m') h free is_frame said =
      drop-Follows impl (length frame) h
  take_packet-Follows impl four frame m (ok r, m') h free is_frame said =
      elim (Bool-cases (r.1 == length frame)) [
        | inr e ↦ rw e (drop-Follows impl (length frame) h)
        | inl e ↦
            let all : r.1 ≡ length frame = ==→eq r.1 (length frame) e in
            let born : IsParsed parse r.0 = record {
              four = four;
              frame = frame;
              before = m;
              after = m';
              is_frame = is_frame;
              parsed = said ∙ ap (λ (n : ℕ). (ok (r.0, n), m')) all;
            } in
            rw e (push-Follows impl r.0 (length frame) h free born)
      ]

  pub process_frame-Follows :
      (impl : Sink P) (w : ℕ) (m : Mem)
      → IsSink impl
      → head_of (buffered impl) ≡ whole w
      → Follows impl
          (process_frame parse impl w (sink_reserve_packets impl (impl.packet_count + 1) m)).1
  unfolding process_frame
  process_frame-Follows impl w m h there =
      let reserved = sink_reserve_packets impl (impl.packet_count + 1) m in
      let k = sink_reserve_packets-Keeps impl m h in
      elim (Bool-cases reserved.0) [
        | inr e ↦ rw e (Keeps-Follows impl reserved.1 k.0)
        | inl e ↦
            let four = reserved.1.use_4b_asn in
            let frame = take w (buffered reserved.1) in
            let answer = parse four frame reserved.2 in
            let is_frame = take-IsFrame (buffered reserved.1) w (ap head_of k.0.bytes ∙ there) in
            let taken : Follows reserved.1 (take_packet parse reserved.1 w answer).1 =
              subst (λ (n : ℕ). Follows reserved.1 (take_packet parse reserved.1 n answer).1)
                is_frame.1
                (take_packet-Follows reserved.1 four frame reserved.2 answer k.0.valid
                  (omega (arith, k.0.count, k.1 e)) is_frame.0 refl) in
            rw e (
              Follows-trans impl reserved.1 (take_packet parse reserved.1 w answer).1
                (Keeps-Follows impl reserved.1 k.0) taken)
      ]

  and_then-Follows :
      (impl : Sink P) (r : Fed P) (go : Sink P → Mem → Fed P)
      → Follows impl r.1
      → ((impl' : Sink P) (m : Mem) → IsSink impl' → Follows impl' (go impl' m).1)
      → Follows impl (and_then r go).1
  and_then-Follows impl (ok u, next, m) go h k =
      Follows-trans impl next (go next m).1 h (k next m h.valid)
  and_then-Follows impl (err e, next, m) go h k = h

  pub sink_process-Follows :
      (fuel : ℕ) (impl : Sink P) (m : Mem)
      → IsSink impl
      → Follows impl (sink_process parse fuel impl m).1
  unfolding sink_process
  sink_process-Follows zero impl m h = Keeps-Follows impl impl (Keeps-refl impl h)
  sink_process-Follows (suc fuel) impl m h =
      subst (λ (r : Fed P). Follows impl r.1) (sym (sink_process_head fuel impl m h))
        (elim (head-cases (buffered impl)) [
          | inl (inl e) ↦ rw e (Keeps-Follows impl impl (Keeps-refl impl h))
          | inl (inr e) ↦ rw e (record {
            valid = buffer_IsSink impl impl.buf 0 0 impl.buf_cap h h.stored (omega arith) h.sized;
            added = [];
            parsed = tt;
            queue = sym (append-nil (waiting impl));
          })
          | inr v ↦
              let round =
                process_frame parse impl v.0
                  (sink_reserve_packets impl (impl.packet_count + 1) m) in
              rw v.1 (
                and_then-Follows impl round (sink_process parse fuel)
                  (process_frame-Follows impl v.0 m h v.1)
                  (λ next m' k. sink_process-Follows fuel next m' k))
        ])

  store-Follows :
      (impl : Sink P) (bytes : List ℕ)
      → IsSink (store_bytes impl bytes)
      → Follows impl (store_bytes impl bytes)
  unfolding store_bytes
  store-Follows impl bytes h = record {
    valid = h;
    added = [];
    parsed = tt;
    queue = sym (append-nil (waiting impl));
  }

  -- Whatever bytes arrive at a valid sink, and whatever the parser and the allocator answer: the sink stays
  -- valid, so that the memory of the buffer and of the ring has the sizes that the sink says and all that
  -- waits lies inside; the packets that waited still wait in their order; and each new packet behind them is
  -- what the parser made, to the last byte, of one whole message, which has the marker, a length from 19 to
  -- 4096, and exactly as many bytes as its length field says.
  pub sink_feed-Follows :
      (impl : Sink P) (bytes : List ℕ) (m : Mem)
      → IsSink impl
      → Follows impl (sink_feed parse impl bytes m).1
  unfolding sink_feed
  sink_feed-Follows impl [] m h = Keeps-Follows impl impl (Keeps-refl impl h)
  sink_feed-Follows impl (b ∷ bs) m h =
      let bytes = b ∷ bs in
      let reserved = sink_reserve_buf impl (length bytes) m in
      let made = sink_reserve_buf-Made impl (length bytes) m h in
      elim (Bool-cases reserved.0) [
        | inr e ↦ rw e (Keeps-Follows impl reserved.1 made.0)
        | inl e ↦
            let stored = store_bytes reserved.1 bytes in
            let put = store_bytes-buffered reserved.1 bytes made.0.valid (made.1 e) in
            rw e (
              Follows-trans impl reserved.1 (sink_process parse stored.buf_len stored reserved.2).1
                (Keeps-Follows impl reserved.1 made.0)
                (Follows-trans reserved.1 stored
                  (sink_process parse stored.buf_len stored reserved.2).1
                  (store-Follows reserved.1 bytes put.0)
                  (sink_process-Follows stored.buf_len stored reserved.2 put.0)))
      ]
