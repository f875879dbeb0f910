-- ===== src/Sink/Refine.antt =====
-- src/sink.c does what its framing promises while the allocator does not fail: the buffer and the ring
-- present the answer, the bytes left and the packets of `framed`.
use libbgp.Prelude.{
  ℕ, zero, suc, ◌+◌, ◌-◌, ◌^◌, ◌≤◌, ◌<◌, ◌≡◌, inl, inr, refl, sym, ap, ap₂, ◌∙◌, subst, List, [],
  ◌∷◌, ◌++◌, Bool, some, leb, ◌==◌, take, drop, arith, Bool-cases, append-nil, append_assoc,
}
use mathlib.Core.List.{map}
use libbgp.Prelude.Errors.{Result, ok, err, bad_len, ErrorCode}
use libbgp.Sink.{
  Sink, Parser, Fed, buffered, waiting, sink_reserve_packets, sink_drop_buffer_prefix, push_packet,
}
use libbgp.Sink.Ops.{take_packet, process_frame, and_then, sink_process}
use libbgp.Sink.Frames.{head-cases, Cut, prepend, on_packet, frames}
use libbgp.Sink.Buffer.{IsSink, Keeps, length-buffered, buffer_IsSink, drop_prefix-buffered}
use libbgp.Sink.Ring.{push_packet-waiting, sink_reserve_packets-Keeps}
use libbgp.Sink.Steps.{sink_process_head}
use libbgp.Sink.Answers.{reserve_packets-answers}

module _ {P : Type 0} where
  -- The sink `impl'` and its answer are what the framing `cut` of the bytes says of `impl`.
  pub record Cuts (impl : Sink P) (r : Fed P) (cut : Cut P) : Type 0 where
    pub answer : r.0 ≡ cut.0
    pub valid : IsSink r.1
    pub left : buffered r.1 ≡ cut.1
    pub queue : waiting r.1 ≡ waiting impl ++ map some cut.2
    pub flag : r.1.use_4b_asn ≡ impl.use_4b_asn
    pub spare : r.2 ≡ []

  drop-queue : (impl : Sink P) (w : ℕ) → waiting (sink_drop_buffer_prefix impl w) ≡ waiting impl
  unfolding sink_drop_buffer_prefix
  drop-queue impl w = elim (Bool-cases (leb impl.buf_len w)) [
    | inl e ↦ rw e refl
    | inr e ↦ rw e refl
  ]

  drop-flag :
      (impl : Sink P) (w : ℕ) → (sink_drop_buffer_prefix impl w).use_4b_asn ≡ impl.use_4b_asn
  unfolding sink_drop_buffer_prefix
  drop-flag impl w = elim (Bool-cases (leb impl.buf_len w)) [
    | inl e ↦ rw e refl
    | inr e ↦ rw e refl
  ]

  -- A frame is dropped after an answer that is no packet.
  drop-Cuts :
      (impl impl' : Sink P) (w : ℕ) (e : ErrorCode)
      → Keeps impl impl'
      → Cuts impl (err e, sink_drop_buffer_prefix impl' w, []) (err e, drop w (buffered impl), [])
  drop-Cuts impl impl' w e k =
      let d = drop_prefix-buffered impl' w k.valid in
      record {
        answer = refl;
        valid = d.0;
        left = d.1 ∙ ap (drop w) k.bytes;
        queue = drop-queue impl' w ∙ k.queue ∙ sym (append-nil (waiting impl));
        flag = drop-flag impl' w ∙ k.flag;
        spare = refl;
      }

  next_counts :
      (impl : Sink P) (pkt : P) (w : ℕ)
      → let next = sink_drop_buffer_prefix (push_packet impl pkt) w in
        (next.packet_count ≡ impl.packet_count + 1)
        × (next.buf_len ≡ impl.buf_len - w)
        × (next.use_4b_asn ≡ impl.use_4b_asn)
        × (buffered (push_packet impl pkt) ≡ buffered impl)
  unfolding sink_drop_buffer_prefix push_packet
  next_counts impl pkt w = elim (Bool-cases (leb impl.buf_len w)) [
    | inl e ↦ rw e (refl, ground arith, refl, refl)
    | inr e ↦ rw e (refl, refl, refl, refl)
  ]

module _ {P : Type 0} (parse : Parser P) where
  -- A packet is queued, its frame dropped, and the rest follows.
  push-Cuts :
      (impl impl' : Sink P) (pkt : P) (w : ℕ) (rest : Fed P) (cut : Cut P)
      → Keeps impl impl'
      → impl'.packet_count < impl'.packet_cap
      → Cuts (sink_drop_buffer_prefix (push_packet impl' pkt) w) rest cut
      → Cuts impl rest (prepend (pkt ∷ []) cut)
  unfolding push_packet
  push-Cuts impl impl' pkt w rest cut k free r =
      let pushed = push_packet-waiting impl' pkt k.valid free in
      record {
        answer = r.answer;
        valid = r.valid;
        left = r.left;
        queue =
            r.queue
            ∙ ap (λ t. t ++ map some cut.2) (drop-queue (push_packet impl' pkt) w ∙ pushed.1)
            ∙ append_assoc (waiting impl') (some pkt ∷ []) (map some cut.2)
            ∙ ap (λ t. t ++ some pkt ∷ map some cut.2) k.queue;
        flag = r.flag ∙ drop-flag (push_packet impl' pkt) w ∙ k.flag;
        spare = r.spare;
      }

  frame-Cuts :
      (fuel : ℕ) (impl impl' : Sink P) (w : ℕ) (r : Result (P × ℕ)) (rest : Cut P)
      → Keeps impl impl'
      → impl'.packet_count < impl'.packet_cap
      → ((pkt : P)
          → let next = sink_drop_buffer_prefix (push_packet impl' pkt) w in
            Cuts next (sink_process parse fuel next []) rest)
      → Cuts impl
          (and_then (take_packet parse impl' w (r, [])) (sink_process parse fuel))
          (on_packet w (buffered impl) r rest)
  unfolding take_packet
  frame-Cuts fuel impl impl' w (err e) rest k free h = drop-Cuts impl impl' w e k
  frame-Cuts fuel impl impl' w (ok r) rest k free h = elim (Bool-cases (r.1 == w)) [
    | inr e ↦ rw e (drop-Cuts impl impl' w bad_len k)
    | inl e ↦
        let next = sink_drop_buffer_prefix (push_packet impl' r.0) w in
        rw e (push-Cuts impl impl' r.0 w (sink_process parse fuel next []) rest k free (h r.0))
  ]

  -- The parser's answers when the allocator does not fail.
  abbrev pub reads : Bool → List ℕ → Result (P × ℕ)
  reads four bytes = (parse four bytes []).0

  process_frame-Cuts :
      (fuel : ℕ) (impl : Sink P) (w : ℕ) (rest : Cut P)
      → ((four : Bool) (bytes : List ℕ) → (parse four bytes []).1 ≡ [])
      → IsSink impl
      → impl.packet_count < 2 ^ 56
      → ((impl' : Sink P) (pkt : P)
          → Keeps impl impl'
          → impl'.packet_count < impl'.packet_cap
          → let next = sink_drop_buffer_prefix (push_packet impl' pkt) w in
            Cuts next (sink_process parse fuel next []) rest)
      → Cuts impl
          (and_then
            (process_frame parse impl w (sink_reserve_packets impl (impl.packet_count + 1) []))
            (sink_process parse fuel))
          (on_packet w (buffered impl) (reads impl.use_4b_asn (take w (buffered impl))) rest)
  unfolding process_frame
  process_frame-Cuts fuel impl w rest quiet h few later =
      let r = sink_reserve_packets impl (impl.packet_count + 1) [] in
      let yes = reserve_packets-answers impl h few in
      let k = sink_reserve_packets-Keeps impl [] h in
      let free : r.1.packet_count < r.1.packet_cap = omega (arith, k.0.count, k.1 yes.0) in
      let asked : parse r.1.use_4b_asn (take w (buffered r.1)) r.2
          ≡ (reads impl.use_4b_asn (take w (buffered impl)), []) =
        ap₂ (λ f b. parse f (take w b) r.2) k.0.flag k.0.bytes
        ∙ ap (parse impl.use_4b_asn (take w (buffered impl))) yes.1
        ∙ ap (λ m. (reads impl.use_4b_asn (take w (buffered impl)), m))
            (quiet impl.use_4b_asn (take w (buffered impl))) in
      rw (yes.0, asked)
        (frame-Cuts fuel impl r.1 w (reads impl.use_4b_asn (take w (buffered impl))) rest k.0 free
          (λ pkt. later r.1 pkt k.0 free))

  pub sink_process-Cuts :
      (fuel : ℕ) (impl : Sink P)
      → ((four : Bool) (bytes : List ℕ) → (parse four bytes []).1 ≡ [])
      → IsSink impl
      → impl.packet_count + impl.buf_len ≤ 2 ^ 56
      → Cuts impl
          (sink_process parse fuel impl [])
          (frames (reads impl.use_4b_asn) fuel (buffered impl))
  unfolding sink_process frames
  sink_process-Cuts zero impl quiet h few = record {
    answer = refl;
    valid = h;
    left = refl;
    queue = sym (append-nil (waiting impl));
    flag = refl;
    spare = refl;
  }
  sink_process-Cuts (suc fuel) impl quiet h few =
      let q = reads impl.use_4b_asn in
      let size = length-buffered impl h in
      rw (sink_process_head parse fuel impl [] h) (elim (head-cases (buffered impl)) [
        | inl (inl e) ↦ rw e (record {
          answer = refl;
          valid = h;
          left = refl;
          queue = sym (append-nil (waiting impl));
          flag = refl;
          spare = refl;
        })
        | inl (inr e) ↦ rw e (record {
          answer = refl;
          valid = buffer_IsSink impl impl.buf 0 0 impl.buf_cap h h.stored (omega arith) h.sized;
          left = refl;
          queue = sym (append-nil (waiting impl));
          flag = refl;
          spare = refl;
        })
        | inr v ↦
            let w = v.0 in
            rw v.1 (
              process_frame-Cuts fuel impl w (frames q fuel (drop w (buffered impl))) quiet h
                (omega (arith, v.2, v.3))
                (λ impl' pkt k free.
                  let next = sink_drop_buffer_prefix (push_packet impl' pkt) w in
                  let d =
                    drop_prefix-buffered (push_packet impl' pkt) w
                      (push_packet-waiting impl' pkt k.valid free).0 in
                  let now = next_counts impl' pkt w in
                  let rest =
                    sink_process-Cuts fuel next quiet d.0
                      (omega (arith, v.2, v.3, k.count, k.len, now.0, now.1)) in
                  let same : frames (reads next.use_4b_asn) fuel (buffered next)
                      ≡ frames q fuel (drop w (buffered impl)) =
                    ap₂ (λ f b. frames (reads f) fuel b) (now.2 ∙ k.flag)
                      (d.1 ∙ ap (drop w) (now.3 ∙ k.bytes)) in
                  subst (Cuts next (sink_process parse fuel next [])) same rest))
      ])
