-- ===== src/Sink/Feed.antt =====
-- Feeding bytes to src/sink.c, in one part or in several.
use libbgp.Prelude.{
  ℕ, ◌+◌, ◌^◌, ◌≤◌, ◌≡◌, refl, sym, ap, ap₂, ◌∙◌, subst, List, [], ◌∷◌, ◌++◌, Bool, length, arith,
  length-append, append_assoc,
}
use mathlib.Core.List.{map, map-append}
use mathlib.Core.Option.{some}
use libbgp.Prelude.Errors.{ok}
use libbgp.Sink.{Sink, Parser, Fed, buffered, waiting, sink_reserve_buf}
use libbgp.Sink.Ops.{sink_process, sink_feed, store_bytes}
use libbgp.Sink.Frames.{Cut, prepend, frames, framed, framed-append}
use libbgp.Sink.Room.{sink_reserve_buf-Made}
use libbgp.Sink.Buffer.{IsSink, length-buffered, store_bytes-buffered}
use libbgp.Sink.Answers.{reserve_buf-answers}
use libbgp.Sink.Refine.{Cuts, reads, sink_process-Cuts}

-- Memory is far from its end, `n` more bytes included.
pub record IsSmall {P : Type 0} (impl : Sink P) (n : ℕ) : Type 0 where
  pub cap : impl.buf_cap ≤ 2 ^ 62
  pub all : impl.packet_count + impl.buf_len + n ≤ 2 ^ 56

module _ {P : Type 0} where
  store_counts :
      (impl : Sink P) (bytes : List ℕ)
      → let stored = store_bytes impl bytes in
        (stored.packet_count ≡ impl.packet_count)
        × (stored.buf_len ≡ impl.buf_len + length bytes)
        × (stored.use_4b_asn ≡ impl.use_4b_asn)
        × (waiting stored ≡ waiting impl)
  unfolding store_bytes
  store_counts impl bytes = (refl, refl, refl, refl)

  -- Of two sinks with the same packets, the one can stand for the other.
  Cuts-from :
      (impl impl' : Sink P) (r : Fed P) (cut : Cut P)
      → waiting impl' ≡ waiting impl
      → impl'.use_4b_asn ≡ impl.use_4b_asn
      → Cuts impl' r cut
      → Cuts impl r cut
  Cuts-from impl impl' r cut queue flag c = record {
    answer = c.answer;
    valid = c.valid;
    left = c.left;
    queue = c.queue ∙ ap (λ t. t ++ map some cut.2) queue;
    flag = c.flag ∙ flag;
    spare = c.spare;
  }

module _ {P : Type 0} (parse : Parser P) where
  -- Feeding bytes refines the framing. If no allocation fails, the parser takes none of the allocator's
  -- outcomes, the sink is valid, its buffer has at most 2^62 bytes, and the packets, the bytes that wait and
  -- the new bytes are at most 2^56 in number, then a call with at least one byte answers as `framed` does on
  -- the waiting bytes and the new ones, keeps the bytes that it leaves, and queues its packets behind those
  -- that wait.
  pub sink_feed-Cuts :
      (impl : Sink P) (b : ℕ) (bs : List ℕ)
      → ((four : Bool) (bytes : List ℕ) → (parse four bytes []).1 ≡ [])
      → IsSink impl
      → IsSmall impl (length (b ∷ bs))
      → Cuts impl
          (sink_feed parse impl (b ∷ bs) [])
          (framed (reads parse impl.use_4b_asn) (buffered impl ++ b ∷ bs))
  unfolding sink_feed
  sink_feed-Cuts impl b bs quiet h small =
      let bytes = b ∷ bs in
      let n = length bytes in
      let r = sink_reserve_buf impl n [] in
      let yes = reserve_buf-answers impl n h small.cap (omega (arith, small.all)) in
      let made = sink_reserve_buf-Made impl n [] h in
      let put = store_bytes-buffered r.1 bytes made.0.valid (made.1 yes.0) in
      let stored = store_bytes r.1 bytes in
      let size = length-buffered stored put.0 in
      let now = store_counts r.1 bytes in
      let flag : stored.use_4b_asn ≡ impl.use_4b_asn = now.2 ∙ made.0.flag in
      let joined : buffered stored ≡ buffered impl ++ bytes =
        put.1 ∙ ap (λ t. t ++ bytes) made.0.bytes in
      let done =
        sink_process-Cuts parse stored.buf_len stored quiet put.0
          (omega (arith, now.0, now.1, made.0.count, made.0.len, small.all)) in
      let same : frames (reads parse stored.use_4b_asn) stored.buf_len (buffered stored)
          ≡ framed (reads parse impl.use_4b_asn) (buffered impl ++ bytes) =
        ap (λ (f : ℕ). frames (reads parse stored.use_4b_asn) f (buffered stored)) (sym size)
        ∙ ap₂ (λ f t. framed (reads parse f) t) flag joined in
      rw (yes.0, yes.1)
        (Cuts-from impl stored (sink_process parse stored.buf_len stored [])
          (framed (reads parse impl.use_4b_asn) (buffered impl ++ bytes)) (now.3 ∙ made.0.queue)
          flag (subst (Cuts stored (sink_process parse stored.buf_len stored [])) same done))

  -- A stream may arrive in parts. If no allocation fails, the parser takes none of the allocator's outcomes,
  -- the sink is valid, at either part that is fed its buffer has at most 2^62 bytes and the packets, the bytes
  -- that wait and the new bytes are at most 2^56 in number, both parts have at least one byte, and the first
  -- part is answered by OK, then feeding the second part answers, keeps and queues what feeding both parts
  -- in one call does.
  pub sink_feed-append :
      (impl : Sink P) (b c : ℕ) (bs cs : List ℕ)
      → ((four : Bool) (bytes : List ℕ) → (parse four bytes []).1 ≡ [])
      → IsSink impl
      → IsSmall impl (length (b ∷ bs ++ c ∷ cs))
      → IsSmall (sink_feed parse impl (b ∷ bs) []).1 (length (c ∷ cs))
      → (sink_feed parse impl (b ∷ bs) []).0 ≡ ok tt
      → let first = sink_feed parse impl (b ∷ bs) [] in
        let parts = sink_feed parse first.1 (c ∷ cs) [] in
        let once = sink_feed parse impl (b ∷ bs ++ c ∷ cs) [] in
        (parts.0 ≡ once.0)
        × (buffered parts.1 ≡ buffered once.1)
        × (waiting parts.1 ≡ waiting once.1)
  sink_feed-append impl b c bs cs quiet h small small' went =
      let q = reads parse impl.use_4b_asn in
      let xs = b ∷ bs in
      let ys = c ∷ cs in
      let old = buffered impl in
      let first = sink_feed parse impl xs [] in
      let a =
        sink_feed-Cuts impl b bs quiet h
          (record { cap = small.cap; all = omega (arith, small.all, length-append xs ys) }) in
      let z = sink_feed-Cuts first.1 c cs quiet a.valid small' in
      let o = sink_feed-Cuts impl b (bs ++ ys) quiet h small in
      let cut = framed q (old ++ xs) in
      let split : framed q (old ++ (xs ++ ys)) ≡ prepend cut.2 (framed q (cut.1 ++ ys)) =
        ap (framed q) (sym (append_assoc old xs ys))
        ∙ framed-append q (length (old ++ xs)) (old ++ xs) ys (omega arith) (sym a.answer ∙ went) in
      let last : framed (reads parse first.1.use_4b_asn) (buffered first.1 ++ ys)
          ≡ framed q (cut.1 ++ ys) =
        ap₂ (λ f t. framed (reads parse f) (t ++ ys)) a.flag a.left in
      let rest = framed q (cut.1 ++ ys) in
      (
        z.answer ∙ ap (λ (t : Cut P). t.0) last ∙ sym (o.answer ∙ ap (λ (t : Cut P). t.0) split),
        z.left ∙ ap (λ (t : Cut P). t.1) last ∙ sym (o.left ∙ ap (λ (t : Cut P). t.1) split),
        z.queue
            ∙ ap₂ (λ u (t : Cut P). u ++ map some t.2) a.queue last
            ∙ append_assoc (waiting impl) (map some cut.2) (map some rest.2)
            ∙ ap (λ t. waiting impl ++ t) (sym (map-append some cut.2 rest.2))
            ∙ sym (o.queue ∙ ap (λ (t : Cut P). waiting impl ++ map some t.2) split),
      )
