-- ===== src/Tests/Streams.antt =====
-- Streams of bytes for src/sink.c.
use libbgp.Prelude.{
  ℕ, ◌≡◌, refl, List, [], ◌∷◌, true, false, some, length, drop, ap, ◌∙◌, arith, ◌<◌,
}
use libbgp.Prelude.Errors.{ok}
use libbgp.Sink.{
  Sink, Parser, max_packet_len, buffered, waiting, sink_reserve_buf, grow_buf, first_cap, copy_to,
  all_ones, slots,
}
use libbgp.Prelude.Growth.{double_until}
use mathlib.Core.List.{map}
use libbgp.Sink.Ops.{sink_feed, sink_process, store_bytes, sink_pop, sink_buffered_len}
use libbgp.Sink.Frames.{Cut, framed, frames, head_of}
use libbgp.Sink.Buffer.{IsSink}
use libbgp.Sink.Ring.{sink_pop-waiting}
use libbgp.Sink.Steps.{Follows, sink_feed-Follows}
use libbgp.Sink.Short.{sink_feed-short}
use libbgp.Sink.Refine.{Cuts, reads}
use libbgp.Sink.Feed.{IsSmall, sink_feed-Cuts, sink_feed-append}

-- A parser that takes all bytes of a frame and answers with their number.
abbrev count_bytes : Parser ℕ
count_bytes four bytes m = (ok (length bytes, length bytes), m)

abbrev fresh : Sink ℕ
fresh = record {
  buf = [];
  buf_off = 0;
  buf_len = 0;
  buf_cap = 0;
  packets = [];
  packet_head = 0;
  packet_count = 0;
  packet_cap = 0;
  use_4b_asn = false;
}

fresh-IsSink : IsSink fresh
fresh-IsSink = record {
  stored = refl;
  room = omega arith;
  sized = omega arith;
  slotted = refl;
  fits = omega arith;
  head_in = λ pos. absurd (omega arith);
  small = omega arith;
}

abbrev marker : List ℕ
marker =
    255 ∷ 255 ∷ 255 ∷ 255 ∷ 255 ∷ 255 ∷ 255 ∷ 255 ∷ 255 ∷ 255 ∷ 255 ∷ 255 ∷ 255 ∷ 255 ∷ 255 ∷ 255
    ∷ []

-- A KEEPALIVE message without its first byte, and the first bytes of another.
abbrev rest_bytes : List ℕ
rest_bytes =
    255 ∷ 255 ∷ 255 ∷ 255 ∷ 255 ∷ 255 ∷ 255 ∷ 255 ∷ 255 ∷ 255 ∷ 255 ∷ 255 ∷ 255 ∷ 255 ∷ 255 ∷ 0 ∷ 19
    ∷ 4 ∷ 255 ∷ 255 ∷ []

abbrev first_byte : Sink ℕ
first_byte = (sink_feed count_bytes fresh (255 ∷ []) []).1

abbrev one_waiting : Sink ℕ
one_waiting = (sink_feed count_bytes fresh (255 ∷ rest_bytes) []).1

first_byte-IsSmall : IsSmall first_byte (length rest_bytes)
unfolding sink_feed sink_reserve_buf grow_buf double_until first_cap store_bytes sink_process
    copy_to
first_byte-IsSmall = record { cap = omega arith; all = omega arith }

first_byte-ok : (sink_feed count_bytes fresh (255 ∷ []) []).0 ≡ ok tt
unfolding sink_feed sink_reserve_buf grow_buf double_until first_cap store_bytes sink_process
    copy_to
first_byte-ok = refl

sink_feed-Cuts_example :
    Cuts fresh
      (sink_feed count_bytes fresh (255 ∷ rest_bytes) [])
      (framed (reads count_bytes false) (255 ∷ rest_bytes))
sink_feed-Cuts_example =
    sink_feed-Cuts count_bytes fresh 255 rest_bytes (λ four bytes. refl) fresh-IsSink
      (record { cap = omega arith; all = omega arith })

-- The frame is one packet, and two bytes are left.
framed_test : framed (reads count_bytes false) (255 ∷ rest_bytes) ≡ (ok tt, 255 ∷ 255 ∷ [], 19 ∷ [])
unfolding frames head_of all_ones
framed_test = refl

sink_feed-append_example :
    let first = sink_feed count_bytes fresh (255 ∷ []) [] in
    let parts = sink_feed count_bytes first.1 rest_bytes [] in
    let once = sink_feed count_bytes fresh (255 ∷ rest_bytes) [] in
    (parts.0 ≡ once.0) × (buffered parts.1 ≡ buffered once.1) × (waiting parts.1 ≡ waiting once.1)
sink_feed-append_example =
    sink_feed-append count_bytes fresh 255 255 [] (drop 1 rest_bytes) (λ four bytes. refl)
      fresh-IsSink (record { cap = omega arith; all = omega arith }) first_byte-IsSmall
      first_byte-ok

-- The allocator fails when the ring is to grow: the bytes stay.
sink_feed-Follows_example :
    Follows count_bytes fresh (sink_feed count_bytes fresh (255 ∷ rest_bytes) (true ∷ false ∷ [])).1
sink_feed-Follows_example =
    sink_feed-Follows count_bytes fresh (255 ∷ rest_bytes) (true ∷ false ∷ []) fresh-IsSink

sink_feed-short_example : sink_buffered_len first_byte < max_packet_len
sink_feed-short_example = sink_feed-short count_bytes fresh 255 [] [] fresh-IsSink first_byte-ok

one_waiting-IsSink : IsSink one_waiting
one_waiting-IsSink = sink_feed-Cuts_example.valid

one_waiting-queue : waiting one_waiting ≡ some 19 ∷ []
unfolding slots frames
one_waiting-queue = sink_feed-Cuts_example.queue ∙ ap (λ (t : Cut ℕ). map some t.2) framed_test

sink_pop-waiting_example :
    let r = sink_pop one_waiting in
    (r.0 ≡ ok (some 19)) × IsSink r.1 × (waiting r.1 ≡ []) × (buffered r.1 ≡ buffered one_waiting)
sink_pop-waiting_example =
    sink_pop-waiting one_waiting (some 19) [] one_waiting-IsSink one_waiting-queue
