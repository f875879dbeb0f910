-- ===== src/Packet/RoundTrip.antt =====
-- Whole messages of src/packet.c, written and read back, and in a stream.
use libbgp.Prelude.{
  ℕ, ◌+◌, ◌≤◌, ◌≡◌, refl, List, ◌∷◌, ◌++◌, true, false, ltb, ◌||◌, length, drop, replicate, arith,
  length-append, ge→ltb,
}
use libbgp.Prelude.Errors
use libbgp.Prelude.Wire.{bgp_get_be16, bgp_put_be16}
use libbgp.Sink.{header_len, max_packet_len, all_ones, sink_marker_valid}
use libbgp.Sink.Frames.{head_of, whole}
use libbgp.Packet.{Packet, max_body_len}

-- A whole message, with a header before its body.
abbrev pub message : ℕ → List ℕ → List ℕ
message raw_type body =
    replicate 16 255 ++ (bgp_put_be16 (header_len + length body) ++ raw_type ∷ body)

wire_len-message :
    (raw_type : ℕ) (body rest : List ℕ)
    → length body ≤ max_body_len
    → bgp_get_be16 (drop 16 (message raw_type body ++ rest)) ≡ 19 + length body
wire_len-message raw_type body rest h = omega arith

marker-message :
    (raw_type : ℕ) (body rest : List ℕ) → sink_marker_valid (message raw_type body ++ rest) ≡ true
unfolding all_ones
marker-message raw_type body rest = refl

-- In a stream a message is cut off whole.
pub head_of-message :
    (raw_type : ℕ) (body rest : List ℕ)
    → length body ≤ max_body_len
    → head_of (message raw_type body ++ rest) ≡ whole (19 + length body)
unfolding head_of
head_of-message raw_type body rest h =
    let n = 19 + length body in
    let buf = message raw_type body ++ rest in
    let size = length-append (message raw_type body) rest in
    let long : ltb (length buf) header_len ≡ false =
      ge→ltb (length buf) header_len (omega (arith, size)) in
    let sane : (ltb n header_len || ltb max_packet_len n) ≡ false = ground arith in
    let there : ltb (length buf) n ≡ false = ge→ltb (length buf) n (omega (arith, size)) in
    rw (long, marker-message raw_type body rest, wire_len-message raw_type body rest h, sane, there)
      refl
