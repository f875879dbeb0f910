-- ===== src/Sink/Parsed.antt =====
-- The bytes that src/sink.c hands to the parser of packets are those of one whole message.
use libbgp.Prelude.{
  ℕ, ◌≤◌, ◌≡◌, inl, inr, sym, ap, ◌∙◌, List, ◌++◌, Bool, true, ltb, ◌||◌, length, take, drop, arith,
  length-take, take-append-drop, Bool-cases,
}
use libbgp.Prelude.Errors.{ok, Mem}
use libbgp.Prelude.Wire.{bgp_get_be16}
use libbgp.Sink.{Parser, header_len, max_packet_len, sink_marker_valid}
use libbgp.Sink.Frames.{Head, more, malformed, whole, head_of, all_ones-append, wire_len-append}

-- A whole message: the marker, a length within the bounds of RFC 4271, and as many bytes as it says.
pub record IsFrame (frame : List ℕ) : Type 0 where
  pub marked : sink_marker_valid frame ≡ true
  pub long : header_len ≤ length frame
  pub short : length frame ≤ max_packet_len
  pub announced : bgp_get_be16 (drop 16 frame) ≡ length frame

-- A packet is what the parser makes of all bytes of a whole message.
pub record IsParsed {P : Type 0} (parse : Parser P) (pkt : P) : Type 0 where
  pub four : Bool
  pub frame : List ℕ
  pub before : Mem
  pub after : Mem
  pub is_frame : IsFrame frame
  pub parsed : parse four frame before ≡ (ok (pkt, length frame), after)

abbrev size_of_head : Head → ℕ
size_of_head (whole w) = w
size_of_head more = 0
size_of_head malformed = 0

prefix-IsFrame :
    (t rest : List ℕ) (w : ℕ)
    → length t ≡ w
    → header_len ≤ w
    → w ≤ max_packet_len
    → sink_marker_valid (t ++ rest) ≡ true
    → bgp_get_be16 (drop 16 (t ++ rest)) ≡ w
    → IsFrame t
prefix-IsFrame t rest w size low high valid says = record {
  marked = sym (all_ones-append t rest 16 (omega arith)) ∙ valid;
  long = omega arith;
  short = omega arith;
  announced = sym (wire_len-append t rest (omega arith)) ∙ says ∙ sym size;
}

-- If the first bytes say that a message of `w` bytes is there, then the first `w` bytes are one.
pub take-IsFrame :
    (bytes : List ℕ) (w : ℕ)
    → head_of bytes ≡ whole w
    → IsFrame (take w bytes) × (length (take w bytes) ≡ w)
unfolding head_of
take-IsFrame bytes w h =
    let wire = bgp_get_be16 (drop 16 bytes) in
    elim (Bool-cases (ltb (length bytes) header_len)) [
      | inl e ↦ absurd (cc (rw e at h))
      | inr e ↦ elim (Bool-cases (sink_marker_valid bytes)) [
        | inr n ↦ absurd (cc (rw (e, n) at h))
        | inl y ↦ elim (Bool-cases (ltb wire header_len || ltb max_packet_len wire)) [
          | inl bad ↦ absurd (cc (rw (e, y, bad) at h))
          | inr good ↦ elim (Bool-cases (ltb (length bytes) wire)) [
            | inl cut ↦ absurd (cc (rw (e, y, good, cut) at h))
            | inr full ↦
                let same : wire ≡ w = ap size_of_head (rw (e, y, good, full) at h) in
                let size : length (take w bytes) ≡ w = ground (arith, length-take w bytes) in
                let split : take w bytes ++ drop w bytes ≡ bytes = take-append-drop w bytes in
                (
                  prefix-IsFrame (take w bytes) (drop w bytes) w size (ground arith) (ground arith)
                      (ap sink_marker_valid split ∙ y)
                      (ap (λ (b : List ℕ). bgp_get_be16 (drop 16 b)) split ∙ same),
                  size,
                )
          ]
        ]
      ]
    ]
