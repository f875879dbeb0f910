-- ===== src/Packet/Kinds.antt =====
-- The kinds of messages of src/packet.c: what their bodies are, and that the switches on the type write
-- and read exactly these.
use libbgp.Prelude.{
  ℕ, ◌+◌, ◌-◌, ◌≤◌, ◌≡◌, refl, sym, ap, ◌∙◌, List, [], ◌∷◌, Bool, false, ◌==◌, length, arith,
  append-nil, ge→ltb, min, ◌⊎◌, suc, subst, le→leb,
}
use libbgp.Prelude.Errors.{ok}
use libbgp.Prelude.Alloc.{malloc_bytes-ok}
use libbgp.Prelude.Growth.{size_max}
use libbgp.Open.{open_parse}
use libbgp.Open.RoundTrip.{IsOpen, open_bytes, open_parse-write}
use libbgp.Notification.{notification_write, notification_parse}
use libbgp.Keepalive.{keepalive_parse, keepalive_write}
use libbgp.Sink.{header_len}
use libbgp.Packet.{
  UpdateCodec, PacketData, Packet, open_packet, update_packet, notification_packet,
  keepalive_packet, unknown_packet, max_body_len, parse_body, raw_type_of, packet_write_body,
}

module _ {U : Type 0} (codec : UpdateCodec U) where
  -- What the body of a packet is in RFC 4271, and what it takes for the packet to be valid, by its kind.
  -- Of the codec of UPDATE messages it is asked that it writes the message with `room` bytes for it, and
  -- reads back what it wrote. The type of an unknown packet is none of the known ones.
  abbrev pub IsBody : Bool → ℕ → PacketData U → ℕ → List ℕ → Type 0
  IsBody four room (open_packet msg) raw_type body =
      (raw_type ≡ 1) × (body ≡ open_bytes msg) × IsOpen msg
  IsBody four room (update_packet msg) raw_type body =
      (raw_type ≡ 2)
      × (codec.update_write msg room ≡ ok body)
      × (codec.update_parse_as4 four body [] ≡ (ok (msg, length body), []))
  IsBody four room (notification_packet msg) raw_type body =
      (raw_type ≡ 3) × (body ≡ msg.err_code ∷ msg.err_subcode ∷ msg.notification_data)
  IsBody four room keepalive_packet raw_type body = (raw_type ≡ 4) × (body ≡ [])
  IsBody four room (unknown_packet raw) raw_type body =
      ((raw_type ≡ 0) ⊎ (5 ≤ raw_type)) × (body ≡ raw)

  -- A valid packet of which the body fits into a message and into a buffer of `room` bytes.
  pub record IsPacket (four : Bool) (room : ℕ) (pkt : Packet U) (body : List ℕ) : Type 0 where
    pub valid : IsBody four (min (room - header_len) max_body_len) pkt.data_of pkt.raw_type body
    pub short : length body ≤ max_body_len
    pub fits : header_len + length body ≤ room

  -- What the switches on the type do with a body.
  pub record Switched (four : Bool) (cap : ℕ) (d : PacketData U) (raw_type : ℕ) (body : List ℕ)
      : Type 0 where
    pub written : packet_write_body codec d cap ≡ ok body
    pub read : parse_body codec raw_type four body [] ≡ (ok (d, length body), [])

  unknown_read :
      (raw_type : ℕ) (four : Bool) (raw : List ℕ)
      → (raw_type ≡ 0) ⊎ (5 ≤ raw_type)
      → parse_body codec raw_type four raw [] ≡ (ok (unknown_packet raw, length raw), [])
  unfolding parse_body
  unknown_read raw_type four raw t =
      let one : (raw_type == 1) ≡ false = ground arith in
      let two : (raw_type == 2) ≡ false = ground arith in
      let three : (raw_type == 3) ≡ false = ground arith in
      let unlike : (raw_type == 4) ≡ false = ground arith in
      rw (one, two, three, unlike, malloc_bytes-ok (length raw)) refl

  pub typed :
      (four : Bool) (cap : ℕ) (d : PacketData U) (raw_type : ℕ) (body : List ℕ)
      → IsBody four cap d raw_type body
      → raw_type_of (record { data_of = d; raw_type = raw_type }) ≡ raw_type
  unfolding raw_type_of
  typed four cap (open_packet msg) raw_type body h = sym h.0
  typed four cap (update_packet msg) raw_type body h = sym h.0
  typed four cap (notification_packet msg) raw_type body h = sym h.0
  typed four cap keepalive_packet raw_type body h = sym h.0
  typed four cap (unknown_packet raw) raw_type body h = refl

  switched :
      (four : Bool) (cap : ℕ) (d : PacketData U) (raw_type : ℕ) (body : List ℕ)
      → IsBody four cap d raw_type body
      → length body ≤ cap
      → cap ≤ max_body_len
      → Switched four cap d raw_type body
  unfolding packet_write_body parse_body notification_parse notification_write keepalive_parse
      keepalive_write
  switched four cap (open_packet msg) raw_type body (t, b, h) fits top =
      let law = open_parse-write msg cap [] h (subst (λ (x : List ℕ). length x ≤ cap) b fits) in
      let read : open_parse (open_bytes msg) [] ≡ (ok (msg, length (open_bytes msg)), []) =
        ap (λ (x : List ℕ). open_parse x []) (sym (append-nil (open_bytes msg))) ∙ law.1 in
      record { written = rw b law.0; read = rw (t, b, read) refl }
  switched four cap (update_packet msg) raw_type body (t, w, r) fits top = record {
    written = w;
    read = rw (t, r) refl;
  }
  switched four cap (notification_packet msg) raw_type body (t, b) fits top =
      let n = length msg.notification_data in
      let size : length body ≡ 2 + n = ap length b ∙ omega arith in
      record {
        written =
            rw
              (
                b,
                le→leb n (size_max - 2) (omega (arith, size)),
                le→leb (2 + n) cap (omega (arith, size)),
              )
              refl;
        read = rw (t, b, le→leb 2 (suc (suc n)) (omega arith), malloc_bytes-ok n) refl;
      }
  switched four cap keepalive_packet raw_type body (t, b) fits top = record {
    written = rw b refl;
    read = rw (t, b) refl;
  }
  switched four cap (unknown_packet raw) raw_type body (t, b) fits top = record {
    written = rw (b, ge→ltb cap (length raw) (subst (λ (x : List ℕ). length x ≤ cap) b fits)) refl;
    read = rw b (unknown_read raw_type four raw t);
  }

  pub IsPacket-Switched :
      (four : Bool) (room : ℕ) (pkt : Packet U) (body : List ℕ)
      → IsPacket four room pkt body
      → Switched four (min (room - header_len) max_body_len) pkt.data_of pkt.raw_type body
  IsPacket-Switched four room pkt body h =
      let short = h.short in
      let fits = h.fits in
      switched four (min (room - header_len) max_body_len) pkt.data_of pkt.raw_type body h.valid
        (omega arith) (omega arith)
