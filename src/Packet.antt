-- ===== src/Packet.antt =====
-- src/packet.c: whole messages, with header and body. The codec of UPDATE messages, src/update.c, is an
-- argument. `raw_type` is the type byte of the header; the body of a message of another type is kept as
-- its bytes. The detail of an error is a part of the result, also where the caller passes NULL for it.

pub mod RoundTrip
pub mod Kinds
use libbgp.Prelude.{
  ℕ, ◌+◌, ◌-◌, ◌%◌, ◌^◌, List, [], ◌∷◌, ◌++◌, Bool, true, false, Option, none, some, ltb, leb, ◌==◌,
  ◌&&◌, ◌||◌, if◌then◌else◌, length, get_or, take, drop, replicate, min, not,
}
use libbgp.Prelude.Errors
use libbgp.Prelude.Errors.{
  Result, ok, err, guard, ErrorCode, bad_len, bad_type, buffer, invalid, nomem, Mem,
}
use libbgp.Prelude.Alloc.{Alloc, ◌>>=◌, ◌>>◌, give, malloc_bytes}
use libbgp.Prelude.Wire.{bgp_get_be16, bgp_put_be16}
use libbgp.Open.{OpenMsg, open_parse, open_write}
use libbgp.Notification.{NotificationMsg, notification_parse, notification_write}
use libbgp.Keepalive.{keepalive_parse, keepalive_write}
use libbgp.Sink.{header_len, max_packet_len, sink_marker_valid}

-- The functions of src/update.c that packets call.
pub record UpdateCodec (U : Type 0) : Type 0 where
  pub update_parse_as4 : Bool → List ℕ → Alloc (U × ℕ)
  pub update_write : U → ℕ → Result (List ℕ)

-- `libbgp_packet_type_t` with the member of the union that belongs to it.
pub data PacketData (U : Type 0) : Type 0 where
  open_packet : OpenMsg → PacketData U
  update_packet : U → PacketData U
  notification_packet : NotificationMsg → PacketData U
  keepalive_packet : PacketData U
  unknown_packet : List ℕ → PacketData U

-- `struct libbgp_packet`
pub record Packet (U : Type 0) : Type 0 where
  pub data_of : PacketData U
  pub raw_type : ℕ

-- `bgp_parse_error_detail_t`; no error is LIBBGP_OK.
pub record Detail : Type 0 where
  pub error : Option ErrorCode
  pub notify_code : ℕ
  pub notify_subcode : ℕ

-- `packet_marker_valid`, which compares with 16 bytes of ones.
abbrev pub packet_marker_valid : List ℕ → Bool
packet_marker_valid buf = sink_marker_valid buf

-- `packet_type_from_raw` is the identity on the known types, and every other byte is UNKNOWN.
abbrev pub is_known : ℕ → Bool
is_known raw_type = leb 1 raw_type && leb raw_type 4

unfoldable pub packet_parse_map_body_error : ℕ → ErrorCode → Detail
packet_parse_map_body_error raw_type nomem = record {
  error = some nomem;
  notify_code = 0;
  notify_subcode = 0;
}
packet_parse_map_body_error raw_type e =
    let subcode : ℕ = elim e [ invalid ↦ 3 | _ ↦ 1 ] in
    let open_subcode : ℕ = elim e [ bad_type ↦ 4 | _ ↦ 0 ] in
    if raw_type == 2
    then (record { error = some e; notify_code = 3; notify_subcode = subcode })
    else (if raw_type == 1
        then (record { error = some e; notify_code = 2; notify_subcode = open_subcode })
        else (if is_known raw_type
            then (record { error = some e; notify_code = 1; notify_subcode = 2 })
            else (record { error = some e; notify_code = 0; notify_subcode = 0 })))

abbrev no_error : Detail
no_error = record { error = none; notify_code = 0; notify_subcode = 0 }

-- The answer, the allocator's outcomes left, and the detail.
abbrev pub Detailed : Type 0 → Type 0
Detailed U = Result (Packet U × ℕ) × Mem × Detail

abbrev pub max_body_len : ℕ
max_body_len = 4077

module _ {U : Type 0} where
  abbrev pub packet_init : Packet U
  packet_init = record { data_of = unknown_packet []; raw_type = 255 }

  -- What the members own is freed, and the packet is as after `packet_init`.
  abbrev pub packet_destroy : Packet U → Packet U
  packet_destroy pkt = packet_init

  abbrev refuse : ErrorCode → ℕ → ℕ → Mem → Detailed U
  refuse e code subcode m =
      (err e, m, record { error = some e; notify_code = code; notify_subcode = subcode })

  -- What becomes of the answer of the parser of a body.
  unfoldable pub take_body : ℕ → ℕ → Result (PacketData U × ℕ) × Mem → Detailed U
  take_body raw_type wire_len (err e, m) = (err e, m, packet_parse_map_body_error raw_type e)
  take_body raw_type wire_len (ok r, m) =
      if r.1 == wire_len - header_len
      then (ok (record { data_of = r.0; raw_type = raw_type }, wire_len), m, no_error)
      else (err bad_len, m, packet_parse_map_body_error raw_type bad_len)

  -- The type byte of the message.
  unfoldable pub raw_type_of : Packet U → ℕ
  raw_type_of pkt = elim pkt.data_of [
    | open_packet msg ↦ 1
    | update_packet msg ↦ 2
    | notification_packet msg ↦ 3
    | keepalive_packet ↦ 4
    | unknown_packet body ↦ pkt.raw_type
  ]

module _ {U : Type 0} (codec : UpdateCodec U) where
  -- The switch on the type of `bgp_packet_parse_as4_detail`.
  unfoldable pub parse_body : ℕ → Bool → List ℕ → Alloc (PacketData U × ℕ)
  parse_body raw_type use_4b_asn body m =
      if raw_type == 1
      then (open_parse body >>= λ r. give (open_packet r.0, r.1)) m
      else (if raw_type == 2
          then (codec.update_parse_as4 use_4b_asn body >>= λ r. give (update_packet r.0, r.1)) m
          else (if raw_type == 3
              then (notification_parse body >>= λ r. give (notification_packet r.0, r.1)) m
              else (if raw_type == 4
                  then (Errors.◌>>=◌ (keepalive_parse body) λ used. ok (keepalive_packet, used), m)
                  else (malloc_bytes (length body) >> give (unknown_packet body, length body)) m)))

  -- `detail` tells whether the caller asks for the detail, in which case an unknown type is refused.
  unfoldable pub packet_parse_as4_detail : Bool → List ℕ → Bool → Mem → Detailed U
  packet_parse_as4_detail detail buf use_4b_asn m =
      let wire_len = bgp_get_be16 (drop 16 buf) in
      let raw_type = get_or buf 18 0 in
      let body = take (wire_len - header_len) (drop header_len buf) in
      if ltb (length buf) header_len
      then refuse bad_len 1 2 m
      else (if packet_marker_valid buf
          then (if ltb wire_len header_len
                || ltb max_packet_len wire_len
                || ltb (length buf) wire_len
              then refuse bad_len 1 2 m
              else (if detail && not (is_known raw_type)
                  then refuse bad_type 1 3 m
                  else take_body raw_type wire_len (parse_body raw_type use_4b_asn body m)))
          else refuse bad_len 1 1 m)

  abbrev pub packet_parse_as4 : Bool → List ℕ → Alloc (Packet U × ℕ)
  packet_parse_as4 use_4b_asn buf m =
      let r = packet_parse_as4_detail false buf use_4b_asn m in (r.0, r.1)

  abbrev pub packet_parse : List ℕ → Alloc (Packet U × ℕ)
  packet_parse buf = packet_parse_as4 false buf

  unfoldable pub packet_write_body : PacketData U → ℕ → Result (List ℕ)
  packet_write_body (open_packet msg) body_cap = open_write msg body_cap
  packet_write_body (update_packet msg) body_cap = codec.update_write msg body_cap
  packet_write_body (notification_packet msg) body_cap = notification_write msg body_cap
  packet_write_body keepalive_packet body_cap = keepalive_write body_cap
  packet_write_body (unknown_packet body) body_cap =
      if ltb body_cap (length body) then err buffer else ok body

  -- The checks before a body is written.
  unfoldable pub room_check : PacketData U → ℕ → Result (Unit {0})
  room_check (unknown_packet body) buf_len =
      if ltb max_body_len (length body)
      then err bad_len
      else (if ltb buf_len (header_len + length body) then err buffer else ok tt)
  room_check other buf_len =
      if ltb buf_len header_len
      then (Errors.◌>>=◌ (packet_write_body other 0) λ body. err buffer)
      else ok tt

  unfoldable pub packet_write : Packet U → ℕ → Result (List ℕ)
  packet_write pkt buf_len = Errors.◌>>=◌ (room_check pkt.data_of buf_len) λ checked.
      Errors.◌>>=◌ (packet_write_body pkt.data_of (min (buf_len - header_len) max_body_len)) λ body.
        if ltb max_body_len (length body)
        then err bad_len
        else ok (
            replicate 16 255 ++ (bgp_put_be16 (header_len + length body) ++ raw_type_of pkt ∷ body))
