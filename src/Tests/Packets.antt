-- ===== src/Tests/Packets.antt =====
-- Messages for src/packet.c; UPDATE messages are their bytes here.
use libbgp.Prelude.{ℕ, List, [], ◌∷◌, length, ltb, if◌then◌else◌}
use libbgp.Prelude.Errors.{ok, err, buffer}
use libbgp.Notification.{NotificationMsg}
use libbgp.Packet.{UpdateCodec, Packet, open_packet, notification_packet}
use libbgp.Open.{OpenMsg}

abbrev raw_updates : UpdateCodec (List ℕ)
raw_updates = record {
  update_parse_as4 = λ four bytes m. (ok (bytes, length bytes), m);
  update_write = λ bytes cap. if ltb cap (length bytes) then err buffer else ok bytes;
}

abbrev hold_timer : NotificationMsg
hold_timer = record { err_code = 4; err_subcode = 0; notification_data = 9 ∷ [] }

abbrev farewell : Packet (List ℕ)
farewell = record { data_of = notification_packet hold_timer; raw_type = 3 }

abbrev farewell_wire : List ℕ
farewell_wire =
    255 ∷ 255 ∷ 255 ∷ 255 ∷ 255 ∷ 255 ∷ 255 ∷ 255 ∷ 255 ∷ 255 ∷ 255 ∷ 255 ∷ 255 ∷ 255 ∷ 255 ∷ 255
    ∷ 0 ∷ 22 ∷ 3 ∷ 4 ∷ 0 ∷ 9 ∷ []

-- An OPEN message without capabilities.
abbrev greeting : OpenMsg
greeting = record {
  version = 4;
  my_asn = 23456;
  hold_time = 90;
  bgp_id = 3232235777;
  capabilities = [];
}

abbrev opening : Packet (List ℕ)
opening = record { data_of = open_packet greeting; raw_type = 1 }
