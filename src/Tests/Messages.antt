-- ===== src/Tests/Messages.antt =====
-- Capabilities, OPEN and NOTIFICATION messages.
use libbgp.Prelude.{ℕ, ◌+◌, ◌≡◌, ◌⊎◌, refl, List, [], ◌∷◌, ◌++◌, false, length, arith}
use libbgp.Prelude.Errors.{ok, err, nomem}
use libbgp.Notification.{
  NotificationMsg, notification_parse, notification_write, notification_parse-write,
}
use libbgp.Prelude.Alloc.{malloc_bytes}
use libbgp.Capability.{
  Capability, parse_unknown, asn_4b, mp_bgp, unknown, capability_parse, capability_write,
}
use libbgp.Capability.RoundTrip.{IsCapability, capability_bytes, capability_parse-write}
use libbgp.Capability.Accepts.{Read, capability_parse-Read}
use libbgp.Open.{OpenMsg, open_parse, open_write}
use libbgp.Open.Total.{Ends, open_parse-Ends}
use libbgp.Open.Bytes.{capabilities_bytes}
use libbgp.Open.RoundTrip.{IsOpen, optional_bytes, open_bytes, open_parse-write}

abbrev cease : NotificationMsg
cease = record { err_code = 6; err_subcode = 2; notification_data = 1 ∷ 2 ∷ [] }

notification_parse-write_example :
    (out : List ℕ) × (notification_write cease 9 ≡ ok out)
    × (length out ≡ 2 + length cease.notification_data)
    × ((notification_parse out []).0 ≡ ok (cease, length out))
    × (((notification_parse out (false ∷ [])).0 ≡ ok (cease, length out))
        ⊎ ((notification_parse out (false ∷ [])).0 ≡ err nomem))
notification_parse-write_example =
    notification_parse-write cease 9 (false ∷ []) (omega arith) (omega arith)

abbrev four_octets : Capability
four_octets = record { refcount = 1; code = 65; value = asn_4b 4200000001 }

abbrev ipv6_unicast : Capability
ipv6_unicast = record { refcount = 1; code = 1; value = mp_bgp 2 1 }

abbrev blank : Capability
blank = record { refcount = 1; code = 0; value = unknown [] }

ipv6_unicast_valid : IsCapability ipv6_unicast
ipv6_unicast_valid = (refl, omega arith, omega arith)

capability_parse-write_example :
    (capability_write ipv6_unicast 6 ≡ ok (capability_bytes ipv6_unicast))
    × (capability_parse blank (capability_bytes ipv6_unicast ++ 9 ∷ []) [] ≡ (
      ok (record blank { code = 1; value = mp_bgp 2 1 }, length (capability_bytes ipv6_unicast)),
      [],
    ))
unfolding capability_bytes
capability_parse-write_example =
    capability_parse-write ipv6_unicast blank 6 (9 ∷ []) ipv6_unicast_valid (omega arith)

-- Route refresh, a capability without a value, and a byte behind it.
abbrev refresh_wire : List ℕ
refresh_wire = 2 ∷ 0 ∷ 9 ∷ []

abbrev refresh : Capability
refresh = record { refcount = 1; code = 2; value = unknown [] }

refresh_parses : (capability_parse blank refresh_wire []).0 ≡ ok (refresh, 2)
unfolding capability_parse parse_unknown malloc_bytes
refresh_parses = refl

capability_parse-Read_example : Read blank refresh_wire (refresh, 2)
capability_parse-Read_example =
    capability_parse-Read blank refresh_wire [] (refresh, 2) (ground arith) refresh_parses

-- An OPEN message that is cut off inside its capabilities.
open_parse-Ends_example :
    Ends (open_parse (4 ∷ 0 ∷ 1 ∷ 0 ∷ 90 ∷ 1 ∷ 1 ∷ 1 ∷ 1 ∷ 3 ∷ 2 ∷ 1 ∷ 65 ∷ []))
open_parse-Ends_example = open_parse-Ends (4 ∷ 0 ∷ 1 ∷ 0 ∷ 90 ∷ 1 ∷ 1 ∷ 1 ∷ 1 ∷ 3 ∷ 2 ∷ 1 ∷ 65 ∷ [])

abbrev hello : OpenMsg
hello = record {
  version = 4;
  my_asn = 23456;
  hold_time = 90;
  bgp_id = 3232235777;
  capabilities = four_octets ∷ ipv6_unicast ∷ [];
}

hello_valid : IsOpen hello
unfolding capabilities_bytes capability_bytes
hello_valid = (
  refl,
  omega arith,
  omega arith,
  omega arith,
  (((refl, omega arith), refl), (((refl, omega arith, omega arith), refl), tt)),
  omega arith,
)

open_parse-write_example :
    (open_write hello 64 ≡ ok (open_bytes hello))
    × (open_parse (open_bytes hello ++ []) [] ≡ (ok (hello, length (open_bytes hello)), []))
unfolding open_bytes optional_bytes capabilities_bytes capability_bytes
open_parse-write_example = open_parse-write hello 64 [] hello_valid (omega arith)
