-- ===== src/Pattr/Write.antt =====
-- The writer of src/pattr.c: the length of a value, with its checks, and the bytes of an attribute.
use libbgp.Prelude.{
  ℕ, ◌+◌, ◌-◌, ◌*◌, ◌/◌, ◌%◌, ◌^◌, List, [], ◌∷◌, ◌++◌, Bool, true, false, ltb, leb, ◌==◌, ◌&&◌,
  ◌||◌, if◌then◌else◌, not, length, bit_and,
}
use Prim.Native.Nat.{bit_or}
use libbgp.Prelude.Errors.{Result, ok, err, guard, bad_len, buffer, ◌>>=◌, ◌>>◌}
use libbgp.Prelude.Wire.{bgp_put_be16, bgp_put_be32}
use libbgp.Prelude.Growth.{size_max}
use libbgp.Prefix6.{Prefix6, prefix6_write}
use libbgp.Prefix.{prefix_octets}
use libbgp.Pattr.{
  PattrData, Pattr, AsPathSegment, origin, as_path, as4_path, next_hop, med, local_pref,
  atomic_aggregate, aggregator, as4_aggregator, community, mp_reach_ipv6, mp_unreach_ipv6,
  unknown_pattr, type_unknown, type_of, pattr_default_type_code, pattr_known_flags_valid, has,
  flag_extended_length,
}
use libbgp.Pattr.Read.{asn_size}

unfoldable pub add_size : ℕ → ℕ → Result ℕ
add_size acc add = if ltb (size_max - add) acc then err bad_len else ok (acc + add)

unfoldable pub segments_len : Bool → List AsPathSegment → ℕ → Result ℕ
segments_len is_4b [] len = ok len
segments_len is_4b (s ∷ segments) len = do
  let count = length s.asns
  guard (not (ltb s.segment_type 1 || ltb 2 s.segment_type || ltb 255 count)) bad_len
  guard (leb count ((size_max - 2) / asn_size is_4b)) bad_len
  next ← add_size len (2 + count * asn_size is_4b)
  segments_len is_4b segments next

unfoldable pub routes_len : List Prefix6 → ℕ → Result ℕ
routes_len [] len = ok len
routes_len (p ∷ routes) len = do
  guard (leb p.len 128) bad_len
  next ← add_size len (1 + prefix_octets p.len)
  routes_len routes next

-- The switch of `pattr_value_len`.
unfoldable pub data_len : PattrData → Result ℕ
data_len (origin o) = ok 1
data_len (as_path is_4b segments) = segments_len is_4b segments 0
data_len (as4_path is_4b segments) = if is_4b then segments_len is_4b segments 0 else err bad_len
data_len (next_hop h) = ok 4
data_len (med v) = ok 4
data_len (local_pref v) = ok 4
data_len atomic_aggregate = ok 0
data_len (aggregator asn router_id is_4b) =
    if not is_4b && ltb 65535 asn then err bad_len else ok (if is_4b then 8 else 6)
data_len (as4_aggregator asn router_id is_4b) = ok 8
data_len (community values) =
    if ltb (size_max / 4) (length values) then err bad_len else ok (length values * 4)
data_len (mp_reach_ipv6 nexthop nlri) =
    if length nexthop == 16 || length nexthop == 32
    then routes_len nlri (5 + length nexthop)
    else err bad_len
data_len (mp_unreach_ipv6 withdrawn) = routes_len withdrawn 3
data_len (unknown_pattr value) = if ltb 65535 (length value) then err bad_len else ok (length value)

abbrev pub code_fits : Pattr → Bool
code_fits attr = elim (type_of attr.data_of) [
  | type_unknown ↦ true
  | other ↦ attr.type_code == pattr_default_type_code other
]

unfoldable pub pattr_value_len : Pattr → Result ℕ
pattr_value_len attr = do
  guard (code_fits attr) bad_len
  guard (pattr_known_flags_valid (type_of attr.data_of) attr.flags) bad_len
  len ← data_len attr.data_of
  guard (leb len 65535) bad_len
  ok len

abbrev pub extended_of : Pattr → ℕ → Bool
extended_of attr value_len = ltb 255 value_len || has attr.flags flag_extended_length

-- 239 is the complement of EXTENDED_LENGTH.
abbrev pub wire_flags : ℕ → Bool → ℕ
wire_flags flags extended =
    let base = bit_and flags 239 in if extended then bit_or base flag_extended_length else base

unfoldable pub write_header : Pattr → ℕ → Bool → List ℕ
write_header attr value_len extended =
    wire_flags attr.flags extended
    ∷ attr.type_code
    ∷ (if extended then bgp_put_be16 (value_len % 2 ^ 16) else (value_len % 256) ∷ [])

unfoldable pub write_asns : Bool → List ℕ → List ℕ
write_asns is_4b [] = []
write_asns is_4b (asn ∷ asns) =
    (if is_4b then bgp_put_be32 asn else bgp_put_be16 (asn % 2 ^ 16)) ++ write_asns is_4b asns

unfoldable pub write_as_path_value : Bool → List AsPathSegment → List ℕ
write_as_path_value is_4b [] = []
write_as_path_value is_4b (s ∷ segments) =
    s.segment_type
    ∷ (length s.asns % 256)
    ∷ (write_asns is_4b s.asns ++ write_as_path_value is_4b segments)

-- Every AS number fits two octets.
unfoldable pub all_16bit : List ℕ → Bool
all_16bit [] = true
all_16bit (asn ∷ asns) = if ltb 65535 asn then false else all_16bit asns

unfoldable pub segments_16bit : List AsPathSegment → Bool
segments_16bit [] = true
segments_16bit (s ∷ segments) = if all_16bit s.asns then segments_16bit segments else false

-- The second switch of `libbgp_pattr_wire_len`, and the tests of `write_value`.
unfoldable pub value_fits : PattrData → Bool
value_fits (origin o) = leb o 2
value_fits (as_path is_4b segments) = if is_4b then true else segments_16bit segments
value_fits (as4_path is_4b segments) = if is_4b then true else segments_16bit segments
value_fits (next_hop h) = true
value_fits (med v) = true
value_fits (local_pref v) = true
value_fits atomic_aggregate = true
value_fits (aggregator asn router_id is_4b) = true
value_fits (as4_aggregator asn router_id is_4b) = true
value_fits (community values) = true
value_fits (mp_reach_ipv6 nexthop nlri) = true
value_fits (mp_unreach_ipv6 withdrawn) = true
value_fits (unknown_pattr value) = true

abbrev pub header_size : Bool → ℕ
header_size extended = if extended then 4 else 3

unfoldable pub pattr_wire_len : Pattr → Result ℕ
pattr_wire_len attr = do
  value_len ← pattr_value_len attr
  guard (value_fits attr.data_of) bad_len
  let header_len = header_size (extended_of attr value_len)
  guard (leb value_len (size_max - header_len)) bad_len
  ok (header_len + value_len)

unfoldable pub write_routes : List Prefix6 → ℕ → Result (List ℕ)
write_routes [] room = ok []
write_routes (p ∷ routes) room = do
  one ← prefix6_write p room
  rest ← write_routes routes (room - length one)
  ok (one ++ rest)

unfoldable pub write_value : PattrData → ℕ → Result (List ℕ)
write_value (origin o) value_len = if leb o 2 then ok (o ∷ []) else err bad_len
write_value (as_path is_4b segments) value_len =
    if (if is_4b then true else segments_16bit segments)
    then ok (write_as_path_value is_4b segments)
    else err bad_len
write_value (as4_path is_4b segments) value_len =
    if (if is_4b then true else segments_16bit segments)
    then ok (write_as_path_value is_4b segments)
    else err bad_len
write_value (next_hop h) value_len = ok h
write_value (med v) value_len = ok (bgp_put_be32 v)
write_value (local_pref v) value_len = ok (bgp_put_be32 v)
write_value atomic_aggregate value_len = ok []
write_value (aggregator asn router_id is_4b) value_len =
    ok ((if is_4b then bgp_put_be32 asn else bgp_put_be16 (asn % 2 ^ 16)) ++ bgp_put_be32 router_id)
write_value (as4_aggregator asn router_id is_4b) value_len =
    ok (bgp_put_be32 asn ++ bgp_put_be32 router_id)
write_value (community values) value_len = ok (write_asns true values)
write_value (mp_reach_ipv6 nexthop nlri) value_len = do
  routes ← write_routes nlri (value_len - (5 + length nexthop))
  ok (0 ∷ 2 ∷ 1 ∷ (length nexthop % 256) ∷ (nexthop ++ 0 ∷ routes))
write_value (mp_unreach_ipv6 withdrawn) value_len = do
  routes ← write_routes withdrawn (value_len - 3)
  ok (0 ∷ 2 ∷ 1 ∷ routes)
write_value (unknown_pattr value) value_len = ok value

-- The bytes that are written at the front of a buffer of `room` bytes.
unfoldable pub pattr_write : Pattr → ℕ → Result (List ℕ)
pattr_write attr room = do
  value_len ← pattr_value_len attr
  let extended = extended_of attr value_len
  guard (leb (header_size extended + value_len) room) buffer
  value ← write_value attr.data_of value_len
  ok (write_header attr value_len extended ++ value)
