-- ===== src/Pattr/Values.antt =====
-- The values of the attributes of src/pattr.c: which of them both sides take, and their bytes.
use libbgp.Prelude.{
  ℕ, ◌+◌, ◌-◌, ◌/◌, ◌%◌, ◌^◌, ◌≤◌, ◌<◌, ◌≡◌, ◌⊎◌, refl, sym, ap, ◌∙◌, List, [], ◌∷◌, ◌++◌, Bool,
  true, false, ◌==◌, ◌||◌, if◌then◌else◌, length, arith, length-append, All, le→leb, ge→ltb,
}
use libbgp.Prelude.Errors.{ok}
use libbgp.Prelude.Growth.{size_max}
use libbgp.Prelude.Wire.{bgp_put_be16, bgp_put_be32}
use libbgp.Prefix6.{Prefix6}
use libbgp.Pattr.{
  PattrData, PattrType, AsPathSegment, origin, as_path, as4_path, next_hop, med, local_pref,
  atomic_aggregate, aggregator, as4_aggregator, community, mp_reach_ipv6, mp_unreach_ipv6,
  unknown_pattr, type_mp_reach_ipv6, type_mp_unreach_ipv6, type_unknown, type_of,
}
use libbgp.Pattr.Read.{ipv6_unicast}
use libbgp.Pattr.Write.{
  write_asns, write_as_path_value, data_len, value_fits, write_value, segments_16bit,
}
use libbgp.Pattr.Segments.{
  IsSegment, IsAsn, segments_len-path, segments_16bit-fits, length-write_asns,
}
use libbgp.Pattr.Routes.{IsRoute, routes_bytes, routes_len-bytes, write_routes-bytes}

-- The numbers fit their fields, and the sizes are those of the protocol; `four` is the flag for AS numbers
-- of four octets of the session.
abbrev pub IsValue : Bool → PattrData → Type 0
IsValue four (origin o) = o ≤ 2
IsValue four (as_path b segments) = (b ≡ four) × All (IsSegment b) segments
IsValue four (as4_path b segments) = (b ≡ true) × All (IsSegment true) segments
IsValue four (next_hop h) = length h ≡ 4
IsValue four (med v) = v < 2 ^ 32
IsValue four (local_pref v) = v < 2 ^ 32
IsValue four atomic_aggregate = Unit {0}
IsValue four (aggregator asn router_id b) = (b ≡ four) × IsAsn b asn × (router_id < 2 ^ 32)
IsValue four (as4_aggregator asn router_id b) = (b ≡ true) × (asn < 2 ^ 32) × (router_id < 2 ^ 32)
IsValue four (community values) = All (IsAsn true) values
IsValue four (mp_reach_ipv6 nexthop nlri) =
    ((length nexthop ≡ 16) ⊎ (length nexthop ≡ 32)) × All IsRoute nlri
IsValue four (mp_unreach_ipv6 withdrawn) = All IsRoute withdrawn
IsValue four (unknown_pattr value) = Unit {0}

-- The bytes of a value on the wire.
abbrev pub value_bytes : PattrData → List ℕ
value_bytes (origin o) = o ∷ []
value_bytes (as_path b segments) = write_as_path_value b segments
value_bytes (as4_path b segments) = write_as_path_value b segments
value_bytes (next_hop h) = h
value_bytes (med v) = bgp_put_be32 v
value_bytes (local_pref v) = bgp_put_be32 v
value_bytes atomic_aggregate = []
value_bytes (aggregator asn router_id b) =
    (if b then bgp_put_be32 asn else bgp_put_be16 (asn % 2 ^ 16)) ++ bgp_put_be32 router_id
value_bytes (as4_aggregator asn router_id b) = bgp_put_be32 asn ++ bgp_put_be32 router_id
value_bytes (community values) = write_asns true values
value_bytes (mp_reach_ipv6 nexthop nlri) =
    0 ∷ 2 ∷ 1 ∷ (length nexthop % 256) ∷ (nexthop ++ 0 ∷ routes_bytes nlri)
value_bytes (mp_unreach_ipv6 withdrawn) = 0 ∷ 2 ∷ 1 ∷ routes_bytes withdrawn
value_bytes (unknown_pattr value) = value

-- A value that stays opaque: its type is unknown, or it has routes of another family.
abbrev pub IsForeign : PattrType → List ℕ → Type 0
IsForeign t value =
    (t ≡ type_unknown)
    ⊎ ((t ≡ type_mp_reach_ipv6) × (5 ≤ length value) × (ipv6_unicast value ≡ false))
    ⊎ ((t ≡ type_mp_unreach_ipv6) × (3 ≤ length value) × (ipv6_unicast value ≡ false))

-- The type of the code on the wire, and the data that it stands for.
abbrev pub Belongs : PattrType → PattrData → Type 0
Belongs t d = elim d [ unknown_pattr value ↦ IsForeign t value | other ↦ t ≡ type_of other ]

mp_reach_len :
    (nexthop : List ℕ) (nlri : List Prefix6)
    → length (value_bytes (mp_reach_ipv6 nexthop nlri))
      ≡ 5 + length nexthop + length (routes_bytes nlri)
mp_reach_len nexthop nlri = omega (arith, length-append nexthop (0 ∷ routes_bytes nlri))

pub data_len-value :
    (four : Bool) (d : PattrData)
    → IsValue four d
    → length (value_bytes d) ≤ 65535
    → data_len d ≡ ok (length (value_bytes d))
unfolding data_len
data_len-value four (origin o) h room = refl
data_len-value four (as_path b segments) h room =
    segments_len-path b segments 0 h.1 (omega arith) ∙ ap ok (omega arith)
data_len-value four (as4_path true segments) h room =
    segments_len-path true segments 0 h.1 (omega arith) ∙ ap ok (omega arith)
data_len-value four (as4_path false segments) h room = absurd (cc (h.0))
data_len-value four (next_hop l) h room = ap ok (sym h)
data_len-value four (med v) h room = refl
data_len-value four (local_pref v) h room = refl
data_len-value four atomic_aggregate h room = refl
data_len-value four (aggregator asn router_id true) h room = refl
data_len-value four (aggregator asn router_id false) h room =
    rw (ge→ltb 65535 asn (omega (arith, h.1))) refl
data_len-value four (as4_aggregator asn router_id b) h room = refl
data_len-value four (community values) h room =
    let size = length-write_asns true values in
    rw (ge→ltb (size_max / 4) (length values) (omega arith)) (ap ok (omega arith))
data_len-value four (mp_reach_ipv6 nexthop nlri) h room =
    let size = mp_reach_len nexthop nlri in
    let known : (length nexthop == 16 || length nexthop == 32) ≡ true = ground (arith, h.0) in
    rw known (
      routes_len-bytes nlri (5 + length nexthop) h.1 (omega (arith, size))
      ∙ ap ok (omega (arith, size)))
data_len-value four (mp_unreach_ipv6 withdrawn) h room =
    routes_len-bytes withdrawn 3 h (omega arith) ∙ ap ok (omega arith)
data_len-value four (unknown_pattr value) h room = rw (ge→ltb 65535 (length value) room) refl

fits_segments :
    (b : Bool) (segments : List AsPathSegment)
    → All (IsSegment b) segments
    → (if b then true else segments_16bit segments) ≡ true
fits_segments true segments h = refl
fits_segments false segments h = segments_16bit-fits segments h

pub write_value-bytes :
    (four : Bool) (d : PattrData)
    → IsValue four d
    → write_value d (length (value_bytes d)) ≡ ok (value_bytes d)
unfolding write_value
write_value-bytes four (origin o) h = rw (le→leb o 2 h) refl
write_value-bytes four (as_path b segments) h = rw (fits_segments b segments h.1) refl
write_value-bytes four (as4_path true segments) h = refl
write_value-bytes four (as4_path false segments) h = absurd (cc (h.0))
write_value-bytes four (next_hop l) h = refl
write_value-bytes four (med v) h = refl
write_value-bytes four (local_pref v) h = refl
write_value-bytes four atomic_aggregate h = refl
write_value-bytes four (aggregator asn router_id b) h = refl
write_value-bytes four (as4_aggregator asn router_id b) h = refl
write_value-bytes four (community values) h = refl
write_value-bytes four (mp_reach_ipv6 nexthop nlri) h =
    rw
      (write_routes-bytes nlri
        (length (value_bytes (mp_reach_ipv6 nexthop nlri)) - (5 + length nexthop)) h.1
        (omega (arith, mp_reach_len nexthop nlri)))
      refl
write_value-bytes four (mp_unreach_ipv6 withdrawn) h =
    rw
      (write_routes-bytes withdrawn (length (value_bytes (mp_unreach_ipv6 withdrawn)) - 3) h
        (omega arith))
      refl
write_value-bytes four (unknown_pattr value) h = refl

pub value_fits-value : (four : Bool) (d : PattrData) → IsValue four d → value_fits d ≡ true
unfolding value_fits
value_fits-value four (origin o) h = le→leb o 2 h
value_fits-value four (as_path b segments) h = fits_segments b segments h.1
value_fits-value four (as4_path true segments) h = refl
value_fits-value four (as4_path false segments) h = absurd (cc (h.0))
value_fits-value four (next_hop l) h = refl
value_fits-value four (med v) h = refl
value_fits-value four (local_pref v) h = refl
value_fits-value four atomic_aggregate h = refl
value_fits-value four (aggregator asn router_id b) h = refl
value_fits-value four (as4_aggregator asn router_id b) h = refl
value_fits-value four (community values) h = refl
value_fits-value four (mp_reach_ipv6 nexthop nlri) h = refl
value_fits-value four (mp_unreach_ipv6 withdrawn) h = refl
value_fits-value four (unknown_pattr value) h = refl
