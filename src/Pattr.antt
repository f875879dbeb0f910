-- ===== src/Pattr.antt =====
-- include/libbgp/pattr.h and src/pattr.c: path attributes, their types, flags and reference counts. An array
-- is a list, so that no array of a positive length is NULL, and the type of the attribute is the
-- constructor of its data. The address of a NEXT_HOP is its four bytes, which the code copies by memcpy.
-- The blocks of src/pattr.c that hold the segments of a path are memory, whose release changes no value.

pub mod Read
pub mod Write
pub mod Flags
pub mod Segments
pub mod Path
pub mod Routes
pub mod Values
pub mod ReadBack
pub mod Accepts
pub mod RoundTrip
pub mod Codec
pub mod Truncated
use libbgp.Prelude.{
  ℕ, ◌+◌, ◌-◌, ◌^◌, List, [], ◌∷◌, Bool, true, false, Option, none, some, ◌==◌, ltb, ◌&&◌,
  if◌then◌else◌, bit_and, not,
}
use Prim.Native.Nat.{bit_or}
use libbgp.Prelude.Alloc.{Alloc, ◌>>=◌, ◌>>◌, give, malloc}
use libbgp.Prefix6.{Prefix6}

pub record AsPathSegment : Type 0 where
  pub segment_type : ℕ
  pub asns : List ℕ

-- `libbgp_pattr_type_t` with the member of the union that belongs to it.
pub data PattrData : Type 0 where
  origin : ℕ → PattrData
  as_path : Bool → List AsPathSegment → PattrData
  as4_path : Bool → List AsPathSegment → PattrData
  next_hop : List ℕ → PattrData
  med : ℕ → PattrData
  local_pref : ℕ → PattrData
  atomic_aggregate : PattrData
  aggregator : (asn router_id : ℕ) → Bool → PattrData
  as4_aggregator : (asn router_id : ℕ) → Bool → PattrData
  community : List ℕ → PattrData
  mp_reach_ipv6 : (nexthop : List ℕ) → List Prefix6 → PattrData
  mp_unreach_ipv6 : List Prefix6 → PattrData
  unknown_pattr : List ℕ → PattrData

pub record Pattr : Type 0 where
  pub refcount : ℕ
  pub flags : ℕ
  pub type_code : ℕ
  pub data_of : PattrData

abbrev pub code_as_path : ℕ
code_as_path = 2

abbrev pub code_community : ℕ
code_community = 8

abbrev pub code_as4_path : ℕ
code_as4_path = 17

abbrev pub flag_optional : ℕ
flag_optional = 128

abbrev pub flag_transitive : ℕ
flag_transitive = 64

abbrev pub flag_partial : ℕ
flag_partial = 32

abbrev pub flag_extended_length : ℕ
flag_extended_length = 16

abbrev pub uint32_max : ℕ
uint32_max = 2 ^ 32 - 1

pub data PattrType : Type 0 where
  type_origin type_as_path type_next_hop type_med type_local_pref type_atomic_aggregate
        type_aggregator type_community type_as4_path type_as4_aggregator type_mp_reach_ipv6
        type_mp_unreach_ipv6 type_unknown :
      PattrType

-- The type tag of the source.
abbrev pub type_of : PattrData → PattrType
type_of (origin o) = type_origin
type_of (as_path b segments) = type_as_path
type_of (as4_path b segments) = type_as4_path
type_of (next_hop h) = type_next_hop
type_of (med v) = type_med
type_of (local_pref v) = type_local_pref
type_of atomic_aggregate = type_atomic_aggregate
type_of (aggregator asn router_id b) = type_aggregator
type_of (as4_aggregator asn router_id b) = type_as4_aggregator
type_of (community values) = type_community
type_of (mp_reach_ipv6 nexthop nlri) = type_mp_reach_ipv6
type_of (mp_unreach_ipv6 withdrawn) = type_mp_unreach_ipv6
type_of (unknown_pattr value) = type_unknown

-- The switch on the code: the list of its cases, the default behind them.
abbrev pub case_of : List (ℕ × PattrType) → ℕ → PattrType
case_of [] code = type_unknown
case_of (c ∷ cs) code = if code == c.0 then c.1 else case_of cs code

abbrev pub known_codes : List (ℕ × PattrType)
known_codes =
    (1, type_origin)
    ∷ (2, type_as_path)
    ∷ (3, type_next_hop)
    ∷ (4, type_med)
    ∷ (5, type_local_pref)
    ∷ (6, type_atomic_aggregate)
    ∷ (7, type_aggregator)
    ∷ (8, type_community)
    ∷ (17, type_as4_path)
    ∷ (18, type_as4_aggregator)
    ∷ (14, type_mp_reach_ipv6)
    ∷ (15, type_mp_unreach_ipv6)
    ∷ []

unfoldable pub pattr_type_from_code : ℕ → PattrType
pattr_type_from_code code = case_of known_codes code

unfoldable pub pattr_default_flags : PattrType → ℕ
pattr_default_flags type_origin = flag_transitive
pattr_default_flags type_as_path = flag_transitive
pattr_default_flags type_next_hop = flag_transitive
pattr_default_flags type_local_pref = flag_transitive
pattr_default_flags type_atomic_aggregate = flag_transitive
pattr_default_flags type_med = flag_optional
pattr_default_flags type_mp_reach_ipv6 = flag_optional
pattr_default_flags type_mp_unreach_ipv6 = flag_optional
pattr_default_flags type_aggregator = bit_or flag_optional flag_transitive
pattr_default_flags type_community = bit_or flag_optional flag_transitive
pattr_default_flags type_as4_path = bit_or flag_optional flag_transitive
pattr_default_flags type_as4_aggregator = bit_or flag_optional flag_transitive
pattr_default_flags type_unknown = 0

unfoldable pub pattr_default_type_code : PattrType → ℕ
pattr_default_type_code type_origin = 1
pattr_default_type_code type_as_path = 2
pattr_default_type_code type_next_hop = 3
pattr_default_type_code type_med = 4
pattr_default_type_code type_local_pref = 5
pattr_default_type_code type_atomic_aggregate = 6
pattr_default_type_code type_aggregator = 7
pattr_default_type_code type_community = 8
pattr_default_type_code type_as4_path = 17
pattr_default_type_code type_as4_aggregator = 18
pattr_default_type_code type_mp_reach_ipv6 = 14
pattr_default_type_code type_mp_unreach_ipv6 = 15
pattr_default_type_code type_unknown = 0

-- The test of one bit.
abbrev pub has : ℕ → ℕ → Bool
has flags bit = not (bit_and flags bit == 0)

-- `pattr_known_flags_valid` for the type UNKNOWN and for the others; 15 is the complement of the four
-- flags, 207 that of EXTENDED_LENGTH and PARTIAL.
unfoldable pub unknown_flags_valid : ℕ → Bool
unknown_flags_valid flags =
    if has flags flag_optional
    then not (has flags flag_partial && not (has flags flag_transitive))
    else false

unfoldable pub typed_flags_valid : ℕ → ℕ → Bool
typed_flags_valid defaults flags =
    let both = bit_or flag_optional flag_transitive in
    if bit_and flags 207 == defaults
    then not (has flags flag_partial && not (bit_and defaults both == both))
    else false

unfoldable pub pattr_known_flags_valid : PattrType → ℕ → Bool
pattr_known_flags_valid t flags = if has flags 15 then false else elim t [
  | type_unknown ↦ unknown_flags_valid flags
  | other ↦ typed_flags_valid (pattr_default_flags other) flags
]

-- The zeroed union of a fresh object, read as the member that the type selects, with the flag for AS
-- numbers of four octets that `pattr_set_defaults` sets.
unfoldable pub fresh_data : PattrType → PattrData
fresh_data type_origin = origin 0
fresh_data type_as_path = as_path false []
fresh_data type_next_hop = next_hop (0 ∷ 0 ∷ 0 ∷ 0 ∷ [])
fresh_data type_med = med 0
fresh_data type_local_pref = local_pref 0
fresh_data type_atomic_aggregate = atomic_aggregate
fresh_data type_aggregator = aggregator 0 0 false
fresh_data type_community = community []
fresh_data type_as4_path = as4_path true []
fresh_data type_as4_aggregator = as4_aggregator 0 0 true
fresh_data type_mp_reach_ipv6 = mp_reach_ipv6 [] []
fresh_data type_mp_unreach_ipv6 = mp_unreach_ipv6 []
fresh_data type_unknown = unknown_pattr []

unfoldable pub pattr_new : PattrType → Alloc Pattr
pattr_new t = do
  malloc
  give (record {
    refcount = 1;
    flags = pattr_default_flags t;
    type_code = pattr_default_type_code t;
    data_of = fresh_data t;
  })

unfoldable pub pattr_ref : Pattr → Pattr
pattr_ref attr =
    if ltb attr.refcount uint32_max then record attr { refcount = attr.refcount + 1 } else attr

-- `none` if the object has been freed.
unfoldable pub pattr_unref : Pattr → Option Pattr
pattr_unref attr =
    if attr.refcount == 0
    then some attr
    else (if attr.refcount - 1 == 0
        then none
        else some (record attr { refcount = attr.refcount - 1 }))

unfoldable pub pattr_prepare_for_ebgp_forward : Pattr → Pattr
pattr_prepare_for_ebgp_forward attr = elim (type_of attr.data_of) [
  | type_unknown ↦
      if has attr.flags flag_optional && has attr.flags flag_transitive
      then record attr { flags = bit_or attr.flags flag_partial }
      else attr
  | _ ↦ attr
]
