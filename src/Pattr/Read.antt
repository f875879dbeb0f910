-- ===== src/Pattr/Read.antt =====
-- The parser of src/pattr.c. The two passes over the bytes of a path are `scan_segments`, which checks and
-- counts, and `read_segments`, which fills the arrays.
use libbgp.Prelude.{
  ℕ, zero, suc, ◌+◌, ◌-◌, ◌*◌, ◌/◌, ◌%◌, ◌^◌, List, [], ◌∷◌, ◌++◌, Bool, true, false, ltb, leb,
  ◌==◌, ◌&&◌, ◌||◌, if◌then◌else◌, not, length, get_or, take, drop,
}
use libbgp.Prelude.Errors
use libbgp.Prelude.Errors.{Result, ok, err, bad_len, invalid, generic, ErrorCode, Mem}
use libbgp.Prelude.Alloc.{Alloc, ◌>>=◌, ◌>>◌, give, fail, require, malloc, malloc_bytes}
use libbgp.Prelude.Wire.{bgp_get_be16, bgp_get_be32}
use libbgp.Prelude.Growth.{size_max}
use libbgp.Prefix6.{Prefix6, prefix6_parse}
use libbgp.Pattr.{
  PattrData, PattrType, Pattr, AsPathSegment, origin, as_path, as4_path, next_hop, med, local_pref,
  atomic_aggregate, aggregator, as4_aggregator, community, mp_reach_ipv6, mp_unreach_ipv6,
  unknown_pattr, type_origin, type_as_path, type_next_hop, type_med, type_local_pref,
  type_atomic_aggregate, type_aggregator, type_community, type_as4_path, type_as4_aggregator,
  type_mp_reach_ipv6, type_mp_unreach_ipv6, type_unknown, pattr_type_from_code,
  pattr_known_flags_valid, has, flag_extended_length,
}

abbrev pub lift {ℓ} : {A : Type ℓ} → Result A → Alloc A
lift r m = (r, m)

abbrev pub asn_size : Bool → ℕ
asn_size is_4b = if is_4b then 4 else 2

-- The numbers of segments and of AS numbers.
unfoldable pub scan_segments : ℕ → Bool → List ℕ → ℕ → ℕ → Result (ℕ × ℕ)
scan_segments fuel is_4b [] segment_count total_asns = ok (segment_count, total_asns)
scan_segments zero is_4b (b ∷ bs) segment_count total_asns = err generic
scan_segments (suc fuel) is_4b (b ∷ bs) segment_count total_asns =
    let value = b ∷ bs in
    let count = get_or value 1 0 in
    let bytes = 2 + count * asn_size is_4b in
    let rest =
      scan_segments fuel is_4b (drop bytes value) (segment_count + 1) (total_asns + count) in
    if ltb (length value) 2
    then err bad_len
    else (if ltb b 1 || ltb 2 b
        then err invalid
        else (if count == 0
            then err bad_len
            else (if ltb ((size_max - 2) / asn_size is_4b) count
                then err bad_len
                else (if ltb (length value) bytes
                    then err bad_len
                    else (if ltb (size_max - count) total_asns then err bad_len else rest)))))

unfoldable pub pattr_align_offset : ℕ → ℕ → Result ℕ
pattr_align_offset offset align =
    let rem = offset % align in
    let padding = align - rem in
    if align == 0
    then err bad_len
    else (if rem == 0
        then ok offset
        else (if ltb (size_max - padding) offset then err bad_len else ok (offset + padding)))

-- The size of the block, on a machine of 64 bits: the block's header and a segment take 24 bytes each and
-- are aligned to 8.
unfoldable pub pattr_as_path_block_layout : ℕ → ℕ → Result ℕ
pattr_as_path_block_layout segment_count asn_count =
    if ltb (size_max / 24) segment_count || ltb (size_max / 4) asn_count
    then err bad_len
    else (Errors.◌>>=◌ (pattr_align_offset 24 8) λ first.
        if ltb (size_max - segment_count * 24) first
        then err bad_len
        else (Errors.◌>>=◌ (pattr_align_offset (first + segment_count * 24) 4) λ second.
            if ltb (size_max - asn_count * 4) second
            then err bad_len
            else ok (second + asn_count * 4)))

unfoldable pub read_asns : ℕ → Bool → List ℕ → List ℕ
read_asns zero is_4b value = []
read_asns (suc n) is_4b value =
    (if is_4b then bgp_get_be32 value else bgp_get_be16 value)
    ∷ read_asns n is_4b (drop (asn_size is_4b) value)

unfoldable pub read_segments : ℕ → Bool → List ℕ → List AsPathSegment
read_segments zero is_4b value = []
read_segments (suc n) is_4b value =
    let count = get_or value 1 0 in
    record { segment_type = get_or value 0 0; asns = read_asns count is_4b (drop 2 value) }
    ∷ read_segments n is_4b (drop (2 + count * asn_size is_4b) value)

unfoldable pub parse_as_path : Bool → List ℕ → Alloc (List AsPathSegment)
parse_as_path is_4b value = do
  counts ← lift (scan_segments (length value) is_4b value 0 0)
  let filled = do
    block ← lift (pattr_as_path_block_layout counts.0 counts.1)
    malloc
    give (read_segments counts.0 is_4b value)
  if counts.0 == 0 then give [] else filled

unfoldable pub parse_community : List ℕ → Alloc PattrData
parse_community value = do
  require (length value % 4 == 0) bad_len
  malloc_bytes (length value / 4)
  give (community (read_asns (length value / 4) true value))

-- `sizeof(libbgp_prefix6_t)`
abbrev pub prefix6_size : ℕ
prefix6_size = 17

-- The array of routes before the next one is stored: its new capacity.
unfoldable pub reserve_route : ℕ → ℕ → Alloc ℕ
reserve_route count cap =
    let new_cap = if cap == 0 then 8 else cap * 2 % 2 ^ 64 in
    let fits = not (leb new_cap cap || ltb (size_max / prefix6_size) new_cap) in
    if leb cap count then require fits bad_len >> malloc >> give new_cap else give cap

-- The loop of both functions for IPv6 routes; `routes` are those read, in an array of `cap`.
unfoldable pub parse_routes : ℕ → List Prefix6 → ℕ → List ℕ → Alloc (List Prefix6)
parse_routes fuel routes cap [] = give routes
parse_routes zero routes cap (b ∷ bs) = fail generic
parse_routes (suc fuel) routes cap (b ∷ bs) = do
  (p, consumed) ← lift (prefix6_parse (b ∷ bs))
  require (not (consumed == 0 || ltb (length (b ∷ bs)) consumed)) bad_len
  next_cap ← reserve_route (length routes) cap
  parse_routes fuel (routes ++ p ∷ []) next_cap (drop consumed (b ∷ bs))

unfoldable pub parse_unknown : List ℕ → Alloc PattrData
parse_unknown value = do malloc_bytes (length value); give (unknown_pattr value)

abbrev pub ipv6_unicast : List ℕ → Bool
ipv6_unicast value = bgp_get_be16 value == 2 && get_or value 2 0 == 1

unfoldable pub parse_mp_unreach_ipv6 : List ℕ → Alloc PattrData
parse_mp_unreach_ipv6 value = do
  require (leb 3 (length value)) bad_len
  let routes = do
    withdrawn ← parse_routes (length value) [] 0 (drop 3 value)
    give (mp_unreach_ipv6 withdrawn)
  if ipv6_unicast value then routes else parse_unknown value

unfoldable pub parse_mp_reach_ipv6 : List ℕ → Alloc PattrData
parse_mp_reach_ipv6 value = do
  require (leb 5 (length value)) bad_len
  let nexthop_len = get_or value 3 0
  let routes = do
    require (nexthop_len == 16 || nexthop_len == 32) invalid
    require (leb (5 + nexthop_len) (length value)) bad_len
    require (get_or value (4 + nexthop_len) 0 == 0) invalid
    nlri ← parse_routes (length value) [] 0 (drop (5 + nexthop_len) value)
    give (mp_reach_ipv6 (take nexthop_len (drop 4 value)) nlri)
  if ipv6_unicast value then routes else parse_unknown value

unfoldable pub parse_aggregator : Bool → List ℕ → Alloc PattrData
parse_aggregator is_4b value = do
  require (length value == (if is_4b then 8 else 6)) bad_len
  give (
      if is_4b
      then aggregator (bgp_get_be32 value) (bgp_get_be32 (drop 4 value)) true
      else aggregator (bgp_get_be16 value) (bgp_get_be32 (drop 2 value)) false)

-- The switch on the type.
unfoldable pub parse_value : PattrType → Bool → List ℕ → Alloc PattrData
parse_value type_origin use_4b_asn value = do
  require (length value == 1) bad_len
  require (leb (get_or value 0 0) 2) invalid
  give (origin (get_or value 0 0))
parse_value type_as_path use_4b_asn value = do
  segments ← parse_as_path use_4b_asn value
  give (as_path use_4b_asn segments)
parse_value type_next_hop use_4b_asn value = do
  require (length value == 4) bad_len
  give (next_hop (take 4 value))
parse_value type_med use_4b_asn value = do
  require (length value == 4) bad_len
  give (med (bgp_get_be32 value))
parse_value type_local_pref use_4b_asn value = do
  require (length value == 4) bad_len
  give (local_pref (bgp_get_be32 value))
parse_value type_atomic_aggregate use_4b_asn value = do
  require (length value == 0) bad_len
  give atomic_aggregate
parse_value type_aggregator use_4b_asn value = parse_aggregator use_4b_asn value
parse_value type_community use_4b_asn value = parse_community value
parse_value type_as4_path use_4b_asn value = do
  segments ← parse_as_path true value
  give (as4_path true segments)
parse_value type_as4_aggregator use_4b_asn value = do
  require (length value == 8) bad_len
  give (as4_aggregator (bgp_get_be32 value) (bgp_get_be32 (drop 4 value)) true)
parse_value type_mp_reach_ipv6 use_4b_asn value = parse_mp_reach_ipv6 value
parse_value type_mp_unreach_ipv6 use_4b_asn value = parse_mp_unreach_ipv6 value
parse_value type_unknown use_4b_asn value = parse_unknown value

-- The header of an attribute: its length and that of the value.
unfoldable pub header_of : List ℕ → Result (ℕ × ℕ)
header_of buf =
    if ltb (length buf) 3
    then err bad_len
    else (if has (get_or buf 0 0) flag_extended_length
        then (if ltb (length buf) 4 then err bad_len else ok (4, bgp_get_be16 (drop 2 buf)))
        else ok (3, get_or buf 2 0))

-- The attribute that replaces the caller's, whose reference count stays, and the bytes consumed.
unfoldable pub pattr_parse_as4 : Pattr → List ℕ → Bool → Alloc (Pattr × ℕ)
pattr_parse_as4 attr buf use_4b_asn = do
  (header_len, value_len) ← lift (header_of buf)
  require (leb value_len (length buf - header_len)) bad_len
  let flags = get_or buf 0 0
  let code = get_or buf 1 0
  let t = pattr_type_from_code code
  require (pattr_known_flags_valid t flags) invalid
  data_of ← parse_value t use_4b_asn (take value_len (drop header_len buf))
  give (record attr { flags = flags; type_code = code; data_of = data_of }, header_len + value_len)

abbrev pub pattr_parse : Pattr → List ℕ → Alloc (Pattr × ℕ)
pattr_parse attr buf = pattr_parse_as4 attr buf false

unfoldable pub pattr_type_from_buf : List ℕ → PattrType
pattr_type_from_buf buf =
    if ltb (length buf) 3
    then type_unknown
    else (if has (get_or buf 0 0) flag_extended_length && ltb (length buf) 4
        then type_unknown
        else pattr_type_from_code (get_or buf 1 0))
