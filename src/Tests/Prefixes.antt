-- ===== src/Tests/Prefixes.antt =====
-- Prefixes, prefixes on the wire and netmasks.
use Prim.Native.Nat.{Ordering}
use libbgp.Prelude.{
  ℕ, ◌+◌, ◌≤◌, ◌≡◌, ◌↔◌, refl, List, [], ◌∷◌, ◌++◌, true, ltb, if◌then◌else◌, length, arith,
  replicate,
}
use libbgp.Prelude.Bits.{bit_of}
use libbgp.Prelude.Errors.{ok}
use libbgp.Prefix.{Prefix, prefix_octets, mask_partial}
use libbgp.Prefix.Bits.{SameBits}
use libbgp.Prefix.Codec.{canonical}
use libbgp.Prefix.Order.{swap_order}
use libbgp.Prefix4.{IsPrefix4, prefix4_parse, prefix4_write, prefix4_includes, prefix4_cmp}
use libbgp.Prefix4.Codec.{prefix4_parse-write, prefix4_write-parse}
use libbgp.Prefix4.Includes.{prefix4_includes_iff}
use libbgp.Prefix4.Compare.{prefix4_cmp_order}
use libbgp.Prefix6.{
  IsPrefix6, mask_addr, cidr6_to_mask, prefix6_parse, prefix6_write, prefix6_includes,
}
use libbgp.Prefix6.Codec.{prefix6_parse-write, prefix6_write-parse}
use libbgp.Prefix6.Masks.{cidr6_to_mask_bits}
use libbgp.Prefix6.Includes.{prefix6_includes_iff}

-- 10.20.48.0/20, 10.20.63.0/24 and 10.20.48.1/32.
abbrev wide : Prefix
wide = record { addr = 10 ∷ 20 ∷ 48 ∷ 0 ∷ []; len = 20 }

abbrev narrow : Prefix
narrow = record { addr = 10 ∷ 20 ∷ 63 ∷ 0 ∷ []; len = 24 }

abbrev host : Prefix
host = record { addr = 10 ∷ 20 ∷ 48 ∷ 1 ∷ []; len = 32 }

wide_valid : IsPrefix4 wide
wide_valid = record { sized = refl; bytes = ground arith; short = omega arith }

narrow_valid : IsPrefix4 narrow
narrow_valid = record { sized = refl; bytes = ground arith; short = omega arith }

host_valid : IsPrefix4 host
host_valid = record { sized = refl; bytes = ground arith; short = omega arith }

prefix4_parse-write_example :
    (out : List ℕ) × (prefix4_write narrow 9 ≡ ok out)
    × (length out ≡ 1 + prefix_octets narrow.len)
    × (prefix4_parse (out ++ 7 ∷ []) ≡ ok (canonical narrow, length out))
prefix4_parse-write_example = prefix4_parse-write narrow 9 (7 ∷ []) narrow_valid (omega arith)

-- 20 bits of 10.20.63, of which the last four are host bits.
abbrev wire : List ℕ
wire = 20 ∷ 10 ∷ 20 ∷ 63 ∷ 99 ∷ []

wire_parses : prefix4_parse wire ≡ ok (wide, 4)
unfolding prefix4_parse mask_partial
wire_parses = refl

prefix4_write-parse_example :
    (4 ≡ 1 + prefix_octets wide.len)
    × (4 ≤ length wire)
    × IsPrefix4 wide
    × (canonical wide ≡ wide)
    × (out : List ℕ) × (prefix4_write wide 4 ≡ ok out)
    × (length out ≡ 4)
    × (prefix4_parse out ≡ ok (wide, 4))
prefix4_write-parse_example = prefix4_write-parse wire wide 4 (ground arith) wire_parses

prefix4_includes_iff_example :
    (prefix4_includes wide narrow ≡ true)
    ↔ ((wide.len ≤ narrow.len) × SameBits wide.len narrow.addr wide.addr)
prefix4_includes_iff_example = prefix4_includes_iff wide narrow wide_valid narrow_valid

prefix4_cmp_order_example :
    (prefix4_cmp host wide ≡ swap_order (prefix4_cmp wide host))
    × ((prefix4_cmp wide host ≡ Ordering.eq) ↔ (wide ≡ host))
    × (prefix4_cmp wide host ≡ Ordering.lt
        → prefix4_cmp host narrow ≡ Ordering.lt
        → prefix4_cmp wide narrow ≡ Ordering.lt)
prefix4_cmp_order_example = prefix4_cmp_order wide host narrow wide_valid host_valid narrow_valid

-- 2001:db8::/32 and 2001:db8:80::/44.
abbrev wide6 : Prefix
wide6 = record { addr = 32 ∷ 1 ∷ 13 ∷ 184 ∷ replicate 12 0; len = 32 }

abbrev narrow6 : Prefix
narrow6 = record { addr = 32 ∷ 1 ∷ 13 ∷ 184 ∷ 0 ∷ 128 ∷ replicate 10 0; len = 44 }

wide6_valid : IsPrefix6 wide6
wide6_valid = record { sized = refl; bytes = ground arith; short = omega arith }

narrow6_valid : IsPrefix6 narrow6
narrow6_valid = record { sized = refl; bytes = ground arith; short = omega arith }

prefix6_parse-write_example :
    (out : List ℕ) × (prefix6_write narrow6 7 ≡ ok out)
    × (length out ≡ 1 + prefix_octets narrow6.len)
    × (prefix6_parse (out ++ 7 ∷ []) ≡ ok (canonical narrow6, length out))
prefix6_parse-write_example = prefix6_parse-write narrow6 7 (7 ∷ []) narrow6_valid (omega arith)

abbrev wire6 : List ℕ
wire6 = 32 ∷ 32 ∷ 1 ∷ 13 ∷ 184 ∷ []

wire6_parses : prefix6_parse wire6 ≡ ok (wide6, 5)
unfolding prefix6_parse mask_addr mask_partial
wire6_parses = refl

prefix6_write-parse_example :
    (5 ≡ 1 + prefix_octets wide6.len)
    × (5 ≤ length wire6)
    × IsPrefix6 wide6
    × (canonical wide6 ≡ wide6)
    × (out : List ℕ) × (prefix6_write wide6 5 ≡ ok out)
    × (length out ≡ 5)
    × (prefix6_parse out ≡ ok (wide6, 5))
prefix6_write-parse_example = prefix6_write-parse wire6 wide6 5 (ground arith) wire6_parses

prefix6_includes_iff_example :
    (prefix6_includes wide6 narrow6 ≡ true)
    ↔ ((wide6.len ≤ narrow6.len) × SameBits wide6.len narrow6.addr wide6.addr)
prefix6_includes_iff_example = prefix6_includes_iff wide6 narrow6 wide6_valid narrow6_valid

cidr6_to_mask_bits_example : bit_of (cidr6_to_mask 44) 43 ≡ (if ltb 43 44 then 1 else 0)
cidr6_to_mask_bits_example = cidr6_to_mask_bits 44 43 (omega arith) (omega arith)
