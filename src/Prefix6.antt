-- ===== src/Prefix6.antt =====
-- src/prefix6.c: IPv6 prefixes in wire format, containment and order. An address is its 16 bytes.
pub mod Masks
pub mod Codec
pub mod Includes
pub mod Compare
use Prim.Native.Nat.{Ordering}
use libbgp.Prelude.{
  ℕ, ◌+◌, ◌-◌, ◌/◌, ◌%◌, List, [], ◌∷◌, ◌++◌, Bool, false, ◌&&◌, ◌||◌, ◌==◌, ltb, leb,
  if◌then◌else◌, length, get_or, take, drop, replicate, set,
}
use libbgp.Prelude.Bits.{partial_mask_byte}
use libbgp.Prelude.Errors.{Result, ok, bad_len, invalid, buffer, guard, ◌>>=◌, ◌>>◌}
use libbgp.Prefix.{Prefix, prefix_octets, mask_partial, memcmp, bytes_eq, IsAddress}

abbrev pub Prefix6 : Type 0
Prefix6 = Prefix

abbrev pub IsPrefix6 : Prefix6 → Type 0
IsPrefix6 p = IsAddress 16 p.addr p.len

-- Clears the bits of an address behind the first `cidr`.
unfoldable pub mask_addr : List ℕ → ℕ → List ℕ
mask_addr addr cidr =
    if cidr == 0
    then replicate 16 0
    else (let octets = prefix_octets cidr in
        let masked = mask_partial cidr addr in
        if ltb octets 16 then take octets masked ++ replicate (16 - octets) 0 else masked)

unfoldable pub cidr6_to_mask : ℕ → List ℕ
cidr6_to_mask cidr =
    if ltb 128 cidr
    then replicate 16 0
    else (let full = cidr / 8 in
        let rem = cidr % 8 in
        let out = replicate full 255 ++ replicate (16 - full) 0 in
        if rem == 0 then out else set out full (partial_mask_byte rem))

-- `buf` holds the `len` bytes that may be read; the result has the prefix and the bytes consumed.
unfoldable pub prefix6_parse : List ℕ → Result (Prefix6 × ℕ)
prefix6_parse buf = do
  guard (leb 1 (length buf)) bad_len
  let cidr = get_or buf 0 0
  guard (leb cidr 128) invalid
  let octets = prefix_octets cidr
  guard (leb (1 + octets) (length buf)) bad_len
  let copied = take octets (drop 1 buf) ++ replicate (16 - octets) 0
  let addr = if octets == 0 then replicate 16 0 else mask_addr copied cidr
  ok (record { addr = addr; len = cidr }, 1 + octets)

-- The bytes that are written at the front of a buffer of `cap` bytes; their number is `*out_len`.
unfoldable pub prefix6_write : Prefix6 → ℕ → Result (List ℕ)
prefix6_write p cap = do
  guard (leb p.len 128) bad_len
  let octets = prefix_octets p.len
  guard (leb (1 + octets) cap) buffer
  let addr = mask_addr p.addr p.len
  ok (p.len ∷ take octets addr)

unfoldable pub prefix6_eq : Prefix6 → Prefix6 → Bool
prefix6_eq a b = a.len == b.len && bytes_eq a.addr b.addr

unfoldable pub prefix6_includes : Prefix6 → Prefix6 → Bool
prefix6_includes outer inner =
    if ltb 128 outer.len || ltb 128 inner.len
    then false
    else (if ltb inner.len outer.len
        then false
        else (let outer_addr = mask_addr outer.addr outer.len in
            let inner_addr = mask_addr inner.addr outer.len in bytes_eq outer_addr inner_addr))

-- The sign of the result: `lt` for a negative number, `gt` for a positive one.
unfoldable pub prefix6_cmp : Prefix6 → Prefix6 → Ordering
prefix6_cmp a b = elim (memcmp a.addr b.addr) [
  | Ordering.lt ↦ Ordering.lt
  | Ordering.gt ↦ Ordering.gt
  | Ordering.eq ↦
      if ltb a.len b.len
      then Ordering.lt
      else (if ltb b.len a.len then Ordering.gt else Ordering.eq)
]
