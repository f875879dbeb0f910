-- ===== src/Prefix4.antt =====
-- src/prefix4.c: IPv4 prefixes in wire format, containment and order.
-- An address, which the code keeps in a uint32_t in network byte order, is the list of its four bytes.
pub mod Codec
pub mod Includes
pub mod Compare
pub mod Order
use Prim.Native.Nat.{compare, Ordering}
use libbgp.Prelude.{
  ℕ, zero, suc, ◌+◌, ◌-◌, ◌*◌, ◌/◌, ◌%◌, ◌^◌, ◌≡◌, List, [], ◌∷◌, ◌++◌, Bool, true, false, ◌&&◌,
  ◌||◌, ◌==◌, ltb, leb, if◌then◌else◌, length, get_or, take, drop, replicate, bit_and,
}
use libbgp.Prelude.Errors.{Result, ok, err, ErrorCode, bad_len, invalid, buffer, guard, ◌>>=◌, ◌>>◌}
use libbgp.Prefix.{Prefix, prefix_octets, mask_partial, memcmp, bytes_eq, IsAddress}

abbrev pub Prefix4 : Type 0
Prefix4 = Prefix

abbrev pub IsPrefix4 : Prefix4 → Type 0
IsPrefix4 p = IsAddress 4 p.addr p.len

-- `cidr_masks_nbo`, the mask of each length as a number.
abbrev cidr_masks_nbo : List ℕ
cidr_masks_nbo =
    0x00000000 ∷ 0x80000000 ∷ 0xc0000000 ∷ 0xe0000000 ∷ 0xf0000000 ∷ 0xf8000000 ∷ 0xfc000000
    ∷ 0xfe000000 ∷ 0xff000000 ∷ 0xff800000 ∷ 0xffc00000 ∷ 0xffe00000 ∷ 0xfff00000 ∷ 0xfff80000
    ∷ 0xfffc0000 ∷ 0xfffe0000 ∷ 0xffff0000 ∷ 0xffff8000 ∷ 0xffffc000 ∷ 0xffffe000 ∷ 0xfffff000
    ∷ 0xfffff800 ∷ 0xfffffc00 ∷ 0xfffffe00 ∷ 0xffffff00 ∷ 0xffffff80 ∷ 0xffffffc0 ∷ 0xffffffe0
    ∷ 0xfffffff0 ∷ 0xfffffff8 ∷ 0xfffffffc ∷ 0xfffffffe ∷ 0xffffffff ∷ []

-- The four bytes that end up in memory.
unfoldable pub cidr_to_mask : ℕ → List ℕ
cidr_to_mask cidr =
    if ltb 32 cidr
    then 0 ∷ 0 ∷ 0 ∷ 0 ∷ []
    else (let hp = get_or cidr_masks_nbo cidr 0 in
        (hp / 2 ^ 24 % 256) ∷ (hp / 2 ^ 16 % 256) ∷ (hp / 2 ^ 8 % 256) ∷ (hp % 256) ∷ [])

-- `buf` holds the `len` bytes that may be read; the result has the prefix and the bytes consumed.
unfoldable pub prefix4_parse : List ℕ → Result (Prefix4 × ℕ)
prefix4_parse buf = do
  guard (leb 1 (length buf)) bad_len
  let cidr = get_or buf 0 0
  guard (leb cidr 32) invalid
  let octets = prefix_octets cidr
  guard (leb (1 + octets) (length buf)) bad_len
  let copied = take octets (drop 1 buf) ++ replicate (4 - octets) 0
  let bytes = if octets == 0 then replicate 4 0 else mask_partial cidr copied
  ok (record { addr = bytes; len = cidr }, 1 + octets)

-- The bytes that are written at the front of a buffer of `cap` bytes; their number is `*out_len`.
unfoldable pub prefix4_write : Prefix4 → ℕ → Result (List ℕ)
prefix4_write p cap = do
  guard (leb p.len 32) bad_len
  let octets = prefix_octets p.len
  guard (leb (1 + octets) cap) buffer
  let bytes = if octets == 0 then p.addr else mask_partial p.len p.addr
  ok (p.len ∷ take octets bytes)

-- Two 32-bit words are equal if their bytes in memory are.
unfoldable pub prefix4_eq : Prefix4 → Prefix4 → Bool
prefix4_eq a b = bytes_eq a.addr b.addr && a.len == b.len

-- `addr & mask` on the words, byte by byte.
unfoldable pub and_bytes : List ℕ → List ℕ → List ℕ
and_bytes [] _ = []
and_bytes (x ∷ xs) [] = []
and_bytes (x ∷ xs) (m ∷ ms) = bit_and x m ∷ and_bytes xs ms

unfoldable pub prefix4_includes : Prefix4 → Prefix4 → Bool
prefix4_includes outer inner =
    if ltb 32 outer.len || ltb 32 inner.len
    then false
    else (if ltb inner.len outer.len
        then false
        else (let mask = cidr_to_mask outer.len in
            bytes_eq (and_bytes inner.addr mask) (and_bytes outer.addr mask)))

-- The sign of the result: `lt` for a negative number, `gt` for a positive one.
unfoldable pub prefix4_cmp : Prefix4 → Prefix4 → Ordering
prefix4_cmp a b = elim (memcmp a.addr b.addr) [
  | Ordering.lt ↦ Ordering.lt
  | Ordering.gt ↦ Ordering.gt
  | Ordering.eq ↦
      if ltb a.len b.len
      then Ordering.lt
      else (if ltb b.len a.len then Ordering.gt else Ordering.eq)
]
