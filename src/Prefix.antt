-- ===== src/Prefix.antt =====
-- What src/prefix4.c and src/prefix6.c have in common: addresses as lists of their bytes in network
-- order, the number of octets of a prefix, the mask on the last octet, and memcmp.
-- `mask_bytes` is the description that both files are compared with.
pub mod Mask
pub mod Bits
pub mod Octets
pub mod Order
pub mod Agree
pub mod Codec
use Prim.Native.Nat.{compare, Ordering}
use libbgp.Prelude.{
  ℕ, zero, suc, ◌+◌, ◌-◌, ◌/◌, ◌%◌, ◌≤◌, ◌*◌, ◌≡◌, Bool, true, false, List, [], ◌∷◌, ◌==◌, ◌||◌,
  if◌then◌else◌, bit_and, min, get_or, set, length,
}
use libbgp.Prelude.Bits.{partial_mask_byte, high_bits, AllBytes}

-- `((size_t)cidr + 7u) / 8u`
abbrev pub prefix_octets : ℕ → ℕ
prefix_octets cidr = (cidr + 7) / 8

-- `bytes[octets - 1u] &= partial_mask((uint8_t)(cidr % 8u))`
abbrev pub mask_last : ℕ → List ℕ → List ℕ
mask_last cidr bytes =
    let last = prefix_octets cidr - 1 in
    set bytes last (bit_and (get_or bytes last 0) (partial_mask_byte (cidr % 8)))

-- The mask is applied only where the last octet is a partial one.
unfoldable pub mask_partial : ℕ → List ℕ → List ℕ
mask_partial cidr bytes = if cidr % 8 == 0 then bytes else mask_last cidr bytes

-- An address with its first `cidr` bits kept and the others cleared, byte by byte.
unfoldable pub mask_bytes : ℕ → List ℕ → List ℕ
mask_bytes cidr [] = []
mask_bytes cidr (b ∷ bs) = high_bits (min 8 cidr) b ∷ mask_bytes (cidr - 8) bs

-- memcmp: the order of the first bytes that differ.
unfoldable pub memcmp : List ℕ → List ℕ → Ordering
memcmp [] _ = Ordering.eq
memcmp (x ∷ xs) [] = Ordering.eq
memcmp (x ∷ xs) (y ∷ ys) = elim (compare x y) [
  | Ordering.lt ↦ Ordering.lt
  | Ordering.gt ↦ Ordering.gt
  | Ordering.eq ↦ memcmp xs ys
]

-- `memcmp(…) == 0`
unfoldable pub bytes_eq : List ℕ → List ℕ → Bool
unfolding memcmp
bytes_eq xs ys = elim (memcmp xs ys) [ Ordering.eq ↦ true | _ ↦ false ]

-- struct libbgp_prefix4 and struct libbgp_prefix6, which differ in the width of the address.
pub record Prefix : Type 0 where
  pub addr : List ℕ
  pub len : ℕ

-- An address of `width` bytes and a length within it.
pub record IsAddress (width : ℕ) (addr : List ℕ) (len : ℕ) : Type 0 where
  pub sized : length addr ≡ width
  pub bytes : AllBytes addr
  pub short : len ≤ 8 * width
