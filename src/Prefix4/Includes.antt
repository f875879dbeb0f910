-- ===== src/Prefix4/Includes.antt =====
-- Containment of prefixes in src/prefix4.c against the bits of the addresses.
use libbgp.Prelude.{
  ℕ, suc, ◌-◌, ◌*◌, ◌≤◌, ◌<◌, ◌≡◌, ◌↔◌, refl, sym, ap, ap₂, ◌∙◌, List, [], ◌∷◌, Bool, true, ◌&&◌,
  ◌==◌, ==→eq, leb, length, get_or, min, arith, bit_and, ge→ltb,
}
use libbgp.Prelude.Bits.{
  all_below, all_below_sound, partial_mask_byte, high_bits, bit_and-partial_mask_byte, AllBytes,
}
use libbgp.Prefix.{mask_bytes, IsAddress}
use libbgp.Prefix.Bits.{SameBits}
use libbgp.Prefix.Agree.{agree, longer_agree_iff}
use libbgp.Prefix4.{Prefix4, IsPrefix4, cidr_to_mask, and_bytes, prefix4_includes}

-- The table of masks holds, at every length and byte, the mask of the bits that are left there.
mask_entry : ℕ → ℕ → Bool
unfolding cidr_to_mask
mask_entry i c = get_or (cidr_to_mask c) i 0 == partial_mask_byte (min 8 (c - 8 * i))

masks_table : all_below 33 (λ c. all_below 4 (λ i. mask_entry i c)) ≡ true
unfolding all_below mask_entry
masks_table = refl

mask_entry_lem :
    (c i : ℕ) → c ≤ 32 → i < 4 → get_or (cidr_to_mask c) i 0 ≡ partial_mask_byte (min 8 (c - 8 * i))
unfolding mask_entry
mask_entry_lem c i hc hi = ==→eq _ _ (
    all_below_sound 4 _ i
      (all_below_sound 33 (λ c. all_below 4 (λ i. mask_entry i c)) c masks_table (omega arith)) hi)

length-cidr_to_mask : (c : ℕ) → length (cidr_to_mask c) ≡ 4
unfolding cidr_to_mask
length-cidr_to_mask c = ground arith

-- A conjunction with masks of the bits that are left at each byte clears the bits behind `c`.
and_bytes-mask :
    (c : ℕ) (xs ms : List ℕ)
    → AllBytes xs
    → length ms ≡ length xs
    → ((i : ℕ) → i < length xs → get_or ms i 0 ≡ partial_mask_byte (min 8 (c - 8 * i)))
    → and_bytes xs ms ≡ mask_bytes c xs
unfolding and_bytes mask_bytes
and_bytes-mask c [] ms hx e h = refl
and_bytes-mask c (x ∷ xs) [] hx e h = absurd (omega arith)
and_bytes-mask c (x ∷ xs) (m ∷ ms) hx e h =
    ap₂ ◌∷◌
      (ap (bit_and x) (h 0 (omega arith))
        ∙ bit_and-partial_mask_byte (min 8 (c - 0)) x (omega arith) hx.0
        ∙ ap (λ k. high_bits (min 8 k) x) {x = c - 0} {y = c} (omega arith))
      (and_bytes-mask (c - 8) xs ms hx.1 (omega arith) (λ i lt.
        h (suc i) (omega arith)
        ∙ ap (λ k. partial_mask_byte (min 8 k)) {x = c - 8 * suc i} {y = c - 8 - 8 * i}
            (omega arith)))

and_bytes-cidr_to_mask :
    (c : ℕ) (xs : List ℕ) → IsAddress 4 xs c → and_bytes xs (cidr_to_mask c) ≡ mask_bytes c xs
and_bytes-cidr_to_mask c xs a =
    and_bytes-mask c xs (cidr_to_mask c) a.bytes (length-cidr_to_mask c ∙ sym a.sized)
      (λ i lt. mask_entry_lem c i a.short (omega (arith, a.sized)))

pub includes_masked :
    (outer inner : Prefix4)
    → IsPrefix4 outer
    → IsPrefix4 inner
    → prefix4_includes outer inner
      ≡ (leb outer.len inner.len && agree outer.len outer.addr inner.addr)
unfolding prefix4_includes agree
includes_masked outer inner ho hi =
    rw
      (
        ge→ltb 32 outer.len ho.short,
        ge→ltb 32 inner.len hi.short,
        and_bytes-cidr_to_mask outer.len outer.addr ho,
      )
      (ground (arith, and_bytes-cidr_to_mask outer.len inner.addr))

-- For valid prefixes `prefix4_includes` answers true exactly if the inner prefix is at least as long
-- as the outer one and the leading `outer.len` bits of the two addresses are the same.
pub prefix4_includes_iff :
    (outer inner : Prefix4)
    → IsPrefix4 outer
    → IsPrefix4 inner
    → (prefix4_includes outer inner ≡ true)
      ↔ ((outer.len ≤ inner.len) × SameBits outer.len inner.addr outer.addr)
prefix4_includes_iff outer inner ho hi =
    rw (includes_masked outer inner ho hi) (longer_agree_iff outer.len inner.len ho hi)
