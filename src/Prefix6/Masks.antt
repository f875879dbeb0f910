-- ===== src/Prefix6/Masks.antt =====
-- The masks of src/prefix6.c: the address mask is `mask_bytes`, the netmask has the leading bits set.
use libbgp.Prelude.{
  ℕ, ◌≤◌, ◌<◌, ◌≡◌, inl, inr, refl, sym, ap, ◌∙◌, List, [], ◌++◌, true, ◌==◌, ==→eq, ltb,
  if◌then◌else◌, Bool-cases, length, arith, replicate, take_all, append-nil,
}
use libbgp.Prelude.Bits.{AllBytes, all_below, all_below_sound, bit_of}
use libbgp.Prefix.{mask_bytes, mask_partial, prefix_octets}
use libbgp.Prefix.Mask.{take-mask_partial, mask_bytes_zero}
use libbgp.Prefix.Octets.{length-mask_partial}
use libbgp.Prefix6.{mask_addr, cidr6_to_mask}

pub mask_addr-mask_bytes :
    (c : ℕ) (addr : List ℕ)
    → AllBytes addr
    → length addr ≡ 16
    → c ≤ 128
    → mask_addr addr c ≡ mask_bytes c addr
unfolding mask_addr
mask_addr-mask_bytes c addr h e le =
    let whole = take-mask_partial 16 c addr h e le in
    elim (Bool-cases (c == 0)) [
      | inl none ↦
          let c0 : c ≡ 0 = ==→eq c 0 none in
          rw c0 (ap (λ n. replicate n 0) (sym e) ∙ sym (mask_bytes_zero addr h))
      | inr some ↦ elim (Bool-cases (ltb (prefix_octets c) 16)) [
        | inl part ↦ rw (some, part) whole
        | inr all ↦
            let full : prefix_octets c ≡ 16 = ground arith in
            let masked = length-mask_partial c addr in
            rw (some, all)
              (sym (append-nil (mask_partial c addr))
                ∙ ap (λ t. t ++ [])
                    (sym (take_all 16 (mask_partial c addr) (omega (arith, masked))))
                ∙ (rw full at whole))
      ]
    ]

netmask_table :
    all_below 129
      (λ c. all_below 128 (λ i. bit_of (cidr6_to_mask c) i == (if ltb i c then 1 else 0)))
    ≡ true
unfolding all_below cidr6_to_mask
netmask_table = refl

-- The netmask of each length has exactly the leading `c` of its 128 bits set.
pub cidr6_to_mask_bits :
    (c i : ℕ) → c ≤ 128 → i < 128 → bit_of (cidr6_to_mask c) i ≡ (if ltb i c then 1 else 0)
cidr6_to_mask_bits c i hc hi = ==→eq _ _ (
    all_below_sound 128 _ i
      (all_below_sound 129
        (λ c. all_below 128 (λ i. bit_of (cidr6_to_mask c) i == (if ltb i c then 1 else 0))) c
        netmask_table (omega arith))
      hi)
